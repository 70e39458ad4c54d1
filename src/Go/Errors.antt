-- ===== src/Go/Errors.antt =====
-- Errors of Go: a text, an identity for `==`, and what `errors.Is` finds in the chain.
use caddy_storage_redis.Prelude.{
  ℕ, Bytes, List, [], ◌∷◌, ◌++◌, Bool, false, ◌||◌, Option, none, some, ◌==◌, codes,
}

-- The errors that the program compares with: `fs.ErrNotExist`, `redis.Nil`,
-- `redislock.ErrNotObtained`, and `errDecryptionFailure` of crypto.go.
pub data Sentinel : Type 0 where
  not_exist redis_nil not_obtained decryption_failure : Sentinel

abbrev tag : Sentinel → ℕ
tag not_exist = 0
tag redis_nil = 1
tag not_obtained = 2
tag decryption_failure = 3

abbrev pub same : Sentinel → Sentinel → Bool
same a b = tag a == tag b

pub record Error : Type 0 where
  pub text : Bytes
  pub identity : Option Sentinel
  pub wraps : List Sentinel

abbrev pub among : List Sentinel → Sentinel → Bool
among [] s = false
among (t ∷ ts) s = same t s || among ts s

-- `err == s`
abbrev pub is_exactly : Error → Sentinel → Bool
is_exactly e s = elim e.identity [ none ↦ false | some t ↦ same t s ]

-- `errors.Is(err, s)`
abbrev pub errors_is : Error → Sentinel → Bool
errors_is e s = is_exactly e s || among e.wraps s

-- What an error that wraps this one has in its chain.
abbrev pub chain : Error → List Sentinel
chain e = elim e.identity [ none ↦ e.wraps | some t ↦ t ∷ e.wraps ]

-- `errors.New`, and `fmt.Errorf` with no error among its arguments.
abbrev pub new_error : Bytes → Error
new_error text = record { text = text; identity = none; wraps = [] }

-- `fmt.Errorf("...: %v", err)`: the text stays, the chain is lost.
abbrev pub errorf : Bytes → Error → Error
errorf prefix e = new_error (prefix ++ (codes ": " ++ e.text))

-- The identity of a sentinel that the program itself returns.
abbrev pub sentinel : Bytes → Sentinel → Error
sentinel text s = record { text = text; identity = some s; wraps = [] }
