-- ===== src/Go/Strconv.antt =====
-- `strconv.Atoi`, and `int` as a 64-bit word.
use caddy_storage_redis.Prelude.{
  ℕ, ◌+◌, ◌-◌, ◌*◌, ◌%◌, ◌^◌, Bytes, [], ◌∷◌, Bool, true, false, ◌&&◌, Option, none, some, ltb, leb,
  ◌==◌, if◌then◌else◌,
}

-- `negsuc n` is -(n + 1).
pub data ℤ : Type 0 where
  pos : ℕ → ℤ
  negsuc : ℕ → ℤ

abbrev pub is_negative : ℤ → Bool
is_negative (pos n) = false
is_negative (negsuc n) = true

-- The 64-bit pattern of an `int`.
abbrev pub word : ℤ → ℕ
word (pos n) = n % 2 ^ 64
word (negsuc n) = (2 ^ 64 - 1 - n % 2 ^ 64) % 2 ^ 64

-- The value of a run of digits, if there are only digits.
unfoldable pub digits : ℕ → Bytes → Option ℕ
digits n [] = some n
digits n (c ∷ s) =
    let rest = digits (n * 10 + (c - 48)) s in if leb 48 c && leb c 57 then rest else none

abbrev negate : ℕ → ℤ
negate n = if n == 0 then pos 0 else negsuc (n - 1)

-- A magnitude as an `int`: out of range it is the nearest one, with an error.
abbrev in_range : Bool → Option ℕ → ℤ × Bool
in_range negative none = (pos 0, false)
in_range true (some n) = if leb n (2 ^ 63) then (negate n, true) else (negsuc (2 ^ 63 - 1), false)
in_range false (some n) = if ltb n (2 ^ 63) then (pos n, true) else (pos (2 ^ 63 - 1), false)

abbrev unsigned : Bytes → Option ℕ
unsigned [] = none
unsigned (c ∷ s) = digits 0 (c ∷ s)

-- The value, and whether there is no error.
unfoldable pub atoi : Bytes → ℤ × Bool
unfolding digits
atoi [] = (pos 0, false)
atoi (c ∷ s) =
    if c == b'-'
    then in_range true (unsigned s)
    else if c == b'+'
    then in_range false (unsigned s)
    else in_range false (unsigned (c ∷ s))
