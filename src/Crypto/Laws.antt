-- ===== src/Crypto/Laws.antt =====
-- What is sealed with a key is read by every configuration that holds the key.
use caddy_storage_redis.Prelude.{
  ℕ, ◌+◌, Bytes, List, [], ◌∷◌, ◌++◌, none, ◌≡◌, refl, ap, arith, length, take, drop, length-append,
  zero, suc, Option-cases, inl, inr, codes, All,
}
use caddy_storage_redis.Go.Errors.{Error, errorf}
use caddy_storage_redis.Exec.{Result, ok, err, pure, raise, ◌>>=◌, continue, rewrap}
use caddy_storage_redis.Exec.Laws.{Runs}
use caddy_storage_redis.Platform.{Platform, Reply, reply, fail}
use caddy_storage_redis.Client.{Machine, call, result}
use caddy_storage_redis.Crypto.{
  Aead, check_key, encrypt, decrypt_with_key, not_authentic, try_keys, decrypt,
}

-- AES-GCM as documented: opening gives back what was sealed, and a sealed text is longer by the
-- overhead.
pub record IsAuthenticated (G : Aead) : Type 0 where
  pub unseal-seal : (k n p : Bytes) → G.unseal k n (G.seal k n p) ≡ reply p
  pub length-seal : (k n p : Bytes) → length (G.seal k n p) ≡ length p + G.overhead

-- The random source gives as many bytes as are asked for.
abbrev pub FillsNonce : Platform → Type 0
FillsNonce P = (n : ℕ) (b : Bytes) (w u : P.World) → P.read_random n w ≡ (reply b, u) → length b ≡ n

take-append : (n : ℕ) (a b : Bytes) → length a ≡ n → take n (a ++ b) ≡ a
take-append zero [] b h = refl
take-append zero (x ∷ a) b h = absurd (omega arith)
take-append (suc n) [] b h = absurd (omega arith)
take-append (suc n) (x ∷ a) b h = ap (◌∷◌ x) (take-append n a b (omega arith))

drop-append : (n : ℕ) (a b : Bytes) → length a ≡ n → drop n (a ++ b) ≡ b
drop-append zero [] b h = refl
drop-append zero (x ∷ a) b h = absurd (omega arith)
drop-append (suc n) [] b h = absurd (omega arith)
drop-append (suc n) (x ∷ a) b h = drop-append n a b (omega arith)

module _ (G : Aead) (A : IsAuthenticated G) (key : Bytes) where
  decrypt_with_key-sealed :
      (nonce p : Bytes)
      → check_key G key ≡ none
      → length nonce ≡ G.nonce_size
      → decrypt_with_key G key (nonce ++ G.seal key nonce p) ≡ ok p
  unfolding decrypt_with_key
  decrypt_with_key-sealed nonce p good size = ground (
    arith,
    take-append G.nonce_size nonce (G.seal key nonce p) size,
    drop-append G.nonce_size nonce (G.seal key nonce p) size,
    A.unseal-seal key nonce p,
    A.length-seal key nonce p,
    length-append {0} nonce (G.seal key nonce p),
  )

-- What is sealed with `key`: a nonce of the right size, and the sealed text behind it.
pub record IsSealed (G : Aead) (key p c : Bytes) : Type 0 where
  pub nonce : Bytes
  pub usable : check_key G key ≡ none
  pub size : length nonce ≡ G.nonce_size
  pub text : c ≡ nonce ++ G.seal key nonce p

module _ (P : Platform) (G : Aead) (key p : Bytes) (fills : FillsNonce P) where
  -- After the random source has replied.
  abbrev with_nonce : Machine P → Reply Bytes × P.World → Result Bytes × Machine P
  with_nonce s z =
      continue (rewrap (errorf (codes "Unable to generate nonce")) (result z.0))
        (λ nonce. pure (nonce ++ G.seal key nonce p)) (record s { world = z.1 })

  with_nonce-IsSealed :
      (c : Bytes) (s t : Machine P) (z : Reply Bytes × P.World)
      → check_key G key ≡ none
      → P.read_random G.nonce_size s.world ≡ z
      → with_nonce s z ≡ (ok c, t)
      → IsSealed G key p c
  unfolding pure
  with_nonce-IsSealed c s t (reply nonce, w) good e h = record {
    nonce = nonce;
    usable = good;
    size = fills G.nonce_size nonce s.world w e;
    text = ground arith;
  }
  with_nonce-IsSealed c s t (fail x, w) good e h = cc

  -- A value that was encrypted is sealed with the key.
  pub encrypt-IsSealed :
      (c : Bytes) (s t : Machine P) → Runs (encrypt P G key p) s c t → IsSealed G key p c
  unfolding encrypt raise ◌>>=◌ call
  encrypt-IsSealed c s t h = elim (Option-cases (check_key G key)) [
    | inl good ↦
        with_nonce-IsSealed c s t (P.read_random G.nonce_size s.world) good refl
          (rw (good, encrypt) at h)
    | inr (e, bad) ↦ cc (rw (bad, encrypt) at h)
  ]

module _ (G : Aead) where
  -- A key does not authenticate the value: `decrypt` goes on to the next one.
  abbrev pub Refuses : Bytes → Bytes → Type 0
  Refuses key c = (e : Error) × (decrypt_with_key G key c ≡ err (not_authentic e))

  -- A list of keys in which each before the right one fails, with any error.
  pub data Finds (key c : Bytes) : List Bytes → Type 0 where
    here : (keys : List Bytes) → Finds key c (key ∷ keys)
    later :
        (k : Bytes) (keys : List Bytes) (e : Error)
        → decrypt_with_key G k c ≡ err e
        → Finds key c keys
        → Finds key c (k ∷ keys)

module _ (G : Aead) (A : IsAuthenticated G) where
  IsSealed-decrypt_with_key :
      (key p c : Bytes) → IsSealed G key p c → decrypt_with_key G key c ≡ ok p
  IsSealed-decrypt_with_key key p c i =
      rw i.text (decrypt_with_key-sealed G A key i.nonce p i.usable i.size)

  try_keys-Finds :
      (key p c : Bytes) (keys : List Bytes) (e : Error)
      → IsSealed G key p c
      → Finds G key c keys
      → try_keys G keys c e ≡ ok p
  unfolding try_keys
  try_keys-Finds key p c keys e i (here ks) = rw (IsSealed-decrypt_with_key key p c i, try_keys)
  try_keys-Finds key p c keys e i (later k ks x bad f) =
      rw (bad, try_keys) (try_keys-Finds key p c ks e i f)

  -- A value sealed with `key` is read with `key` as the main key.
  pub decrypt-sealed :
      (key p c : Bytes) → IsSealed G key p c → (keys : List Bytes) → decrypt G key keys c ≡ ok p
  unfolding decrypt
  decrypt-sealed key p c i keys = rw (IsSealed-decrypt_with_key key p c i, decrypt)

  -- A value sealed with `key` is read with another main key that does not authenticate it, if `key`
  -- is the first of the further keys that does not fail.
  pub decrypt-rotated :
      (key main p c : Bytes) (keys : List Bytes)
      → IsSealed G key p c
      → Refuses G main c
      → Finds G key c keys
      → decrypt G main keys c ≡ ok p
  unfolding decrypt
  decrypt-rotated key main p c keys i (e, refused) f =
      rw (refused, decrypt) (try_keys-Finds key p c keys (not_authentic e) i f)

-- No key of the list reads the value.
abbrev pub AllFail : Aead → Bytes → List Bytes → Type 0
AllFail G c = All (λ k. (x : Error) × (decrypt_with_key G k c ≡ err x))

try_keys-AllFail :
    (G : Aead) (c : Bytes) (keys : List Bytes) (e : Error)
    → AllFail G c keys
    → try_keys G keys c e ≡ err e
unfolding try_keys
try_keys-AllFail G c [] e all = refl
try_keys-AllFail G c (k ∷ keys) e all = rw (all.0.1, try_keys) (try_keys-AllFail G c keys e all.1)

-- When the main key fails and no further key reads the value, the error is that of the main key.
pub decrypt-AllFail :
    (G : Aead) (main c : Bytes) (keys : List Bytes) (e : Error)
    → decrypt_with_key G main c ≡ err e
    → AllFail G c keys
    → decrypt G main keys c ≡ err e
unfolding decrypt
decrypt-AllFail G main c keys e refused all =
    rw (refused, decrypt) (ground (arith, try_keys-AllFail G c keys e all))
