-- ===== src/Caddyfile/Keys.antt =====
-- What the keys for decryption and the client name are once they have been accepted.
use mathlib.Core.Path.{subst}
use caddy_storage_redis.Prelude.{
  ℕ, zero, suc, ◌+◌, ◌≤◌, Bytes, List, [], ◌∷◌, ◌++◌, false, ◌||◌, none, ◌≡◌, ◌↔◌, refl, arith,
  equal, contains, is_empty, length, take, ltb, All, All-append, inl, inr, Bool-cases, equal_iff,
}
use caddy_storage_redis.Exec.{Result, ok, err, out_of_fuel}
use caddy_storage_redis.Config.{Config}
use caddy_storage_redis.Caddyfile.{
  keys_loop, with_keys, finalize_decryption_keys, validate_client_name,
}

-- No key occurs twice.
abbrev pub AreDistinct : List Bytes → Type 0
AreDistinct [] = Unit {0}
AreDistinct (k ∷ ks) = (contains ks k ≡ false) × AreDistinct ks

-- A key of 32 bytes that is not the one for encryption.
pub record IsFurther (encryption_key k : Bytes) : Type 0 where
  pub size : length k ≡ 32
  pub other : equal k encryption_key ≡ false

length-take : (n : ℕ) (s : Bytes) → n ≤ length s → length (take n s) ≡ n
length-take zero s h = refl
length-take (suc n) [] h = absurd (omega arith)
length-take (suc n) (c ∷ s) h = omega (arith, length-take n s (omega arith))

contains-append :
    (ks : List Bytes) (k x : Bytes) → contains (ks ++ k ∷ []) x ≡ (contains ks x || equal k x)
unfolding contains
contains-append [] k x = ground arith
contains-append (y ∷ ks) k x = ground (arith, contains-append ks k x)

AreDistinct-append :
    (ks : List Bytes) (k : Bytes)
    → AreDistinct ks
    → contains ks k ≡ false
    → AreDistinct (ks ++ k ∷ [])
unfolding contains
AreDistinct-append [] k d h = (refl, tt)
AreDistinct-append (y ∷ ks) k d h = (
  ground (arith, contains-append ks k y, equal_iff k y, equal_iff y k, d.0),
  AreDistinct-append ks k d.1 (ground arith),
)

module _ (replace_all : Bytes → Bytes) (number : ℕ → Bytes) where
  keys_loop-AreDistinct :
      (e : Bytes) (idx : ℕ) (keys entries : List Bytes) (out : List Bytes)
      → AreDistinct keys
      → All (IsFurther e) keys
      → keys_loop replace_all number e idx keys entries ≡ ok out
      → AreDistinct out × All (IsFurther e) out
  unfolding keys_loop
  keys_loop-AreDistinct e idx keys [] out d f h =
      let same : keys ≡ out = ground arith in
      subst (λ ks. AreDistinct ks × All (IsFurther e) ks) same (d, f)
  keys_loop-AreDistinct e idx keys (x ∷ entries) out d f h =
      let key = take 32 (replace_all x) in
      elim (Bool-cases (ltb (length (replace_all x)) 32)) [
        | inl short ↦ cc (rw short at h)
        | inr long ↦ elim (Bool-cases (equal key e || contains keys key)) [
          | inl seen ↦ keys_loop-AreDistinct e (idx + 1) keys entries out d f (rw (long, seen) at h)
          | inr fresh ↦
              keys_loop-AreDistinct e (idx + 1) (keys ++ key ∷ []) entries out
                (AreDistinct-append keys key d (ground arith))
                (All-append (IsFurther e) keys (key ∷ []) f (
                  record {
                    size = length-take 32 (replace_all x) (ground arith);
                    other = ground arith;
                  },
                  tt,
                ))
                (rw (long, fresh) at h)
        ]
      ]

  -- What holds of the keys that are left.
  abbrev pub AreAccepted : Config → Config → Type 0
  AreAccepted rs out =
      AreDistinct out.decryption_keys
      × All (IsFurther rs.encryption_key) out.decryption_keys
      × (is_empty rs.encryption_key ≡ false)

  with_keys-AreAccepted :
      (rs out : Config) (entries : List Bytes) (r : Result (List Bytes))
      → is_empty rs.encryption_key ≡ false
      → keys_loop replace_all number rs.encryption_key 0 [] entries ≡ r
      → with_keys replace_all number rs r ≡ ok out
      → AreAccepted rs out
  unfolding with_keys
  with_keys-AreAccepted rs out entries (ok ks) needed ran h =
      let (d, f) = keys_loop-AreDistinct rs.encryption_key 0 [] entries ks tt tt ran in
      let same : ks ≡ out.decryption_keys = ground arith in
      (subst AreDistinct same d, subst (All (IsFurther rs.encryption_key)) same f, needed)
  with_keys-AreAccepted rs out entries (err e) needed ran h = cc
  with_keys-AreAccepted rs out entries out_of_fuel needed ran h = cc

  -- After a success, where any key for decryption was configured, there is a key for encryption,
  -- and the keys that are left are distinct, have 32 bytes each and differ from it.
  pub finalize_decryption_keys-AreAccepted :
      (rs out : Config) (k : Bytes) (ks : List Bytes)
      → rs.decryption_keys ≡ k ∷ ks
      → finalize_decryption_keys replace_all number rs ≡ ok out
      → AreAccepted rs out
  unfolding finalize_decryption_keys
  finalize_decryption_keys-AreAccepted rs out k ks some_key h =
      let r = rw some_key at h in
      elim (Bool-cases (is_empty rs.encryption_key)) [
        | inl missing ↦ cc (rw missing at r)
        | inr needed ↦
            with_keys-AreAccepted rs out (k ∷ ks) _ needed refl
              (rw (needed, finalize_decryption_keys) at r)
      ]

-- A name is accepted if all of its bytes are from '!' to '~', and only then.
pub validate_client_name_lem :
    (name : Bytes) → (validate_client_name name ≡ none) ↔ All (λ c. (b'!' ≤ c) × (c ≤ b'~')) name
unfolding validate_client_name
validate_client_name_lem [] = (λ e. tt, λ a. refl)
validate_client_name_lem (c ∷ name) = ground (arith, validate_client_name_lem name)
