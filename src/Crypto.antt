-- ===== src/Crypto.antt =====
-- crypto.go: AES-GCM with the configured key, and the keys that are tried when it fails.
pub mod Laws
use caddy_storage_redis.Prelude.{
  ℕ, ◌+◌, Bytes, List, [], ◌∷◌, ◌++◌, Bool, true, false, not, Option, none, some, if◌then◌else◌,
  codes, ltb, length, take, drop,
}
use caddy_storage_redis.Go.Errors.{Error, new_error, errorf, errors_is, decryption_failure}
use caddy_storage_redis.Exec.{Result, ok, err, out_of_fuel, Exec, pure, raise, annotate, ◌>>=◌}
use caddy_storage_redis.Platform.{Platform, Reply, reply, fail}
use caddy_storage_redis.Client.{Machine, call}

-- crypto/aes and crypto/cipher. The two constructors give an error or none.
pub record Aead : Type 0 where
  pub new_cipher : Bytes → Option Error
  pub new_gcm : Bytes → Option Error
  pub nonce_size : ℕ
  pub overhead : ℕ
  pub seal : Bytes → Bytes → Bytes → Bytes
  pub unseal : Bytes → Bytes → Bytes → Reply Bytes

-- A cipher for the key, or the error of the first constructor that fails.
pub check_key : Aead → Bytes → Option Error
check_key G key = elim (G.new_cipher key) [
  | some e ↦ some (errorf (codes "Unable to create AES cipher") e)
  | none ↦ elim (G.new_gcm key) [
    | some e ↦ some (errorf (codes "Unable to create GCM cipher") e)
    | none ↦ none
  ]
]

-- `encrypt`, with the key of the configuration
unfoldable pub encrypt : (P : Platform) → Aead → Bytes → Bytes → Exec (Machine P) Bytes
unfolding check_key
encrypt P G key bytes = elim (check_key G key) [
  | some e ↦ raise e
  | none ↦
      annotate (errorf (codes "Unable to generate nonce")) (call P (P.read_random G.nonce_size))
      >>= λ nonce. pure (nonce ++ G.seal key nonce bytes)
]

-- `errDecryptionFailure`, wrapped with what `Open` says
abbrev pub not_authentic : Error → Error
not_authentic e = record {
  text = codes "Decryption failure: " ++ e.text;
  identity = none;
  wraps = decryption_failure ∷ [];
}

opened : Reply Bytes → Result Bytes
opened (reply out) = ok out
opened (fail e) = err (not_authentic e)

-- `decryptWithKey`
unfoldable pub decrypt_with_key : Aead → Bytes → Bytes → Result Bytes
unfolding check_key opened
decrypt_with_key G key bytes = elim (check_key G key) [
  | some e ↦ err e
  | none ↦
      if ltb (length bytes) (G.nonce_size + G.overhead)
      then err (new_error (codes "Invalid encrypted data"))
      else opened (G.unseal key (take G.nonce_size bytes) (drop G.nonce_size bytes))
]

-- The loop over `DecryptionKeys`; `e` is the error of the first key.
unfoldable pub try_keys : Aead → List Bytes → Bytes → Error → Result Bytes
try_keys G [] bytes e = err e
try_keys G (key ∷ keys) bytes e =
    let rest = try_keys G keys bytes e in
    elim (decrypt_with_key G key bytes) [ ok out ↦ ok out | err _ ↦ rest | out_of_fuel ↦ rest ]

-- `decrypt`
unfoldable pub decrypt : Aead → Bytes → List Bytes → Bytes → Result Bytes
unfolding try_keys
decrypt G key keys bytes = elim (decrypt_with_key G key bytes) [
  | ok out ↦ ok out
  | out_of_fuel ↦ out_of_fuel
  | err e ↦ if errors_is e decryption_failure then try_keys G keys bytes e else err e
]
