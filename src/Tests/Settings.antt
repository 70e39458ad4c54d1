-- ===== src/Tests/Settings.antt =====
-- A prefix, keys and a client name as they are configured.
use caddy_storage_redis.Prelude.{
  ℕ, ◌≤◌, Bytes, [], ◌∷◌, Bool, none, ◌≡◌, ◌↔◌, refl, codes, equal, contains, All, zero, suc, ◌+◌,
  ◌==◌,
}
use caddy_storage_redis.Go.Strings.{trim_left, trim_right}
use caddy_storage_redis.Config.{Config, new}
use caddy_storage_redis.Caddyfile.{finalize_decryption_keys, keys_loop, validate_client_name}
use caddy_storage_redis.Caddyfile.Keys.{
  finalize_decryption_keys-AreAccepted, AreAccepted, validate_client_name_lem,
}

abbrev is_space : ℕ → Bool
is_space c = c == 32

abbrev trim_space : Bytes → Bytes
trim_space s = trim_right is_space (trim_left is_space s)

abbrev same_text : Bytes → Bytes
same_text s = s

abbrev nested : Config
nested = record new { key_prefix = codes "caddy/eu" }

abbrev key_of : ℕ → Bytes
key_of c = repeated 32
  where
    repeated : ℕ → Bytes
    repeated zero = []
    repeated (suc n) = c ∷ repeated n

abbrev number : ℕ → Bytes
number n = (48 + n) ∷ []

-- The key for encryption is among the further ones, and one of these stands there twice.
abbrev given : Config
given = record new {
  encryption_key = key_of 65;
  decryption_keys = key_of 66 ∷ key_of 65 ∷ key_of 66 ∷ key_of 67 ∷ [];
}

abbrev accepted : Config
accepted = record given { decryption_keys = key_of 66 ∷ key_of 67 ∷ [] }

finalize_decryption_keys-AreAccepted_example : AreAccepted same_text number given accepted
unfolding finalize_decryption_keys keys_loop equal contains
finalize_decryption_keys-AreAccepted_example =
    finalize_decryption_keys-AreAccepted same_text number given accepted (key_of 66)
      (key_of 65 ∷ key_of 66 ∷ key_of 67 ∷ []) refl refl

validate_client_name_example :
    (validate_client_name (codes "caddy-1") ≡ none)
    ↔ All (λ c. (b'!' ≤ c) × (c ≤ b'~')) (codes "caddy-1")
validate_client_name_example = validate_client_name_lem (codes "caddy-1")
