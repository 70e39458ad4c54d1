-- ===== src/Caddyfile.antt =====
-- caddyfile.go: the entries of a Caddyfile block, and the checks on the prefix, the client name and
-- the keys for decryption.
pub mod Prefix
pub mod Keys
pub mod Final
pub mod Finalized
use caddy_storage_redis.Prelude.{
  ℕ, zero, suc, ◌+◌, Bytes, List, [], ◌∷◌, ◌++◌, Bool, true, false, not, ◌&&◌, ◌||◌, Option, none,
  some, if◌then◌else◌, equal, contains, is_empty, codes, length, take, drop, ltb, leb, ◌==◌,
}
use caddy_storage_redis.Go.Strings.{slash, has_prefix, split, trim_left, trim_right}
use caddy_storage_redis.Go.Errors.{Error, new_error}
use caddy_storage_redis.Go.FilePath.{dot, dot_dot}
use caddy_storage_redis.Exec.{Result, ok, err, out_of_fuel}
use caddy_storage_redis.Config.{Config, compression_none, compression_flate, compression_zlib}

-- `strconv.ParseBool`
unfoldable pub parse_bool : Bytes → Option Bool
unfolding contains
parse_bool s =
    if contains
      (codes "1" ∷ codes "t" ∷ codes "T" ∷ codes "TRUE" ∷ codes "true" ∷ codes "True" ∷ []) s
    then some true
    else if contains
        (codes "0" ∷ codes "f" ∷ codes "F" ∷ codes "FALSE" ∷ codes "false" ∷ codes "False" ∷ []) s
    then some false
    else none

-- `multiValueKeys`
abbrev pub multi_value_keys : List Bytes
multi_value_keys = codes "address" ∷ codes "host" ∷ codes "port" ∷ codes "decryption_keys" ∷ []

-- What the lexer of Caddy gives for one entry of a block: the key, the values behind it, and the
-- tokens of its own block.
pub record Entry : Type 0 where
  pub key : Bytes
  pub same_line : List Bytes
  pub nested : List Bytes

-- An error with the place that Caddy adds to it.
module _ (errf : Bytes → Error) where
  -- The values of an entry.
  unfoldable pub values_of : Entry → Result (Bytes × List Bytes)
  unfolding contains
  values_of e = elim (e.same_line) [
    | [] ↦ elim (e.nested) [
      | [] ↦ err (errf (codes "no value supplied for configuraton key '" ++ (e.key ++ codes "'")))
      | v ∷ more ↦ ok (v, more)
    ]
    | v ∷ [] ↦ ok (v, [])
    | v ∷ w ∷ more ↦
        if contains multi_value_keys e.key
        then ok (v, w ∷ more)
        else err (
            errf
              (codes "too many values on one line for configuration key '" ++ (e.key ++ codes "'")))
  ]

  flag : Bytes → Bytes → (Bool → Config) → Result Config
  unfolding parse_bool
  flag key v set = elim (parse_bool v) [
    | some b ↦ ok (set b)
    | none ↦ err (errf (codes "invalid boolean value for '" ++ (key ++ (codes "': " ++ v))))
  ]

  compression_mode : Config → Bytes → Result Config
  unfolding parse_bool
  compression_mode rs v = elim (parse_bool v) [
    | some b ↦ ok (record rs { compression = if b then compression_flate else compression_none })
    | none ↦
        if equal v compression_flate || equal v compression_zlib
        then ok (record rs { compression = v })
        else err (
            errf (
              codes "invalid value for 'compression': "
              ++ (v ++ codes " (expected 'true', 'flate', 'zlib', or 'false')")))
  ]

  unless_empty : Bytes → Config → Config → Result Config
  unless_empty v rs set = ok (if is_empty v then rs else set)

  -- The switch of `UnmarshalCaddyfile` on the key of an entry.
  unfoldable pub set_option : Config → Bytes → Bytes × List Bytes → Result Config
  unfolding flag compression_mode unless_empty
  set_option rs key (v, more) =
      if equal key (codes "address")
      then ok (record rs { address = v ∷ more })
      else if equal key (codes "host")
      then ok (record rs { host = v ∷ more })
      else if equal key (codes "port")
      then ok (record rs { port = v ∷ more })
      else if equal key (codes "db")
      then ok (record rs { db = v })
      else if equal key (codes "timeout")
      then ok (record rs { timeout = v })
      else if equal key (codes "username")
      then unless_empty v rs (record rs { username = v })
      else if equal key (codes "password")
      then unless_empty v rs (record rs { password = v })
      else if equal key (codes "sentinel_password")
      then unless_empty v rs (record rs { sentinel_password = v })
      else if equal key (codes "master_name")
      then unless_empty v rs (record rs { master_name = v })
      else if equal key (codes "key_prefix")
      then unless_empty v rs (record rs { key_prefix = v })
      else if equal key (codes "encryption_key") || equal key (codes "aes_key")
      then ok (record rs { encryption_key = v })
      else if equal key (codes "decryption_keys")
      then ok (record rs { decryption_keys = v ∷ more })
      else if equal key (codes "client_name")
      then ok (record rs { client_name = v })
      else if equal key (codes "compression")
      then compression_mode rs v
      else if equal key (codes "tls_enabled")
      then flag key v (λ b. record rs { tls_enabled = b })
      else if equal key (codes "tls_insecure")
      then flag key v (λ b. record rs { tls_insecure = b })
      else if equal key (codes "tls_server_certs_pem")
      then unless_empty v rs (record rs { tls_server_certs_pem = v })
      else if equal key (codes "tls_server_certs_path")
      then unless_empty v rs (record rs { tls_server_certs_path = v })
      else if equal key (codes "route_by_latency")
      then flag key v (λ b. record rs { route_by_latency = b })
      else if equal key (codes "route_randomly")
      then flag key v (λ b. record rs { route_randomly = b })
      else err (errf (codes "unknown configuration key: " ++ key))

  set_entry : Config → Bytes → Result (Bytes × List Bytes) → Result Config
  unfolding set_option
  set_entry rs key (ok vs) = set_option rs key vs
  set_entry rs key (err e) = err e
  set_entry rs key out_of_fuel = out_of_fuel

  and_then : Result Config → (Config → Result Config) → Result Config
  and_then (ok rs) f = f rs
  and_then (err e) f = err e
  and_then out_of_fuel f = out_of_fuel

  -- The loop of `UnmarshalCaddyfile` over the entries of one block.
  unfoldable pub unmarshal_block : Config → List Entry → Result Config
  unfolding values_of set_entry and_then
  unmarshal_block rs [] = ok rs
  unmarshal_block rs (e ∷ es) =
      and_then (set_entry rs e.key (values_of e)) (λ after. unmarshal_block after es)

-- The loop of `finalizeDecryptionKeys`; `idx` is the index of the next entry, and `number` writes it.
module _ (replace_all : Bytes → Bytes) (number : ℕ → Bytes) where
  unfoldable pub keys_loop : Bytes → ℕ → List Bytes → List Bytes → Result (List Bytes)
  keys_loop encryption_key idx keys [] = ok keys
  keys_loop encryption_key idx keys (entry ∷ entries) =
      let expanded = replace_all entry in
      let key = take 32 expanded in
      let seen = equal key encryption_key || contains keys key in
      let rest =
        keys_loop encryption_key (idx + 1) (if seen then keys else keys ++ key ∷ []) entries in
      if ltb (length expanded) 32
      then err (
          new_error (
            codes "invalid length for 'decryption_keys' entry "
            ++ (number idx ++ codes ", must contain at least 32 bytes")))
      else rest

  with_keys : Config → Result (List Bytes) → Result Config
  with_keys rs (ok keys) = ok (record rs { decryption_keys = keys })
  with_keys rs (err e) = err e
  with_keys rs out_of_fuel = out_of_fuel

  -- `finalizeDecryptionKeys`
  unfoldable pub finalize_decryption_keys : Config → Result Config
  unfolding keys_loop with_keys
  finalize_decryption_keys rs = elim (rs.decryption_keys) [
    | [] ↦ ok rs
    | k ∷ ks ↦
        if is_empty rs.encryption_key
        then err (new_error (codes "'decryption_keys' requires 'encryption_key'"))
        else with_keys rs (keys_loop rs.encryption_key 0 [] (k ∷ ks))
  ]

-- `validateClientName`
unfoldable pub validate_client_name : Bytes → Option Error
validate_client_name [] = none
validate_client_name (c ∷ name) =
    let rest = validate_client_name name in
    if ltb c (b'!') || ltb (b'~') c
    then some
        (new_error (codes "invalid 'client_name': only printable ASCII without spaces is allowed"))
    else rest

-- The loop of `normalizeKeyPrefix` over the segments; `quote` is the verb `%q`.
unfoldable pub bad_segment : List Bytes → Option Bytes
bad_segment [] = none
bad_segment (s ∷ ss) =
    let rest = bad_segment ss in
    if is_empty s || (equal s dot || equal s dot_dot) then some s else rest

module _ (trim_space : Bytes → Bytes) (quote : Bytes → Bytes) where
  -- `normalizeKeyPrefix`, with `strings.TrimSpace` and its table of spaces as an argument
  unfoldable pub normalize_key_prefix : Bytes → Result Bytes
  unfolding bad_segment trim_left trim_right split
  normalize_key_prefix prefix =
      let is_slash = λ (c : ℕ). c == slash in
      let p = trim_right is_slash (trim_left is_slash (trim_space prefix)) in
      if is_empty p then ok p else elim (bad_segment (split slash p)) [
        | some s ↦ err (new_error (codes "invalid key_prefix segment: " ++ quote s))
        | none ↦ ok p
      ]
