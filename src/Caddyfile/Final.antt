-- ===== src/Caddyfile/Final.antt =====
-- caddyfile.go: `finalizeConfiguration`, up to the client that it builds at last.
use caddy_storage_redis.Prelude.{
  ℕ, Bytes, List, [], ◌∷◌, ◌++◌, Bool, true, false, not, ◌&&◌, ◌||◌, Option, none, some,
  if◌then◌else◌, equal, is_empty, codes, length, take, ltb, String,
}
use caddy_storage_redis.Go.Errors.{Error, new_error}
use caddy_storage_redis.Go.Strconv.{ℤ, is_negative, atoi}
use caddy_storage_redis.Exec.{Result, ok, err, out_of_fuel}
use caddy_storage_redis.Config.{
  Config, compression_none, compression_flate, compression_zlib, default_host, default_port,
  default_db, default_key_prefix,
}
use caddy_storage_redis.Caddyfile.{
  finalize_decryption_keys, validate_client_name, normalize_key_prefix,
}

-- Caddy's replacer with its default for what it does not know, package net, strings.TrimSpace, the
-- verb `%q`, and the writing of an index.
pub record Outside : Type 0 where
  pub replace_all : Bytes → Bytes → Bytes
  pub split_host_port : Bytes → Option (Bytes × Bytes)
  pub join_host_port : Bytes → Bytes → Bytes
  pub is_ip : Bytes → Bool
  pub lookup_host : Bytes → Bool
  pub trim_space : Bytes → Bytes
  pub quote : Bytes → Bytes
  pub number : ℕ → Bytes

unfoldable pub bind {ℓ κ} : {A : Type ℓ} {B : Type κ} → Result A → (A → Result B) → Result B
bind (ok a) f = f a
bind (err e) f = err e
bind out_of_fuel f = out_of_fuel

-- A loop that replaces every element, or fails at the first that cannot be.
unfoldable pub each : (Bytes → Result Bytes) → List Bytes → Result (List Bytes)
each f [] = ok []
each f (v ∷ vs) = bind (f v) (λ w. bind (each f vs) (λ ws. ok (w ∷ ws)))

abbrev invalid : String → Bytes → Error
invalid what v = new_error (codes what ++ v)

-- `strconv.Atoi` gives a number that is not negative, or whatever sign is allowed.
abbrev pub is_number : Bool → ℤ × Bool → Bool
is_number signed (n, parsed) = parsed && (signed || not (is_negative n))

-- The addresses of hosts and ports: a list that is shorter goes on with its last element.
unfoldable pub pair_up :
    (Bytes → Bytes → Bytes) → Bytes → Bytes → List Bytes → List Bytes → List Bytes
pair_up join host port [] [] = []
pair_up join host port (h ∷ hs) [] = join h port ∷ pair_up join h port hs []
pair_up join host port [] (p ∷ ps) = join host p ∷ pair_up join host p [] ps
pair_up join host port (h ∷ hs) (p ∷ ps) = join h p ∷ pair_up join h p hs ps

module _ (X : Outside) where
  abbrev pub plain : Bytes → Bytes
  plain v = X.replace_all v []

  unfoldable pub final_address : Bytes → Result Bytes
  final_address v = elim (X.split_host_port (plain v)) [
    | none ↦ err (invalid "invalid address: " (plain v))
    | some (host, port) ↦ ok (X.join_host_port host port)
  ]

  unfoldable pub final_host : Bytes → Result Bytes
  final_host v =
      let w = X.replace_all v default_host in
      if not (X.is_ip w) && not (X.lookup_host w)
      then err (invalid "invalid host value: " w)
      else ok w

  unfoldable pub final_port : Bytes → Result Bytes
  unfolding atoi
  final_port v =
      let w = X.replace_all v default_port in
      if is_number true (atoi w) then ok w else err (invalid "invalid port value: " w)

  unfoldable pub final_timeout : Bytes → Result Bytes
  unfolding atoi
  final_timeout v =
      let w = plain v in
      if is_empty w || is_number false (atoi w)
      then ok w
      else err (invalid "invalid timeout value: " w)

  unfoldable pub final_encryption_key : Bytes → Result Bytes
  final_encryption_key key =
      if is_empty key
      then ok key
      else if ltb (length (plain key)) 32
      then err
          (new_error (codes "invalid length for 'encryption_key', must contain at least 32 bytes"))
      else ok (take 32 (plain key))

  unfoldable pub final_client_name : Bytes → Result Bytes
  unfolding validate_client_name
  final_client_name v = elim (validate_client_name (plain v)) [
    | none ↦ ok (plain v)
    | some e ↦ err e
  ]

  unfoldable pub final_compression : Bytes → Result Bytes
  unfolding equal
  final_compression v =
      let w = plain v in
      if equal w compression_none || equal w (codes "false")
      then ok compression_none
      else if equal w compression_flate || equal w (codes "true")
      then ok compression_flate
      else if equal w compression_zlib
      then ok compression_zlib
      else err (
          new_error (
            codes "invalid compression value: "
            ++ (X.quote v ++ codes " (expected 'flate', 'zlib', or 'false')")))

  unfoldable pub final_db : Bytes → Result Bytes
  unfolding atoi
  final_db v =
      let w = X.replace_all v default_db in
      if is_number false (atoi w) then ok w else err (invalid "invalid db value: " w)

  -- Addresses that were not given are made of the hosts and the ports.
  unfoldable pub with_addresses : Config → Config
  unfolding pair_up
  with_addresses rs = elim rs.address [
    | [] ↦ record rs {
      address = pair_up X.join_host_port [] [] rs.host rs.port;
      host = [];
      port = [];
    }
    | a ∷ more ↦ rs
  ]

  -- The fields with their final values; the keys stand in `keyed`.
  unfoldable pub filled :
      Config
      → Config
      → List Bytes
      → List Bytes
      → List Bytes
      → Bytes
      → Bytes
      → Bytes
      → Bytes
      → Bytes
      → Config
  filled rs keyed address host port timeout key_prefix client_name compression db = record keyed {
    address = address;
    host = host;
    port = port;
    timeout = timeout;
    master_name = plain rs.master_name;
    username = plain rs.username;
    password = plain rs.password;
    sentinel_password = plain rs.sentinel_password;
    key_prefix = key_prefix;
    client_name = client_name;
    tls_server_certs_pem = plain rs.tls_server_certs_pem;
    tls_server_certs_path = plain rs.tls_server_certs_path;
    compression = compression;
    db = db;
  }

  -- `finalizeConfiguration`, up to the client
  unfoldable pub finalize_configuration : Config → Result Config
  unfolding each final_address final_host final_port final_timeout final_encryption_key
      final_client_name final_compression final_db filled with_addresses finalize_decryption_keys
      normalize_key_prefix
  finalize_configuration rs = bind (each final_address rs.address) (λ address.
      bind (each final_host rs.host) (λ host. bind (each final_port rs.port) (λ port.
        bind (final_timeout rs.timeout) (λ timeout.
          bind
            (normalize_key_prefix X.trim_space X.quote
              (X.replace_all rs.key_prefix default_key_prefix))
            (λ key_prefix. bind (final_encryption_key rs.encryption_key) (λ encryption_key.
              bind
                (finalize_decryption_keys plain X.number
                  (record rs { encryption_key = encryption_key }))
                (λ keyed. bind (final_client_name rs.client_name) (λ client_name.
                  bind (final_compression rs.compression) (λ compression.
                    bind (final_db rs.db) (λ db. ok (
                      with_addresses (
                        filled rs keyed address host port timeout key_prefix client_name compression
                          db))))))))))))
