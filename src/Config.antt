-- ===== src/Config.antt =====
-- storage.go: the configuration that `RedisStorage` holds, its defaults, and what is stored.
use caddy_storage_redis.Prelude.{ℕ, Bytes, List, [], ◌∷◌, Bool, false, codes, ◌/◌}
use caddy_storage_redis.Go.Strconv.{ℤ, pos, negsuc}

-- `CompressionMode`
abbrev pub compression_none : Bytes
compression_none = []

abbrev pub compression_flate : Bytes
compression_flate = codes "flate"

abbrev pub compression_zlib : Bytes
compression_zlib = codes "zlib"

-- The flags that are stored with a value.
abbrev pub storage_compression_none : ℕ
storage_compression_none = 0

abbrev pub storage_compression_flate : ℕ
storage_compression_flate = 1

abbrev pub storage_compression_zlib : ℕ
storage_compression_zlib = 2

-- The fields of `RedisStorage` that the configuration sets.
pub record Config : Type 0 where
  pub client_type : Bytes
  pub address : List Bytes
  pub host : List Bytes
  pub port : List Bytes
  pub db : Bytes
  pub timeout : Bytes
  pub username : Bytes
  pub password : Bytes
  pub sentinel_password : Bytes
  pub master_name : Bytes
  pub key_prefix : Bytes
  pub encryption_key : Bytes
  pub decryption_keys : List Bytes
  pub client_name : Bytes
  pub compression : Bytes
  pub tls_enabled : Bool
  pub tls_insecure : Bool
  pub tls_server_certs_pem : Bytes
  pub tls_server_certs_path : Bytes
  pub route_by_latency : Bool
  pub route_randomly : Bool

-- The default values of storage.go.
abbrev pub default_client_type : Bytes
default_client_type = codes "simple"

abbrev pub default_host : Bytes
default_host = codes "127.0.0.1"

abbrev pub default_port : Bytes
default_port = codes "6379"

abbrev pub default_db : Bytes
default_db = codes "0"

abbrev pub default_key_prefix : Bytes
default_key_prefix = codes "caddy"

-- `New`
abbrev pub new : Config
new = record {
  client_type = default_client_type;
  address = [];
  host = default_host ∷ [];
  port = default_port ∷ [];
  db = default_db;
  timeout = [];
  username = [];
  password = [];
  sentinel_password = [];
  master_name = [];
  key_prefix = default_key_prefix;
  encryption_key = [];
  decryption_keys = [];
  client_name = [];
  compression = compression_none;
  tls_enabled = false;
  tls_insecure = false;
  tls_server_certs_pem = [];
  tls_server_certs_path = [];
  route_by_latency = false;
  route_randomly = false;
}

-- `StorageData`; the time is counted in nanoseconds since 1970.
pub record StorageData : Type 0 where
  pub value : Bytes
  pub modified : ℕ
  pub size : ℤ
  pub compression : ℤ
  pub encryption : ℤ

-- What a flag counts where it is greater than 0.
abbrev pub positive : ℤ → ℕ
positive (pos n) = n
positive (negsuc n) = 0

-- The seconds of a time, as `Time.Unix` gives them.
abbrev pub unix : ℕ → ℕ
unix ns = ns / 1000000000
