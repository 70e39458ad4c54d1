-- ===== src/Platform.antt =====
-- What the program calls outside its own source: the Redis client and server, redislock, the
-- clock, the random source, files. They act on a `World`; the program sees their replies.
pub mod Redis
use caddy_storage_redis.Prelude.{ℕ, Bytes, List, Bool, Option}
use caddy_storage_redis.Go.Errors.{Error}
use caddy_storage_redis.Go.Strconv.{ℤ}

pub data Reply {ℓ} (A : Type ℓ) : Type ℓ where
  reply : A → Reply A
  fail : Error → Reply A

-- The client types of go-redis that the program constructs.
pub data ClientKind : Type 0 where
  simple cluster failover : ClientKind

-- `tls.Config`; the certificate pool is the PEM text that it was filled from.
pub record TlsConfig : Type 0 where
  pub insecure_skip_verify : Bool
  pub root_cas : Option Bytes

-- The fields of `redis.UniversalOptions` that the program sets. A timeout is a `time.Duration`, a
-- 64-bit count of nanoseconds, and 0 where it is not set.
pub record UniversalOptions : Type 0 where
  pub addrs : List Bytes
  pub master_name : Bytes
  pub username : Bytes
  pub password : Bytes
  pub sentinel_password : Bytes
  pub db : ℤ
  pub client_name : Bytes
  pub dial_timeout : ℕ
  pub read_timeout : ℕ
  pub write_timeout : ℕ
  pub route_by_latency : Bool
  pub route_randomly : Bool
  pub tls_config : Option TlsConfig

pub record Platform : Type 1 where
  pub World : Type 0
  pub Client : Type 0
  -- go-redis: constructing, checking and closing a client
  pub new_client : ClientKind → UniversalOptions → World → Client × World
  pub ping : Client → World → Reply (Unit {0}) × World
  pub ping_shards : Client → World → Reply (Unit {0}) × World
  pub close : Client → World → World
  -- go-redis: the commands
  -- the slice that `StringCmd.Bytes` returns, which may be nil, and its error
  pub get : Client → Bytes → World → (Option Bytes × Option Error) × World
  pub set : Client → Bytes → Bytes → World → Reply (Unit {0}) × World
  pub del : Client → Bytes → World → Reply ℕ × World
  pub exists : Client → Bytes → World → Reply ℕ × World
  pub zadd : Client → Bytes → ℕ → Bytes → World → Reply ℕ × World
  pub zrem : Client → Bytes → Bytes → World → Reply ℕ × World
  pub zrange : Client → Bytes → World → Reply (List Bytes) × World
  pub scan : Client → ℕ → Bytes → ℕ → World → Reply (List Bytes × ℕ) × World
  pub type_of : Client → Bytes → World → Bytes × World
  -- the operating system
  pub now : World → ℕ × World
  pub read_random : ℕ → World → Reply Bytes × World
  pub read_file : Bytes → World → Reply Bytes × World
  pub append_certs_from_pem : Bytes → Bool
