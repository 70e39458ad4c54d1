-- ===== src/Client/Built.antt =====
-- storage.go, `buildClient`: every way in which it ends.
use caddy_storage_redis.Prelude.{◌≤◌, ◌<◌, Bytes, Option, ◌≡◌, ◌≢◌, codes, length}
use caddy_storage_redis.Go.Errors.{Error}
use caddy_storage_redis.Go.Strconv.{atoi}
use caddy_storage_redis.Exec.{Result, ok, err}
use caddy_storage_redis.Platform.{
  Platform, Reply, reply, fail, ClientKind, simple, cluster, failover, TlsConfig, UniversalOptions,
}
use caddy_storage_redis.Config.{Config}
use caddy_storage_redis.Client.{Machine, tls_options}

-- The client type for a configuration.
pub data IsChosen (rs : Config) : ClientKind → Type 0 where
  sentinels : rs.client_type ≡ codes "failover" → rs.master_name ≢ codes "" → IsChosen rs failover
  named : rs.client_type ≡ codes "cluster" → IsChosen rs cluster
  several : rs.client_type ≢ codes "failover" → 1 < length rs.address → IsChosen rs cluster
  one :
      rs.client_type ≢ codes "failover"
      → rs.client_type ≢ codes "cluster"
      → length rs.address ≤ 1
      → IsChosen rs simple

-- The sentinels have a password of their own, which no other client is given.
abbrev pub sentinel_password_for : Config → ClientKind → Bytes
sentinel_password_for rs simple = codes ""
sentinel_password_for rs cluster = codes ""
sentinel_password_for rs failover = rs.sentinel_password

-- The options that a client is constructed with.
pub record IsConfigured (rs : Config) (tls : Option TlsConfig) (kind : ClientKind)
    (o : UniversalOptions) : Type 0 where
  pub addrs : o.addrs ≡ rs.address
  pub master_name : o.master_name ≡ rs.master_name
  pub username : o.username ≡ rs.username
  pub password : o.password ≡ rs.password
  pub sentinel_password : o.sentinel_password ≡ sentinel_password_for rs kind
  pub db : o.db ≡ (atoi rs.db).0
  pub client_name : o.client_name ≡ rs.client_name
  pub dial_timeout : rs.timeout ≡ codes "" → o.dial_timeout ≡ 0
  pub read_timeout : o.read_timeout ≡ o.dial_timeout
  pub write_timeout : o.write_timeout ≡ o.dial_timeout
  pub route_by_latency : o.route_by_latency ≡ rs.route_by_latency
  pub route_randomly : o.route_randomly ≡ rs.route_randomly
  pub tls_config : o.tls_config ≡ tls

module _ (P : Platform) where
  -- How a new client is checked: a single node is pinged, and all shards otherwise.
  abbrev pub answer : ClientKind → P.Client → P.World → Reply (Unit {0}) × P.World
  answer simple c = P.ping c
  answer cluster c = P.ping_shards c
  answer failover c = P.ping_shards c

  -- The ways in which `buildClient` ends.
  pub data Built (rs : Config) (s : Machine P) : Result P.Client × Machine P → Type 0 where
    without_tls :
        (e : Error) (u : Machine P) → tls_options P rs s ≡ (err e, u) → Built rs s (err e, u)
    without_master :
        (e : Error) (tls : Option TlsConfig) (u : Machine P)
        → tls_options P rs s ≡ (ok tls, u)
        → rs.client_type ≡ codes "failover"
        → rs.master_name ≡ codes ""
        → Built rs s (err e, u)
    unanswered :
        (e : Error) (tls : Option TlsConfig) (u : Machine P) (kind : ClientKind)
        (o : UniversalOptions) (c : P.Client) (v w : P.World)
        → tls_options P rs s ≡ (ok tls, u)
        → IsChosen rs kind
        → IsConfigured rs tls kind o
        → P.new_client kind o u.world ≡ (c, v)
        → answer kind c v ≡ (fail e, w)
        → Built rs s (err e, record u { world = P.close c w })
    answered :
        (tls : Option TlsConfig) (u : Machine P) (kind : ClientKind) (o : UniversalOptions)
        (c : P.Client) (v w : P.World)
        → tls_options P rs s ≡ (ok tls, u)
        → IsChosen rs kind
        → IsConfigured rs tls kind o
        → P.new_client kind o u.world ≡ (c, v)
        → answer kind c v ≡ (reply tt, w)
        → Built rs s (ok c, record u { world = w })
