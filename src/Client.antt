-- ===== src/Client.antt =====
-- storage.go, `buildClient`, `initRedisClient`; caddyfile.go, `Cleanup`; and the state that the
-- program's functions run on: the world, and the process-wide count of reconnects.
pub mod Laws
pub mod Built
use caddy_storage_redis.Prelude.{
  ℕ, zero, ◌+◌, ◌*◌, ◌%◌, ◌^◌, Bytes, List, [], ◌∷◌, ◌++◌, Bool, true, false, not, ◌&&◌, ◌||◌,
  Option, none, some, if◌then◌else◌, equal, is_empty, codes, length, ltb,
}
use caddy_storage_redis.Go.Errors.{Error, new_error, errorf}
use caddy_storage_redis.Go.Strconv.{ℤ, pos, atoi, word}
use caddy_storage_redis.Exec.{
  Result, ok, err, out_of_fuel, Exec, pure, raise, annotate, ◌>>=◌, ◌>>◌, continue,
}
use caddy_storage_redis.Platform.{
  Platform, Reply, reply, fail, ClientKind, simple, cluster, failover, TlsConfig, UniversalOptions,
}
use caddy_storage_redis.Config.{Config}

pub record Machine (P : Platform) : Type 0 where
  pub world : P.World
  -- `reconnectCount`, an `atomic.Int64`, as its bit pattern
  pub reconnect_count : ℕ

abbrev pub result {ℓ} : {A : Type ℓ} → Reply A → Result A
result (reply a) = ok a
result (fail e) = err e

-- `time.Duration(seconds) * time.Second`
abbrev duration_of_seconds : ℤ → ℕ
duration_of_seconds t = (word t * 1000000000) % 2 ^ 64

module _ (P : Platform) where
  -- A call that leaves the program.
  unfoldable pub call : {A : Type 0} → (P.World → Reply A × P.World) → Exec (Machine P) A
  call f s = let (r, w) = f s.world in (result r, record s { world = w })

  abbrev pub close : P.Client → Machine P → Machine P
  close c s = record s { world = P.close c s.world }

  -- The options before TLS: addresses, credentials, timeouts and routing.
  unfoldable pub client_options : Config → UniversalOptions
  unfolding atoi
  client_options rs =
      let t = if is_empty rs.timeout then 0 else duration_of_seconds (atoi rs.timeout).0 in
      let routed = rs.route_by_latency || rs.route_randomly in
      record {
        addrs = rs.address;
        master_name = rs.master_name;
        username = rs.username;
        password = rs.password;
        sentinel_password = [];
        db = (atoi rs.db).0;
        client_name = rs.client_name;
        dial_timeout = t;
        read_timeout = t;
        write_timeout = t;
        route_by_latency = routed && rs.route_by_latency;
        route_randomly = routed && rs.route_randomly;
        tls_config = none;
      }

  -- The PEM text for the certificate pool, from the configuration or from the file.
  read_pem : Config → Exec (Machine P) Bytes
  read_pem rs =
      if is_empty rs.tls_server_certs_path
      then pure rs.tls_server_certs_pem
      else annotate
          (errorf (codes "Failed to load PEM server certs from file " ++ rs.tls_server_certs_path))
          (call (P.read_file rs.tls_server_certs_path))

  -- `clientOpts.TLSConfig`
  unfoldable pub tls_options : Config → Exec (Machine P) (Option TlsConfig)
  unfolding read_pem
  tls_options rs =
      let bare : TlsConfig = record { insecure_skip_verify = rs.tls_insecure; root_cas = none } in
      let has_pem = not (is_empty rs.tls_server_certs_pem) in
      let has_path = not (is_empty rs.tls_server_certs_path) in
      if not rs.tls_enabled
      then pure none
      else if has_pem && has_path
      then raise (new_error (codes "Cannot specify TlsServerCertsPEM alongside TlsServerCertsPath"))
      else if has_pem || has_path
      then (read_pem rs >>= λ pem.
          if P.append_certs_from_pem pem
          then pure (some (record bare { root_cas = some pem }))
          else raise (new_error (codes "Failed to load PEM server certs")))
      else pure (some bare)

  checked : P.Client → Result (Unit {0}) × Machine P → Result P.Client × Machine P
  checked c (ok _, s) = (ok c, s)
  checked c (err e, s) = (err e, close c s)
  checked c (out_of_fuel, s) = (out_of_fuel, close c s)

  -- The client is closed again if the check of the connection fails.
  close_unless : P.Client → Exec (Machine P) (Unit {0}) → Exec (Machine P) P.Client
  unfolding checked
  close_unless c check s = checked c (check s)

  -- Constructing a client and pinging the server, or every shard.
  unfoldable pub connect : ClientKind → UniversalOptions → Exec (Machine P) P.Client
  unfolding close_unless
  connect kind options s =
      let (c, w) = P.new_client kind options s.world in
      let t = record s { world = w } in
      elim kind [
        | simple ↦ close_unless c (call (P.ping c)) t
        | cluster ↦ close_unless c (call (P.ping_shards c)) t
        | failover ↦ close_unless c (call (P.ping_shards c)) t
      ]

  -- The choice of the client type.
  unfoldable pub dial : Config → UniversalOptions → Exec (Machine P) P.Client
  unfolding connect
  dial rs options =
      if equal rs.client_type (codes "failover")
      then (if is_empty options.master_name
          then raise
              (new_error (codes "'master_name' is required when using 'failover' client type"))
          else connect failover (record options { sentinel_password = rs.sentinel_password }))
      else if equal rs.client_type (codes "cluster") || ltb 1 (length options.addrs)
      then connect cluster options
      else connect simple options

  -- `buildClient`
  unfoldable pub build_client : Config → Exec (Machine P) P.Client
  unfolding client_options tls_options dial
  build_client rs =
      tls_options rs >>= λ tls. dial rs (record (client_options rs) { tls_config = tls })

  -- A storage that has been provisioned: `rs.client` is the client that was built then.
  pub record RedisStorage : Type 0 where
    pub client : P.Client
    pub config : Config
    pub open config use *

  -- `initRedisClient`, with a new map of locks beside the result
  unfoldable pub init_redis_client : Config → Exec (Machine P) RedisStorage
  unfolding build_client
  init_redis_client rs = build_client rs >>= λ c. pure (record { config = rs; client = c })

  -- `Cleanup`
  unfoldable pub cleanup : RedisStorage → Machine P → Machine P
  cleanup rs s = close rs.client s
