-- ===== src/Client/Laws.antt =====
-- Building a client writes nothing to the server.
use caddy_storage_redis.Prelude.{Bool, true, false, if◌then◌else◌, arith}
use caddy_storage_redis.Exec.{
  Result, ok, err, out_of_fuel, Exec, pure, raise, annotate, continue, ◌>>=◌,
}
use caddy_storage_redis.Go.Errors.{Error}
use caddy_storage_redis.Platform.{
  Platform, ClientKind, UniversalOptions, simple, cluster, failover, Reply,
}
use caddy_storage_redis.Platform.Redis.{
  Contents, IsLawful, Unchanged, Unchanged-refl, Unchanged-trans,
}
use caddy_storage_redis.Config.{Config}
use caddy_storage_redis.Client.{
  Machine, build_client, connect, dial, tls_options, checked, read_pem, close_unless, call,
}

module _ (P : Platform) (V : Contents P) where
  -- The action leaves what the server holds as it was.
  pub record Keeps {A : Type 0} (m : Exec (Machine P) A) : Type 0 where
    pub at : (s : Machine P) → Unchanged P V s.world (m s).1.world

module _ {P : Platform} {V : Contents P} {A : Type 0} where
  pub Keeps-pure : (a : A) → Keeps P V (pure a)
  unfolding pure
  Keeps-pure a = record { at = λ s. Unchanged-refl P V s.world }

  pub Keeps-raise : (e : Error) → Keeps P V (raise {A = A} e)
  unfolding raise
  Keeps-raise e = record { at = λ s. Unchanged-refl P V s.world }

  pub Keeps-annotate :
      (f : Error → Error) (m : Exec (Machine P) A) → Keeps P V m → Keeps P V (annotate f m)
  unfolding annotate
  Keeps-annotate f m k = record { at = λ s. k.at s }

  pub Keeps-if :
      (b : Bool) (m n : Exec (Machine P) A)
      → Keeps P V m
      → Keeps P V n
      → Keeps P V (if b then m else n)
  Keeps-if true m n k l = k
  Keeps-if false m n k l = l

module _ {P : Platform} {V : Contents P} {A B : Type 0} where
  Keeps-continue :
      (r : Result A) (f : A → Exec (Machine P) B)
      → ((a : A) → Keeps P V (f a))
      → Keeps P V (continue r f)
  Keeps-continue (ok a) f k = k a
  Keeps-continue (err e) f k = record { at = λ s. Unchanged-refl P V s.world }
  Keeps-continue out_of_fuel f k = record { at = λ s. Unchanged-refl P V s.world }

  pub Keeps-bind :
      (m : Exec (Machine P) A) (f : A → Exec (Machine P) B)
      → Keeps P V m
      → ((a : A) → Keeps P V (f a))
      → Keeps P V (m >>= f)
  unfolding ◌>>=◌
  Keeps-bind m f km kf = record {
    at = λ s. Unchanged-trans P V (km.at s) ((Keeps-continue (m s).0 f kf).at (m s).1);
  }

pub ruleset keeps_rules = (Keeps-pure, Keeps-raise, Keeps-annotate, Keeps-if, Keeps-bind)

module _ (P : Platform) (V : Contents P) (L : IsLawful P V) where
  pub Keeps-call :
      {A : Type 0} (f : P.World → Reply A × P.World)
      → ((w : P.World) → Unchanged P V w (f w).1)
      → Keeps P V (call P f)
  unfolding call
  Keeps-call f k = record { at = λ s. k s.world }

  checked-Unchanged :
      (c : P.Client) (r : Result (Unit {0})) (s : Machine P)
      → Unchanged P V s.world (checked P c (r, s)).1.world
  unfolding checked
  checked-Unchanged c (ok _) s = Unchanged-refl P V s.world
  checked-Unchanged c (err e) s = L.close_keeps c s.world
  checked-Unchanged c out_of_fuel s = L.close_keeps c s.world

  -- The check of a connection, whichever command it sends.
  close_unless-Keeps :
      (c : P.Client) (m : Exec (Machine P) (Unit {0}))
      → Keeps P V m
      → Keeps P V (close_unless P c m)
  unfolding close_unless
  close_unless-Keeps c m k = record {
    at = λ s. Unchanged-trans P V (k.at s) (checked-Unchanged c (m s).0 (m s).1);
  }

  connect-Keeps : (kind : ClientKind) (o : UniversalOptions) → Keeps P V (connect P kind o)
  unfolding connect
  connect-Keeps simple o = record {
    at = λ s.
        let (c, w) = P.new_client simple o s.world in
        Unchanged-trans P V (L.new_client_keeps simple o s.world) (
          (close_unless-Keeps c _ (Keeps-call (P.ping c) (L.ping_keeps c))).at
            (record s { world = w }));
  }
  connect-Keeps cluster o = record {
    at = λ s.
        let (c, w) = P.new_client cluster o s.world in
        Unchanged-trans P V (L.new_client_keeps cluster o s.world) (
          (close_unless-Keeps c _ (Keeps-call (P.ping_shards c) (L.ping_shards_keeps c))).at
            (record s { world = w }));
  }
  connect-Keeps failover o = record {
    at = λ s.
        let (c, w) = P.new_client failover o s.world in
        Unchanged-trans P V (L.new_client_keeps failover o s.world) (
          (close_unless-Keeps c _ (Keeps-call (P.ping_shards c) (L.ping_shards_keeps c))).at
            (record s { world = w }));
  }

  dial-Keeps : (rs : Config) (o : UniversalOptions) → Keeps P V (dial P rs o)
  unfolding dial
  dial-Keeps rs o = search (keeps_rules, connect-Keeps)

  read_pem-Keeps : (rs : Config) → Keeps P V (read_pem P rs)
  unfolding read_pem pure annotate call
  read_pem-Keeps rs = record {
    at = λ s.
        ground (arith, Unchanged-refl P V s.world, L.file_keeps rs.tls_server_certs_path s.world);
  }

  tls_options-Keeps : (rs : Config) → Keeps P V (tls_options P rs)
  unfolding tls_options ◌>>=◌
  tls_options-Keeps rs = record {
    at = λ s. ground (arith, Unchanged-refl P V s.world, (read_pem-Keeps rs).at s);
  }

  -- Building a client, successfully or not, leaves what the server holds as it was.
  pub build_client-Keeps : (rs : Config) → Keeps P V (build_client P rs)
  unfolding build_client
  build_client-Keeps rs = Keeps-bind _ _ (tls_options-Keeps rs) (λ tls. dial-Keeps rs _)
