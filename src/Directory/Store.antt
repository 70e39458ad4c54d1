-- ===== src/Directory/Store.antt =====
-- `storeDirectoryRecord`: it ends, and after a success the name is listed all the way up.
use caddy_storage_redis.Prelude.{
  ℕ, zero, suc, ◌<◌, Bytes, List, [], ◌∷◌, Bool, true, ◌||◌, if◌then◌else◌, ◌≡◌, ◌≢◌, refl, equal,
  arith, ltb, length,
}
use caddy_storage_redis.Go.FilePath.{path_of, render}
use caddy_storage_redis.Go.FilePath.Segments.{IsPath, path_of-not_dot}
use caddy_storage_redis.Exec.{
  Result, ok, out_of_fuel, Exec, pure, annotate, exhausted, ◌>>=◌, continue, rewrap,
}
use caddy_storage_redis.Exec.Laws.{Runs}
use caddy_storage_redis.Platform.{Platform, Reply, reply, fail}
use caddy_storage_redis.Client.{Machine, call, result}
use caddy_storage_redis.Directory.{store_directory_record, to_set}
use caddy_storage_redis.Directory.Index.{entry, split_directory_key_lem}

module _ (P : Platform) (client : P.Client) (score : ℕ) (repair : Bool) where
  -- One level: the call of ZADD, and what follows it.
  pub add_then : Bytes → Bytes → Exec (Machine P) (Unit {0}) → Exec (Machine P) (Unit {0})
  add_then d name parents =
      annotate (to_set "Unable to add " name " to Set " d) (call P (P.zadd client d score name))
      >>= λ success. if ltb 0 success || repair then parents else pure tt

  add_then-ends :
      (d name : Bytes) (parents : Exec (Machine P) (Unit {0})) (s : Machine P)
      → ((t : Machine P) → (parents t).0 ≢ out_of_fuel)
      → (add_then d name parents s).0 ≢ out_of_fuel
  unfolding add_then ◌>>=◌ call
  add_then-ends d name parents s k =
      let (_, w) = P.zadd client d score name s.world in ground (arith, k (record s { world = w }))

  pub store_step :
      (fuel : ℕ) (b a : Bytes) (rest : List Bytes) (base_is_dir : Bool)
      → IsPath (b ∷ a ∷ rest)
      → store_directory_record P (suc fuel) client (path_of (b ∷ a ∷ rest)) score repair base_is_dir
        ≡ add_then
            (path_of (a ∷ rest))
            (entry base_is_dir b)
            (store_directory_record P fuel client (path_of (a ∷ rest)) score repair true)
  unfolding store_directory_record add_then render
  store_step fuel b a rest base_is_dir h =
      rw (split_directory_key_lem b (a ∷ rest) base_is_dir h, path_of-not_dot a rest h.1)

  pub store_zero :
      (key : Bytes) (base_is_dir : Bool)
      → store_directory_record P zero client key score repair base_is_dir ≡ exhausted
  unfolding store_directory_record
  store_zero key base_is_dir = refl

  pub store_top :
      (fuel : ℕ) (b : Bytes) (base_is_dir : Bool)
      → IsPath (b ∷ [])
      → store_directory_record P (suc fuel) client (path_of (b ∷ [])) score repair base_is_dir
        ≡ pure tt
  unfolding store_directory_record render equal pure
  store_top fuel b base_is_dir h = rw (split_directory_key_lem b [] base_is_dir h)

  -- For a clean relative path (no segment is empty, '.' or '..') the recursion ends with as much fuel
  -- as the path has segments, whatever the server replies.
  pub store_directory_record-ends :
      (fuel : ℕ) (b : Bytes) (rest : List Bytes) (base_is_dir : Bool) (s : Machine P)
      → IsPath (b ∷ rest)
      → length rest < fuel
      → (store_directory_record P fuel client (path_of (b ∷ rest)) score repair base_is_dir s).0
        ≢ out_of_fuel
  store_directory_record-ends zero b rest base_is_dir s h lt = absurd (omega arith)
  store_directory_record-ends (suc fuel) b [] base_is_dir s h lt =
      rw (store_top fuel b base_is_dir h) (unfold pure in cc)
  store_directory_record-ends (suc fuel) b (a ∷ rest) base_is_dir s h lt =
      rw (store_step fuel b a rest base_is_dir h) (
        add_then-ends (path_of (a ∷ rest)) (entry base_is_dir b) _ s
          (λ t. store_directory_record-ends fuel a rest true t h.1 (omega arith)))

  -- What follows the reply of ZADD.
  abbrev after_add :
      Bytes
      → Bytes
      → Exec (Machine P) (Unit {0})
      → Machine P
      → Reply ℕ × P.World
      → Result (Unit {0}) × Machine P
  after_add d name parents s z =
      continue (rewrap (to_set "Unable to add " name " to Set " d) (result z.0))
        (λ success. if ltb 0 success || repair then parents else pure tt) (record s { world = z.1 })

  -- A level that succeeds has added the name, and has gone on or stopped there.
  pub record Added (d name : Bytes) (parents : Exec (Machine P) (Unit {0})) (s t : Machine P)
      : Type 0 where
    pub n : ℕ
    pub w : P.World
    pub added : P.zadd client d score name s.world ≡ (reply n, w)
    pub rest :
        (if ltb 0 n || repair then parents else pure tt) (record s { world = w }) ≡ (ok tt, t)

  after_add-Added :
      (d name : Bytes) (parents : Exec (Machine P) (Unit {0})) (s t : Machine P)
      (z : Reply ℕ × P.World)
      → P.zadd client d score name s.world ≡ z
      → after_add d name parents s z ≡ (ok tt, t)
      → Added d name parents s t
  after_add-Added d name parents s t (reply n, w) e h = record { n = n; w = w; added = e; rest = h }
  after_add-Added d name parents s t (fail x, w) e h = cc

  pub add_then-Added :
      (d name : Bytes) (parents : Exec (Machine P) (Unit {0})) (s t : Machine P)
      → Runs (add_then d name parents) s tt t
      → Added d name parents s t
  unfolding add_then ◌>>=◌ call
  add_then-Added d name parents s t h =
      after_add-Added d name parents s t (P.zadd client d score name s.world) refl h
