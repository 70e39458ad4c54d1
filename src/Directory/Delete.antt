-- ===== src/Directory/Delete.antt =====
-- `deleteDirectoryRecord`: its levels, and that it ends.
use caddy_storage_redis.Prelude.{
  ℕ, zero, suc, ◌<◌, Bytes, List, [], ◌∷◌, ◌++◌, Bool, true, if◌then◌else◌, ◌≡◌, ◌≢◌, refl, equal,
  arith, ltb, length, codes,
}
use caddy_storage_redis.Go.FilePath.{path_of, render}
use caddy_storage_redis.Go.FilePath.Segments.{IsPath, path_of-not_dot}
use caddy_storage_redis.Go.Errors.{Error, errorf}
use caddy_storage_redis.Exec.{
  Result, ok, out_of_fuel, Exec, pure, annotate, exhausted, ◌>>=◌, continue, rewrap,
}
use caddy_storage_redis.Exec.Laws.{Runs}
use caddy_storage_redis.Platform.{Platform, Reply, reply, fail}
use caddy_storage_redis.Client.{Machine, call, result}
use caddy_storage_redis.Directory.{delete_directory_record, to_set, exists_raw_key}
use caddy_storage_redis.Directory.Index.{entry, split_directory_key_lem}

module _ (P : Platform) (client : P.Client) where
  unchecked : Bytes → Error → Error
  unchecked d = errorf (codes "Unable to check existence for " ++ d)

  -- One level: ZREM, the check whether the set is left, and what follows.
  pub remove_then : Bytes → Bytes → Exec (Machine P) (Unit {0}) → Exec (Machine P) (Unit {0})
  unfolding unchecked
  remove_then d name parents =
      annotate (to_set "Unable to remove " name " from Set " d) (call P (P.zrem client d name))
      >>= λ _. annotate (unchecked d) (exists_raw_key P client d) >>= λ exists.
          if exists then pure tt else parents

  pub delete_zero :
      (key : Bytes) (base_is_dir : Bool)
      → delete_directory_record P zero client key base_is_dir ≡ exhausted
  unfolding delete_directory_record
  delete_zero key base_is_dir = refl

  pub delete_top :
      (fuel : ℕ) (b : Bytes) (base_is_dir : Bool)
      → IsPath (b ∷ [])
      → delete_directory_record P (suc fuel) client (path_of (b ∷ [])) base_is_dir ≡ pure tt
  unfolding delete_directory_record render equal pure
  delete_top fuel b base_is_dir h = rw (split_directory_key_lem b [] base_is_dir h)

  pub delete_step :
      (fuel : ℕ) (b a : Bytes) (rest : List Bytes) (base_is_dir : Bool)
      → IsPath (b ∷ a ∷ rest)
      → delete_directory_record P (suc fuel) client (path_of (b ∷ a ∷ rest)) base_is_dir
        ≡ remove_then
            (path_of (a ∷ rest))
            (entry base_is_dir b)
            (delete_directory_record P fuel client (path_of (a ∷ rest)) true)
  unfolding delete_directory_record remove_then render
  delete_step fuel b a rest base_is_dir h =
      rw (split_directory_key_lem b (a ∷ rest) base_is_dir h, path_of-not_dot a rest h.1)

  remove_then-ends :
      (d name : Bytes) (parents : Exec (Machine P) (Unit {0})) (s : Machine P)
      → ((t : Machine P) → (parents t).0 ≢ out_of_fuel)
      → (remove_then d name parents s).0 ≢ out_of_fuel
  unfolding remove_then exists_raw_key ◌>>=◌ call
  remove_then-ends d name parents s k =
      let w = (P.zrem client d name s.world).1 in
      let u = (P.exists client d w).1 in ground (arith, k (record s { world = u }))

  -- For a clean relative path (no segment is empty, '.' or '..') the recursion ends with as much fuel
  -- as the path has segments, whatever the server replies.
  pub delete_directory_record-ends :
      (fuel : ℕ) (b : Bytes) (rest : List Bytes) (base_is_dir : Bool) (s : Machine P)
      → IsPath (b ∷ rest)
      → length rest < fuel
      → (delete_directory_record P fuel client (path_of (b ∷ rest)) base_is_dir s).0 ≢ out_of_fuel
  delete_directory_record-ends zero b rest base_is_dir s h lt = absurd (omega arith)
  delete_directory_record-ends (suc fuel) b [] base_is_dir s h lt =
      rw (delete_top fuel b base_is_dir h) (unfold pure in cc)
  delete_directory_record-ends (suc fuel) b (a ∷ rest) base_is_dir s h lt =
      rw (delete_step fuel b a rest base_is_dir h) (
        remove_then-ends (path_of (a ∷ rest)) (entry base_is_dir b) _ s
          (λ t. delete_directory_record-ends fuel a rest true t h.1 (omega arith)))

  -- A level that succeeds: the two replies, and the run that follows.
  pub record Taken (d name : Bytes) (parents : Exec (Machine P) (Unit {0})) (s t : Machine P)
      : Type 0 where
    pub n : ℕ
    pub v : P.World
    pub removed : P.zrem client d name s.world ≡ (reply n, v)
    pub k : ℕ
    pub w : P.World
    pub asked : P.exists client d v ≡ (reply k, w)
    pub rest : (if ltb 0 k then pure tt else parents) (record s { world = w }) ≡ (ok tt, t)

  -- What follows the reply of EXISTS.
  abbrev after_exists :
      Bytes
      → Exec (Machine P) (Unit {0})
      → Machine P
      → Reply ℕ × P.World
      → Result (Unit {0}) × Machine P
  after_exists d parents s z =
      let (r, t) = continue (result z.0) (λ n. pure (ltb 0 n)) (record s { world = z.1 }) in
      continue (rewrap (unchecked d) r) (λ exists. if exists then pure tt else parents) t

  -- What follows the reply of ZREM.
  abbrev after_remove :
      Bytes
      → Bytes
      → Exec (Machine P) (Unit {0})
      → Machine P
      → Reply ℕ × P.World
      → Result (Unit {0}) × Machine P
  after_remove d name parents s z =
      continue (rewrap (to_set "Unable to remove " name " from Set " d) (result z.0))
        (λ _ t. after_exists d parents t (P.exists client d t.world)) (record s { world = z.1 })

  after_exists-Taken :
      (d name : Bytes) (parents : Exec (Machine P) (Unit {0})) (s t : Machine P) (n : ℕ)
      (v : P.World)
      → P.zrem client d name s.world ≡ (reply n, v)
      → (z : Reply ℕ × P.World) → P.exists client d v ≡ z
      → after_exists d parents (record s { world = v }) z ≡ (ok tt, t)
      → Taken d name parents s t
  unfolding pure
  after_exists-Taken d name parents s t n v e (reply k, w) f h = record {
    n = n;
    v = v;
    removed = e;
    k = k;
    w = w;
    asked = f;
    rest = h;
  }
  after_exists-Taken d name parents s t n v e (fail x, w) f h = cc

  after_remove-Taken :
      (d name : Bytes) (parents : Exec (Machine P) (Unit {0})) (s t : Machine P)
      (z : Reply ℕ × P.World)
      → P.zrem client d name s.world ≡ z
      → after_remove d name parents s z ≡ (ok tt, t)
      → Taken d name parents s t
  after_remove-Taken d name parents s t (reply n, v) e h =
      after_exists-Taken d name parents s t n v e (P.exists client d v) refl h
  after_remove-Taken d name parents s t (fail x, v) e h = cc

  pub remove_then-Taken :
      (d name : Bytes) (parents : Exec (Machine P) (Unit {0})) (s t : Machine P)
      → Runs (remove_then d name parents) s tt t
      → Taken d name parents s t
  unfolding remove_then exists_raw_key ◌>>=◌ call
  remove_then-Taken d name parents s t h =
      after_remove-Taken d name parents s t (P.zrem client d name s.world) refl h
