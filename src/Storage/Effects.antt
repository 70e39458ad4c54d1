-- ===== src/Storage/Effects.antt =====
-- What `Store` and `Delete` leave on the server, with and without a retry.
use mathlib.Core.Path.{subst}
use caddy_storage_redis.Prelude.{
  ℕ, Bytes, List, ◌∷◌, ◌++◌, false, none, some, ◌≡◌, ap, ◌∙◌, arith, equal, codes,
}
use caddy_storage_redis.Go.FilePath.{path_of}
use caddy_storage_redis.Go.FilePath.Segments.{IsPath}
use caddy_storage_redis.Go.Errors.{errorf}
use caddy_storage_redis.Exec.{ok, pure, annotate, ◌>>◌}
use caddy_storage_redis.Exec.Laws.{Runs, >>=-ok, annotate-ok}
use caddy_storage_redis.Platform.{Platform, Reply, reply, fail}
use caddy_storage_redis.Platform.Redis.{Contents, IsLawful, Empty}
use caddy_storage_redis.Config.{Config}
use caddy_storage_redis.Client.{Machine, call, result}
use caddy_storage_redis.Directory.{
  prefix_key, store_directory_record, delete_directory_record, depth_fuel,
}
use caddy_storage_redis.Directory.Index.{Indexed}
use caddy_storage_redis.Directory.Stored.{store_directory_record-Stored}
use caddy_storage_redis.Directory.Removed.{delete_directory_record-Removed}
use caddy_storage_redis.Storage.{put_record, delete_record, for_key}
use caddy_storage_redis.Storage.Sound.{IsSound}
use caddy_storage_redis.Storage.Put.{put-IsSound, put-value, put-indexed}
use caddy_storage_redis.Storage.Drop.{drop-IsSound, drop-value, drop-unlisted}

module _ (P : Platform) where
  -- A call that succeeded is a reply.
  called :
      {A : Type 0} (f : P.World → Reply A × P.World) (s t : Machine P) (a : A)
      → Runs (call P f) s a t
      → f s.world ≡ (reply a, t.world)
  unfolding call
  called f s t a h = replied (f s.world) (ap (λ p. p.0) h) ∙ λ i. (reply a, (h i).1.world)
    where
      replied :
          {A : Type 0} {a : A} (r : Reply A × P.World) → result r.0 ≡ ok a → r ≡ (reply a, r.1)
      replied (reply x, w) e = ground arith
      replied (fail x, w) e = cc

module _ (P : Platform) (V : Contents P) (b : Bytes) (rest : List Bytes) where
  -- The value stands under the key, the key is listed up to the top, the index is sound, and the
  -- other keys hold what they held.
  pub record HasStored (value : Bytes) (w u : P.World) : Type 0 where
    pub sound : IsSound P V u
    pub value_at : V.string_at u (path_of (b ∷ rest)) ≡ some value
    pub indexed : Indexed P V u b rest
    pub others :
        (j : Bytes) → equal (path_of (b ∷ rest)) j ≡ false → V.string_at u j ≡ V.string_at w j

  -- Nothing stands under the key, its name is in no set above it, the index is sound, and the
  -- other keys hold what they held.
  pub record HasDropped (w u : P.World) : Type 0 where
    pub sound : IsSound P V u
    pub missing : V.string_at u (path_of (b ∷ rest)) ≡ none
    pub unlisted :
        (a : Bytes) (ys : List Bytes) → rest ≡ a ∷ ys → V.member u (path_of (a ∷ ys)) b ≡ false
    pub others :
        (j : Bytes) → equal (path_of (b ∷ rest)) j ≡ false → V.string_at u j ≡ V.string_at w j

module _ (P : Platform) (V : Contents P) (L : IsLawful P V) (rs : Config) (key b : Bytes)
    (rest : List Bytes) (h : IsPath (b ∷ rest))
    (place : prefix_key rs key ≡ path_of (b ∷ rest)) where
  pub put_record-HasStored :
      (client : P.Client) (value : Bytes) (score : ℕ) (s t : Machine P)
      → IsSound P V s.world
      → Empty P V s.world (path_of (b ∷ rest))
      → Runs (put_record P rs key value score client) s tt t
      → HasStored P V b rest value s.world t.world
  unfolding put_record
  put_record-HasStored client value score s t sound free r =
      let k = path_of (b ∷ rest) in
      let (_, m, recorded, written) =
        >>=-ok
          (annotate (errorf (codes "Unable to create directory for key " ++ key))
            (store_directory_record P (depth_fuel k) client k score false false))
          (λ _. annotate (for_key "Unable to set value" key) (call P (P.set client k value))) s
          (rw place at r) in
      let (st, l) =
        store_directory_record-Stored P V L client score false (depth_fuel k) b rest false s m h
          sound.linked (annotate-ok _ _ s recorded) in
      let (strings, members) =
        L.set_done client k value m.world t.world
          (called P (P.set client k value) m t tt (annotate-ok _ _ m written)) in
      record {
        sound =
            put-IsSound P V b rest h s.world m.world t.world value sound free st l strings members;
        value_at =
            put-value P V b rest h s.world m.world t.world value sound free st l strings members;
        indexed =
            put-indexed P V b rest h s.world m.world t.world value sound free st l strings members;
        others = λ j other. ground (arith, strings j, st.strings j);
      }

  pub delete_record-HasDropped :
      (client : P.Client) (s t : Machine P)
      → IsSound P V s.world
      → Empty P V s.world (path_of (b ∷ rest))
      → Runs (delete_record P rs key client) s tt t
      → HasDropped P V b rest s.world t.world
  unfolding delete_record pure
  delete_record-HasDropped client s t sound free r =
      let k = path_of (b ∷ rest) in
      let f = errorf (codes "Unable to delete directory for key " ++ key) in
      let g = errorf (codes "Unable to delete key " ++ key) in
      let (n, z, both, ended) =
        >>=-ok
          (annotate f (delete_directory_record P (depth_fuel k) client k false)
            >> annotate g (call P (P.del client k)))
          (λ _. pure tt) s (rw place at r) in
      let (_, m, recorded, written) =
        >>=-ok (annotate f (delete_directory_record P (depth_fuel k) client k false))
          (λ _. annotate g (call P (P.del client k))) s both in
      let q =
        delete_directory_record-Removed P V L client (depth_fuel k) b rest false s m h
          (annotate-ok f _ s recorded) in
      let (strings, members) = L.del_done client k n m.world t.world (
        called P (P.del client k) m t n (
          annotate-ok g _ m (
            subst (Runs (annotate g (call P (P.del client k))) m n) (ap (λ p. p.1) ended)
              written))) in
      record {
        sound = drop-IsSound P V b rest h s.world m.world t.world sound free q strings members;
        missing = drop-value P V b rest h s.world m.world t.world sound free q strings members;
        unlisted = drop-unlisted P V b rest h s.world m.world t.world sound free q strings members;
        others = λ j other. ground (arith, strings j, q.strings j);
      }
