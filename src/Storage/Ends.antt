-- ===== src/Storage/Ends.antt =====
-- The fuel that `Store` and `Delete` give to the recursion over directories is enough.
use caddy_storage_redis.Prelude.{ℕ, ◌<◌, Bytes, List, ◌∷◌, false, ◌≡◌, ◌≢◌, refl, arith, length}
use caddy_storage_redis.Go.FilePath.{path_of}
use caddy_storage_redis.Go.FilePath.Segments.{IsPath, length-path_of}
use caddy_storage_redis.Go.Errors.{Error}
use caddy_storage_redis.Exec.{
  Result, ok, err, out_of_fuel, Exec, pure, annotate, continue, rewrap, ◌>>=◌,
}
use caddy_storage_redis.Platform.{Platform, Reply, reply, fail}
use caddy_storage_redis.Config.{Config}
use caddy_storage_redis.Client.{Machine, call, result}
use caddy_storage_redis.Directory.{prefix_key, depth_fuel}
use caddy_storage_redis.Directory.Store.{store_directory_record-ends}
use caddy_storage_redis.Directory.Delete.{delete_directory_record-ends}
use caddy_storage_redis.Storage.{put_record, delete_record}

module _ {S A B : Type 0} where
  continue-ends :
      (r : Result A) (f : A → Exec S B) (s : S)
      → r ≢ out_of_fuel
      → ((a : A) (t : S) → (f a t).0 ≢ out_of_fuel)
      → (continue r f s).0 ≢ out_of_fuel
  continue-ends (ok a) f s h k = k a s
  continue-ends (err e) f s h k = λ x. cc
  continue-ends out_of_fuel f s h k = absurd (h refl)

  bind-ends :
      (m : Exec S A) (f : A → Exec S B) (s : S)
      → (m s).0 ≢ out_of_fuel
      → ((a : A) (t : S) → (f a t).0 ≢ out_of_fuel)
      → ((m >>= f) s).0 ≢ out_of_fuel
  unfolding ◌>>=◌
  bind-ends m f s h k = continue-ends (m s).0 f (m s).1 h k

rewrap-ends :
    {A : Type 0} (f : Error → Error) (r : Result A) → r ≢ out_of_fuel → rewrap f r ≢ out_of_fuel
rewrap-ends f (ok a) h = λ x. cc
rewrap-ends f (err e) h = λ x. cc
rewrap-ends f out_of_fuel h = absurd (h refl)

annotate-ends :
    {S A : Type 0} (f : Error → Error) (m : Exec S A) (s : S)
    → (m s).0 ≢ out_of_fuel
    → (annotate f m s).0 ≢ out_of_fuel
unfolding annotate
annotate-ends f m s h = rewrap-ends f (m s).0 h

result-ends : {A : Type 0} (r : Reply A) → result r ≢ out_of_fuel
result-ends (reply a) = λ x. cc
result-ends (fail e) = λ x. cc

pure-ends : {S A : Type 0} (a : A) (s : S) → (pure a s).0 ≢ out_of_fuel
unfolding pure
pure-ends a s = λ x. cc

call-ends :
    (P : Platform) {A : Type 0} (f : P.World → Reply A × P.World) (s : Machine P)
    → (call P f s).0 ≢ out_of_fuel
unfolding call
call-ends P f s = result-ends (f s.world).0

module _ (P : Platform) (rs : Config) (key b : Bytes) (rest : List Bytes) (h : IsPath (b ∷ rest))
    (place : prefix_key rs key ≡ path_of (b ∷ rest)) (client : P.Client) (s : Machine P) where
  depth_fuel-enough : length rest < depth_fuel (path_of (b ∷ rest))
  depth_fuel-enough = omega (arith, length-path_of (b ∷ rest) h)

  -- What `Store` does with a client ends, whatever the server replies.
  pub put_record-ends :
      (value : Bytes) (score : ℕ) → (put_record P rs key value score client s).0 ≢ out_of_fuel
  unfolding put_record
  put_record-ends value score = rw place (
      bind-ends _ _ s
        (annotate-ends _ _ s
          (store_directory_record-ends P client score false _ b rest false s h depth_fuel-enough))
        (λ a t. annotate-ends _ _ t (call-ends P (P.set client (path_of (b ∷ rest)) value) t)))

  -- What `Delete` does with a client ends, whatever the server replies.
  pub delete_record-ends : (delete_record P rs key client s).0 ≢ out_of_fuel
  unfolding delete_record
  delete_record-ends = rw place (
      bind-ends _ _ s
        (bind-ends _ _ s
          (annotate-ends _ _ s
            (delete_directory_record-ends P client _ b rest false s h depth_fuel-enough))
          (λ a t. annotate-ends _ _ t (call-ends P (P.del client (path_of (b ∷ rest))) t)))
        (λ a t. pure-ends tt t))
