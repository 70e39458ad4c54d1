-- ===== src/Directory.antt =====
-- storage.go: keys and the directory index that is kept in sorted sets.
pub mod Index
pub mod Store
pub mod Stored
pub mod Delete
pub mod Removed
pub mod Pruned
use caddy_storage_redis.Prelude.{
  ℕ, zero, suc, ◌+◌, Bytes, List, [], ◌∷◌, ◌++◌, Bool, true, false, not, ◌&&◌, ◌||◌, Option, none,
  some, if◌then◌else◌, equal, codes, length, ltb, String,
}
use caddy_storage_redis.Go.Strings.{slash, trim_prefix}
use caddy_storage_redis.Go.FilePath.{join, dir, base, dot}
use caddy_storage_redis.Go.Errors.{Error, errorf}
use caddy_storage_redis.Exec.{Exec, pure, annotate, exhausted, ◌>>=◌, ◌>>◌}
use caddy_storage_redis.Platform.{Platform}
use caddy_storage_redis.Config.{Config}
use caddy_storage_redis.Client.{Machine, call}

-- `trimKey`
unfoldable pub trim_key : Config → Bytes → Bytes
trim_key rs key = trim_prefix (trim_prefix key rs.key_prefix) (slash ∷ [])

-- `prefixKey`
unfoldable pub prefix_key : Config → Bytes → Bytes
prefix_key rs key = join (rs.key_prefix ∷ key ∷ [])

-- `prefixLock`
unfoldable pub prefix_lock : Config → Bytes → Bytes
prefix_lock rs key = prefix_key rs (join (codes "locks" ∷ key ∷ []))

-- `splitDirectoryKey`; a name that stands for a directory ends in a slash
unfoldable pub split_directory_key : Bytes → Bool → Bytes × Bytes
split_directory_key key base_is_dir =
    (dir key, if base_is_dir then base key ++ (slash ∷ []) else base key)

abbrev to_set : String → Bytes → String → Bytes → Error → Error
to_set verb name preposition set = errorf (codes verb ++ (name ++ (codes preposition ++ set)))

-- The fuel for the recursion over the directories of a key, which are fewer than its bytes.
abbrev pub depth_fuel : Bytes → ℕ
depth_fuel key = length key + 2

module _ (P : Platform) where
  -- `storeDirectoryRecord`; the score is the time in seconds
  unfoldable pub store_directory_record :
      ℕ → P.Client → Bytes → ℕ → Bool → Bool → Exec (Machine P) (Unit {0})
  store_directory_record zero client key score repair base_is_dir = exhausted
  store_directory_record (suc fuel) client key score repair base_is_dir =
      let (d, b) = split_directory_key key base_is_dir in
      let parents = store_directory_record fuel client d score repair true in
      if equal d dot
      then pure tt
      else annotate (to_set "Unable to add " b " to Set " d) (call P (P.zadd client d score b))
        >>= λ success. if ltb 0 success || repair then parents else pure tt

  -- `existsRawKey`
  unfoldable pub exists_raw_key : P.Client → Bytes → Exec (Machine P) Bool
  exists_raw_key client redis_key = call P (P.exists client redis_key) >>= λ n. pure (ltb 0 n)

  -- `existsKey`
  unfoldable pub exists_key : Config → P.Client → Bytes → Exec (Machine P) Bool
  unfolding exists_raw_key
  exists_key rs client key =
      annotate (errorf (codes "Unable to check existence for " ++ key))
        (exists_raw_key client (prefix_key rs key))

  -- `deleteDirectoryRecord`
  unfoldable pub delete_directory_record : ℕ → P.Client → Bytes → Bool → Exec (Machine P) (Unit {0})
  unfolding exists_raw_key
  delete_directory_record zero client key base_is_dir = exhausted
  delete_directory_record (suc fuel) client key base_is_dir =
      let (d, b) = split_directory_key key base_is_dir in
      let parents = delete_directory_record fuel client d true in
      if equal d dot
      then pure tt
      else annotate (to_set "Unable to remove " b " from Set " d) (call P (P.zrem client d b))
        >>= λ _.
            annotate (errorf (codes "Unable to check existence for " ++ d))
              (exists_raw_key client d)
            >>= λ exists. if exists then pure tt else parents
