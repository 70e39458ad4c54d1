-- ===== src/Listing.antt =====
-- storage.go: `List`, which walks the index, and `Repair`, which rebuilds it.
pub mod Flat
use caddy_storage_redis.Prelude.{
  ℕ, zero, suc, Bytes, List, [], ◌∷◌, ◌++◌, Bool, true, false, not, ◌&&◌, Option, none, some,
  if◌then◌else◌, equal, is_empty, codes, ◌==◌,
}
use caddy_storage_redis.Go.Strings.{slash, trim_suffix}
use caddy_storage_redis.Go.FilePath.{join}
use caddy_storage_redis.Go.Errors.{Error, new_error, errorf}
use caddy_storage_redis.Exec.{
  Result, ok, err, out_of_fuel, Exec, pure, exhausted, annotate, ◌>>=◌, ◌>>◌,
}
use caddy_storage_redis.Platform.{Platform, Reply, reply, fail}
use caddy_storage_redis.Config.{StorageData, unix}
use caddy_storage_redis.Client.{Machine, RedisStorage, call}
use caddy_storage_redis.Reconnect.{with_reconnect_on_closed}
use caddy_storage_redis.Directory.{
  prefix_key, trim_key, store_directory_record, exists_key, depth_fuel,
}
use caddy_storage_redis.Storage.{Coding, load_storage_data}

-- The keys found so far, and the error that ended the walk.
abbrev pub Found : Type 0
Found = List Bytes × Option Error

abbrev caught {ℓ} : {A : Type ℓ} → Result A → Result (Reply A)
caught (ok a) = ok (reply a)
caught (err e) = ok (fail e)
caught out_of_fuel = out_of_fuel

-- An action whose error is a value for what follows.
abbrev pub catch {ℓ} : {S A : Type ℓ} → Exec S A → Exec S (Reply A)
catch m s = let (r, s') = m s in (caught r, s')

-- The path of a child, from the directory and the name in its set.
abbrev pub child_path : Bytes → Bytes → Bytes
child_path dir k = join (dir ∷ trim_suffix slash k ∷ [])

abbrev pub is_folder : Bytes → Bool
is_folder k = not (equal k (trim_suffix slash k))

module _ (P : Platform) where
  -- The loop of `List` over the children, with the call of `List` for a child.
  unfoldable pub list_loop :
      (Bytes → Exec (Machine P) Found)
      → Bytes
      → Bool
      → List Bytes
      → List Bytes
      → Exec (Machine P) Found
  list_loop walk dir recursive key_list [] = pure (key_list, none)
  list_loop walk dir recursive key_list (k ∷ keys) =
      let path = child_path dir k in
      let rest = λ (found : List Bytes). list_loop walk dir recursive (key_list ++ found) keys in
      if recursive && is_folder k
      then (walk path >>= λ below. elim below.1 [
        | some e ↦ pure (key_list, some e)
        | none ↦ rest below.0
      ])
      else rest (path ∷ [])

  -- The children of a directory.
  unfoldable pub range_of : Bytes → P.Client → Exec (Machine P) (List Bytes)
  range_of curr_key client =
      annotate (errorf (codes "Unable to get range on sorted set '" ++ (curr_key ++ codes "'")))
        (call P (P.zrange client curr_key))

  -- `List`; the fuel bounds the depth of the directories
  unfoldable pub list : ℕ → RedisStorage P → Bytes → Bool → Exec (Machine P) Found
  unfolding list_loop range_of
  list zero rs dir recursive = exhausted
  list (suc fuel) rs dir recursive =
      let walk = λ (path : Bytes). list fuel rs path recursive in
      catch (with_reconnect_on_closed P (range_of (prefix_key rs.config dir)) rs) >>= λ keys.
      elim keys [ fail e ↦ pure ([], some e) | reply ks ↦ list_loop walk dir recursive [] ks ]

module _ (P : Platform) (K : Coding) where
  -- The body of the inner scan loop of `Repair`: the record of one string key.
  unfoldable pub repair_key : RedisStorage P → Bytes → Exec (Machine P) (Unit {0})
  repair_key rs key s =
      let (kind, w) = P.type_of rs.client key s.world in
      let trimmed = trim_key rs.config key in
      let loaded = catch (load_storage_data P K rs.config trimmed rs.client) in
      let indexed = λ (sd : StorageData).
        annotate
          (λ _.
            new_error
              (codes "Unable to repair directory index for key '" ++ (trimmed ++ codes "'")))
          (store_directory_record P (depth_fuel key) rs.client key (unix sd.modified) true false) in
      (if equal kind (codes "string")
          then (loaded >>= λ r. elim r [ fail e ↦ pure tt | reply sd ↦ indexed sd ])
          else pure tt)
        (record s { world = w })

  unfoldable pub repair_keys : RedisStorage P → List Bytes → Exec (Machine P) (Unit {0})
  unfolding repair_key
  repair_keys rs [] = pure tt
  repair_keys rs (key ∷ keys) = let rest = repair_keys rs keys in repair_key rs key >> rest

  -- The scan from the root. The server decides how many rounds there are: the fuel bounds them.
  unfoldable pub scan_loop : ℕ → RedisStorage P → Bytes → ℕ → Exec (Machine P) (Unit {0})
  unfolding repair_keys
  scan_loop zero rs curr_key pointer = exhausted
  scan_loop (suc fuel) rs curr_key pointer =
      let more = λ (next : ℕ). scan_loop fuel rs curr_key next in
      annotate (errorf (codes "Unable to scan path " ++ curr_key))
        (call P (P.scan rs.client pointer (curr_key ++ codes "*") 500))
      >>= λ page. repair_keys rs page.0 >> (if page.1 == 0 then pure tt else more page.1)

  -- The loop of `Repair` over the children: stale names go, directories are repaired in turn.
  unfoldable pub repair_loop :
      (Bytes → Exec (Machine P) (Unit {0}))
      → RedisStorage P
      → Bytes
      → List Bytes
      → Exec (Machine P) (Unit {0})
  repair_loop walk rs dir [] = pure tt
  repair_loop walk rs dir (k ∷ keys) =
      let curr_key = prefix_key rs.config dir in
      let path = child_path dir k in
      let rest = repair_loop walk rs dir keys in
      let stale =
        codes "Unable to remove stale record '"
        ++ (k ++ (codes "' from directory '" ++ (curr_key ++ codes "'"))) in
      exists_key P rs.config rs.client path >>= λ exists.
      if not exists
      then (annotate (errorf stale) (call P (P.zrem rs.client curr_key k)) >>= λ _. rest)
      else if is_folder k
      then walk path >> rest
      else rest

  -- `Repair`
  unfoldable pub repair : ℕ → RedisStorage P → Bytes → Exec (Machine P) (Unit {0})
  unfolding scan_loop repair_loop
  repair zero rs dir = exhausted
  repair (suc fuel) rs dir =
      let walk = λ (path : Bytes). repair fuel rs path in
      let curr_key = prefix_key rs.config dir in
      (if is_empty dir then scan_loop fuel rs curr_key 0 else pure tt)
      >> range_of P curr_key rs.client
      >>= λ keys. repair_loop walk rs dir keys
