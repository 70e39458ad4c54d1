-- ===== src/Tests/Index.antt =====
-- The directory index of one key, written and removed on an open client.
use caddy_storage_redis.Prelude.{◌∷◌, true, false, ◌≢◌, refl, arith, equal, contains}
use caddy_storage_redis.Go.FilePath.{path_of, dir, base}
use caddy_storage_redis.Exec.{out_of_fuel, ◌>>=◌}
use caddy_storage_redis.Client.{Machine, call}
use caddy_storage_redis.Client.Built.{Built}
use caddy_storage_redis.Directory.{
  store_directory_record, delete_directory_record, split_directory_key,
}
use caddy_storage_redis.Directory.Index.{Linked}
use caddy_storage_redis.Directory.Stored.{Stored, store_directory_record-Stored}
use caddy_storage_redis.Directory.Store.{store_directory_record-ends}
use caddy_storage_redis.Directory.Delete.{delete_directory_record-ends}
use caddy_storage_redis.Directory.Removed.{Removed, delete_directory_record-Removed}
use caddy_storage_redis.Tests.Memory.{memory, contents, memory-IsLawful}
use caddy_storage_redis.Tests.Caddy.{start, site, above_site, site-IsPath, start-IsSound}

abbrev indexed : Machine memory
unfolding store_directory_record split_directory_key dir base path_of ◌>>=◌ call contains equal
indexed = (store_directory_record memory 4 true (path_of (site ∷ above_site)) 7 false false start).1

store_directory_record-Stored_example :
    Stored memory contents start.world indexed.world site above_site
    × Linked memory contents indexed.world
unfolding indexed
store_directory_record-Stored_example =
    store_directory_record-Stored memory contents memory-IsLawful true 7 false 4 site above_site
      false start indexed site-IsPath (start-IsSound.linked) refl

store_directory_record-ends_example :
    (store_directory_record memory 3 true (path_of (site ∷ above_site)) 7 false false start).0
    ≢ out_of_fuel
store_directory_record-ends_example =
    store_directory_record-ends memory true 7 false 3 site above_site false start site-IsPath
      (omega arith)

abbrev pruned : Machine memory
unfolding indexed delete_directory_record split_directory_key dir base path_of ◌>>=◌ call contains
    equal
pruned = (delete_directory_record memory 4 true (path_of (site ∷ above_site)) false indexed).1

delete_directory_record-Removed_example :
    Removed memory contents indexed.world pruned.world site above_site
unfolding pruned
delete_directory_record-Removed_example =
    delete_directory_record-Removed memory contents memory-IsLawful true 4 site above_site false
      indexed pruned site-IsPath refl

delete_directory_record-ends_example :
    (delete_directory_record memory 3 true (path_of (site ∷ above_site)) false start).0
    ≢ out_of_fuel
delete_directory_record-ends_example =
    delete_directory_record-ends memory true 3 site above_site false start site-IsPath (omega arith)
