-- ===== src/Tests/Values.antt =====
-- A value stored through a closed client, loaded after a rotation of the key, and deleted.
use mathlib.Core.Path.{subst}
use caddy_storage_redis.Prelude.{
  ℕ, Bytes, List, [], ◌∷◌, Bool, true, false, none, some, ◌≡◌, ◌≢◌, refl, sym, ap, ◌∙◌, codes,
  arith, equal, contains, length,
}
use caddy_storage_redis.Go.Strings.{has_substring}
use caddy_storage_redis.Go.FilePath.{path_of, join, dir, base}
use caddy_storage_redis.Go.Strconv.{atoi, pos}
use caddy_storage_redis.Exec.{Result, ok, err, out_of_fuel, ◌>>=◌}
use caddy_storage_redis.Exec.Laws.{Runs}
use caddy_storage_redis.Platform.Redis.{Unchanged, Unchanged-refl}
use caddy_storage_redis.Client.{Machine, build_client, call}
use caddy_storage_redis.Directory.{
  prefix_key, store_directory_record, delete_directory_record, split_directory_key,
}
use caddy_storage_redis.Reconnect.{with_reconnect_on_closed, is_client_closed_err}
use caddy_storage_redis.Config.{StorageData}
use caddy_storage_redis.Platform.{reply}
use caddy_storage_redis.Go.Errors.{new_error}
use caddy_storage_redis.Compression.{max_decompressed_bytes}
use caddy_storage_redis.Crypto.Laws.{here}
use caddy_storage_redis.Crypto.{encrypt, decrypt_with_key}
use caddy_storage_redis.Compression.{compress}
use caddy_storage_redis.Storage.{
  store, load, put_record, delete_record, encode, decode, delete, err_not_exist,
}
use caddy_storage_redis.Storage.Effects.{HasStored, HasDropped}
use caddy_storage_redis.Storage.Retried.{IsReady, WritesNothing, delete-HasDropped}
use caddy_storage_redis.Storage.Stored.{PutWritesNothing, store-HasStored, store-load}
use caddy_storage_redis.Storage.Loaded.{Holds, rotated, load-missing, encode-decode}
use caddy_storage_redis.Reconnect.Laws.{Attempts, with_reconnect_on_closed-Attempts}
use caddy_storage_redis.Listing.{list}
use caddy_storage_redis.Listing.Flat.{IsListing, list-IsSound}
use caddy_storage_redis.Storage.Ends.{put_record-ends, delete_record-ends}
use caddy_storage_redis.Tests.Memory.{memory, contents, memory-IsLawful, nil_reply}
use caddy_storage_redis.Tests.Caddy.{
  start, closed_storage, reader_storage, site, above_site, site-IsPath, acme_site, acme_site-place,
  start-IsSound, start-Empty, coding, coding-IsFaithful, long_value, secret, after_rotation, cipher,
}

abbrev stored : Machine memory
unfolding store with_reconnect_on_closed is_client_closed_err build_client put_record prefix_key
    join store_directory_record split_directory_key dir base encrypt compress ◌>>=◌ call
    has_substring contains equal path_of atoi
stored = (store memory coding closed_storage acme_site long_value start).1

stored-Runs : Runs (store memory coding closed_storage acme_site long_value) start tt stored
unfolding store with_reconnect_on_closed is_client_closed_err build_client put_record prefix_key
    join store_directory_record split_directory_key dir base encrypt compress ◌>>=◌ call
    has_substring contains equal path_of atoi
stored-Runs = refl

start-IsReady :
    IsReady memory contents memory-IsLawful closed_storage acme_site site above_site site-IsPath
      acme_site-place start.world
start-IsReady = record { sound = start-IsSound; free = start-Empty (path_of (site ∷ above_site)) }

nothing_written :
    PutWritesNothing memory contents memory-IsLawful coding closed_storage acme_site site above_site
      site-IsPath acme_site-place long_value start
unfolding put_record prefix_key join store_directory_record split_directory_key dir base ◌>>=◌ call
nothing_written j score m encoded e u failed closed =
    subst (λ x. Unchanged memory contents m.world x.world) (ap (λ p. p.1) failed)
      (Unchanged-refl memory contents m.world)

abbrev written : Bytes
written = 1000000000 ∷ 0 ∷ 16 ∷ 0 ∷ 1 ∷ 0 ∷ 1 ∷ 0 ∷ 0 ∷ 1 ∷ 0 ∷ []

abbrev sealed_value : StorageData
sealed_value = record {
  value = 0 ∷ 0 ∷ 1 ∷ 0 ∷ [];
  modified = 1000000000;
  size = pos 16;
  compression = pos 1;
  encryption = pos 1;
}

stored-written : contents.string_at stored.world (path_of (site ∷ above_site)) ≡ some written
unfolding stored equal path_of
stored-written = refl

rotated-Holds : Holds cipher secret after_rotation sealed_value.value
unfolding decrypt_with_key
rotated-Holds = rotated (new_error (codes "cipher: message authentication failed"), refl) (here [])

opens :
    (j : Bytes) (sd : StorageData)
    → contents.string_at stored.world (path_of (site ∷ above_site)) ≡ some j
    → coding.json.unmarshal j ≡ reply sd
    → Holds cipher secret after_rotation sd.value
opens j sd held read =
    subst (λ x. Holds cipher secret after_rotation x.value)
      (same_value sd (ap coding.json.unmarshal (same_text j (sym stored-written ∙ held)) ∙ read))
      rotated-Holds
  where
    same_text : (j : Bytes) → some written ≡ some j → written ≡ j
    same_text j e = ground arith

    same_value : (sd : StorageData) → reply sealed_value ≡ reply sd → sealed_value ≡ sd
    same_value sd e = ground arith

store-load_example : load memory coding reader_storage acme_site stored ≡ (ok long_value, stored)
unfolding stored equal path_of max_decompressed_bytes
store-load_example =
    store-load memory contents memory-IsLawful coding closed_storage acme_site site above_site
      site-IsPath acme_site-place coding-IsFaithful reader_storage acme_site long_value written
      start stored stored.world start-IsReady nothing_written (omega arith) acme_site-place opens
      stored-Runs refl

store-HasStored_example :
    (json_value : Bytes) × (score : ℕ) × (m : Machine memory) × Runs
      (encode memory coding closed_storage.config acme_site long_value)
      start
      (json_value, score)
      m
    × HasStored memory contents site above_site json_value start.world stored.world
store-HasStored_example =
    store-HasStored memory contents memory-IsLawful coding closed_storage acme_site site above_site
      site-IsPath acme_site-place long_value start stored start-IsReady nothing_written stored-Runs

stored-IsReady :
    IsReady memory contents memory-IsLawful closed_storage acme_site site above_site site-IsPath
      acme_site-place stored.world
unfolding stored equal path_of
stored-IsReady =
    let (_, _, _, _, done) =
      store-HasStored memory contents memory-IsLawful coding closed_storage acme_site site
        above_site site-IsPath acme_site-place long_value start stored start-IsReady nothing_written
        stored-Runs in
    record { sound = done.sound; free = λ m. refl }

abbrev emptied : Machine memory
unfolding delete with_reconnect_on_closed is_client_closed_err build_client delete_record prefix_key
    join delete_directory_record split_directory_key dir base ◌>>=◌ call has_substring contains
    equal path_of atoi
emptied = (delete memory closed_storage acme_site stored).1

emptied-Runs : Runs (delete memory closed_storage acme_site) stored tt emptied
unfolding stored delete with_reconnect_on_closed is_client_closed_err build_client delete_record
    prefix_key join delete_directory_record split_directory_key dir base ◌>>=◌ call has_substring
    contains equal path_of atoi
emptied-Runs = refl

nothing_removed :
    WritesNothing memory contents
      (delete_record memory closed_storage.config acme_site closed_storage.client)
      stored
unfolding delete_record prefix_key join delete_directory_record split_directory_key dir base ◌>>=◌
    call
nothing_removed e u failed closed =
    subst (λ x. Unchanged memory contents stored.world x.world) (ap (λ p. p.1) failed)
      (Unchanged-refl memory contents stored.world)

delete-HasDropped_example : HasDropped memory contents site above_site stored.world emptied.world
delete-HasDropped_example =
    delete-HasDropped memory contents memory-IsLawful closed_storage acme_site site above_site
      site-IsPath acme_site-place stored emptied stored-IsReady nothing_removed emptied-Runs

-- Loading what was deleted.
load-missing_example :
    load memory coding reader_storage acme_site emptied ≡ (err err_not_exist, emptied)
unfolding emptied stored equal path_of prefix_key join
load-missing_example =
    load-missing memory coding reader_storage acme_site none nil_reply emptied emptied.world refl
      refl

-- One command on the closed client, which is sent again on a fresh one.
abbrev set_once : Bool → Machine memory → Result (Unit {0}) × Machine memory
set_once c = call memory (memory.set c (codes "k") (codes "v"))

abbrev set_again : Machine memory
unfolding with_reconnect_on_closed is_client_closed_err build_client call has_substring equal atoi
    contains ◌>>=◌
set_again = (with_reconnect_on_closed memory set_once closed_storage start).1

with_reconnect_on_closed-Attempts_example :
    Attempts memory set_once closed_storage start tt set_again
unfolding set_again
with_reconnect_on_closed-Attempts_example =
    with_reconnect_on_closed-Attempts memory set_once closed_storage start refl

abbrev encoded : Machine memory
unfolding encode encrypt compress ◌>>=◌ call equal
encoded = (encode memory coding secret acme_site long_value start).1

sealed_opens :
    (sd : StorageData)
    → coding.json.unmarshal written ≡ reply sd
    → Holds cipher secret after_rotation sd.value
sealed_opens sd read = opens written sd stored-written read

encode-decode_example :
    (sd : StorageData) × (coding.json.unmarshal written ≡ reply sd)
    × (decode memory coding after_rotation acme_site sd ≡ ok long_value)
    × (sd.size ≡ pos (length long_value))
unfolding encoded max_decompressed_bytes
encode-decode_example =
    encode-decode memory coding coding-IsFaithful secret after_rotation acme_site acme_site
      long_value written 1 start encoded (omega arith) sealed_opens refl

-- The directory of the key lists it.
list-IsSound_example :
    (paths : List Bytes) × (list memory 1 reader_storage (path_of (codes "acme" ∷ [])) false stored
      ≡ (ok (paths, none), stored))
    × IsListing memory contents stored.world (codes "acme" ∷ []) above_site paths
unfolding stored equal path_of prefix_key join
list-IsSound_example =
    list-IsSound memory contents memory-IsLawful 0 reader_storage (codes "acme" ∷ []) (codes "acme")
      (codes "caddy" ∷ []) (site ∷ []) stored stored.world (stored-IsReady.sound)
      ((site-IsPath.1).0, tt) (site-IsPath.1) refl refl

put_record-ends_example : (put_record memory secret acme_site written 7 true start).0 ≢ out_of_fuel
put_record-ends_example =
    put_record-ends memory secret acme_site site above_site site-IsPath acme_site-place true start
      written 7

delete_record-ends_example : (delete_record memory secret acme_site true start).0 ≢ out_of_fuel
delete_record-ends_example =
    delete_record-ends memory secret acme_site site above_site site-IsPath acme_site-place true
      start
