-- ===== src/Storage.antt =====
-- storage.go: `Store`, `Load`, `Delete`, `Exists` and `Stat`. The parent of their proofs.
pub mod RoundTrip
pub mod Sound
pub mod Put
pub mod Drop
pub mod Effects
pub mod Retried
pub mod Loaded
pub mod Stored
pub mod Ends
use caddy_storage_redis.Prelude.{
  ℕ, ◌+◌, Bytes, List, [], ◌∷◌, ◌++◌, Bool, true, false, ◌||◌, Option, none, some, if◌then◌else◌,
  equal, is_empty, codes, length, ltb, String,
}
use caddy_storage_redis.Go.Errors.{
  Error, new_error, errorf, errors_is, sentinel, redis_nil, not_exist,
}
use caddy_storage_redis.Go.Strconv.{ℤ, pos}
use caddy_storage_redis.Exec.{
  Result, ok, err, out_of_fuel, Exec, pure, raise, lift, annotate, rewrap, ◌>>=◌, ◌>>◌,
}
use caddy_storage_redis.Platform.{Platform, Reply, reply, fail}
use caddy_storage_redis.Config.{
  Config, StorageData, positive, compression_none, compression_zlib, storage_compression_none,
  storage_compression_flate, storage_compression_zlib, unix,
}
use caddy_storage_redis.Client.{Machine, RedisStorage, call, result}
use caddy_storage_redis.Reconnect.{with_reconnect_on_closed}
use caddy_storage_redis.Crypto.{Aead, encrypt, decrypt}
use caddy_storage_redis.Compression.{Codec, compress, decompress}
use caddy_storage_redis.Directory.{
  prefix_key, store_directory_record, delete_directory_record, exists_key, depth_fuel,
}

-- encoding/json on `StorageData`.
pub record Json : Type 0 where
  pub marshal : StorageData → Reply Bytes
  pub unmarshal : Bytes → Reply StorageData

-- The parts of the standard library that values pass through.
pub record Coding : Type 0 where
  pub aead : Aead
  pub codec : Codec
  pub json : Json

-- "... for <key>: <err>"
abbrev pub for_key : String → Bytes → Error → Error
for_key doing key = errorf (codes doing ++ (codes " for " ++ key))

-- `fs.ErrNotExist`
abbrev pub err_not_exist : Error
err_not_exist = sentinel (codes "file does not exist") not_exist

-- The compressed value, if it is shorter, and the flag to store.
shorter : Config → Bytes → Bytes → Bytes × ℕ
shorter rs value compressed =
    if ltb (length compressed) (length value)
    then (
      compressed,
      if equal rs.compression compression_zlib
          then storage_compression_zlib
          else storage_compression_flate,
    )
    else (value, storage_compression_none)

-- The first part of `Store`.
unfoldable pub compress_value : Codec → Config → Bytes → Bytes → Result (Bytes × ℕ)
unfolding shorter
compress_value C rs key value =
    if equal rs.compression compression_none
    then ok (value, storage_compression_none)
    else elim (compress C rs.compression value) [
      | ok compressed ↦ ok (shorter rs value compressed)
      | err e ↦ err (for_key "Unable to compress value" key e)
      | out_of_fuel ↦ out_of_fuel
    ]

-- The last parts of `Load`.
unfoldable pub decrypt_value : Aead → Config → Bytes → StorageData → Result Bytes
decrypt_value G rs key sd =
    if ltb 0 (positive sd.encryption)
    then rewrap (for_key "Unable to decrypt value" key)
        (decrypt G rs.encryption_key rs.decryption_keys sd.value)
    else ok sd.value

unfoldable pub decompress_value : Codec → Bytes → StorageData → Bytes → Result Bytes
decompress_value C key sd value =
    if ltb storage_compression_none (positive sd.compression)
    then rewrap (for_key "Unable to decompress value" key)
        (decompress C value (positive sd.compression))
    else ok value

-- `certmagic.KeyInfo`
pub record KeyInfo : Type 0 where
  pub key : Bytes
  pub modified : ℕ
  pub size : ℤ
  pub is_terminal : Bool

module _ (P : Platform) where
  -- What `Store` does with a client: the directory record, then the value.
  unfoldable pub put_record : Config → Bytes → Bytes → ℕ → P.Client → Exec (Machine P) (Unit {0})
  put_record rs key json_value score client =
      let prefixed_key = prefix_key rs key in
      annotate (errorf (codes "Unable to create directory for key " ++ key))
        (store_directory_record P (depth_fuel prefixed_key) client prefixed_key score false false)
      >> annotate (for_key "Unable to set value" key)
          (call P (P.set client prefixed_key json_value))

module _ (P : Platform) (K : Coding) where
  abbrev pub clock : Exec (Machine P) ℕ
  clock s = let (t, w) = P.now s.world in (ok t, record s { world = w })

  -- The second part of `Store`.
  unfoldable pub encrypt_value : Config → Bytes → Bytes → Exec (Machine P) (Bytes × ℕ)
  encrypt_value rs key value =
      if is_empty rs.encryption_key
      then pure (value, 0)
      else annotate (for_key "Unable to encrypt value" key)
          (encrypt P K.aead rs.encryption_key value)
        >>= λ encrypted. pure (encrypted, 1)

  -- What `Store` writes under the key.
  unfoldable pub encode : Config → Bytes → Bytes → Exec (Machine P) (Bytes × ℕ)
  unfolding compress_value encrypt_value
  encode rs key value = do
    (compressed, compression_flag) ← lift (compress_value K.codec rs key value)
    (sealed, encryption_flag) ← encrypt_value rs key compressed
    modified ← clock
    json_value ← annotate (for_key "Unable to marshal value" key) (
        lift (
          result (
            K.json.marshal (record {
              value = sealed;
              modified = modified;
              size = pos (length value);
              compression = pos compression_flag;
              encryption = pos encryption_flag;
            }))))
    pure (json_value, unix modified)

  -- `Store`
  unfoldable pub store : RedisStorage P → Bytes → Bytes → Exec (Machine P) (Unit {0})
  unfolding encode put_record
  store rs key value = do
    (json_value, score) ← encode rs.config key value
    with_reconnect_on_closed P (put_record P rs.config key json_value score) rs

  -- The data that GET returned, its error, and the decoding.
  read_data : Bytes → Option Bytes × Option Error → Result StorageData
  read_data key (none, e) = err err_not_exist
  read_data key (some bytes, some e) =
      if errors_is e redis_nil then err err_not_exist else err (for_key "Unable to get data" key e)
  read_data key (some bytes, none) =
      rewrap (for_key "Unable to unmarshal value" key) (result (K.json.unmarshal bytes))

  -- `loadStorageData`
  unfoldable pub load_storage_data : Config → Bytes → P.Client → Exec (Machine P) StorageData
  unfolding read_data
  load_storage_data rs key client s =
      let (got, w) = P.get client (prefix_key rs key) s.world in
      (read_data key got, record s { world = w })

  -- The value in what was loaded.
  unfoldable pub decode : Config → Bytes → StorageData → Result Bytes
  unfolding decrypt_value decompress_value
  decode rs key sd = elim (decrypt_value K.aead rs key sd) [
    | ok value ↦ decompress_value K.codec key sd value
    | err e ↦ err e
    | out_of_fuel ↦ out_of_fuel
  ]

  -- `Load`, up to the value that it returns
  unfoldable pub load : RedisStorage P → Bytes → Exec (Machine P) Bytes
  unfolding load_storage_data decode
  load rs key = do
    sd ← with_reconnect_on_closed P (load_storage_data rs.config key) rs
    lift (decode rs.config key sd)

  -- `Stat`
  unfoldable pub stat : RedisStorage P → Bytes → Exec (Machine P) KeyInfo
  unfolding load_storage_data
  stat rs key = do
    sd ← with_reconnect_on_closed P (load_storage_data rs.config key) rs
    pure (record { key = key; modified = sd.modified; size = sd.size; is_terminal = true })

module _ (P : Platform) where
  -- What `Delete` does with a client.
  unfoldable pub delete_record : Config → Bytes → P.Client → Exec (Machine P) (Unit {0})
  delete_record rs key client =
      let prefixed_key = prefix_key rs key in
      annotate (errorf (codes "Unable to delete directory for key " ++ key))
        (delete_directory_record P (depth_fuel prefixed_key) client prefixed_key false)
      >> annotate (errorf (codes "Unable to delete key " ++ key))
          (call P (P.del client prefixed_key))
      >> pure tt

  -- `Delete`
  unfoldable pub delete : RedisStorage P → Bytes → Exec (Machine P) (Unit {0})
  unfolding delete_record
  delete rs key = with_reconnect_on_closed P (delete_record rs.config key) rs

  abbrev false_on_error : Result Bool → Result Bool
  false_on_error (ok b) = ok b
  false_on_error (err e) = ok false
  false_on_error out_of_fuel = out_of_fuel

  -- `Exists`, which has no error to return
  unfoldable pub exists : RedisStorage P → Bytes → Exec (Machine P) Bool
  exists rs key s =
      let (r, t) = with_reconnect_on_closed P (λ client. exists_key P rs.config client key) rs s in
      (false_on_error r, t)
