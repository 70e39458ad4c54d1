-- ===== src/Storage/Loaded.antt =====
-- `Load` after `Store`: what the key holds decides what is returned.
use caddy_storage_redis.Prelude.{
  ℕ, ◌≤◌, Bytes, true, false, Option, none, some, ◌≡◌, refl, length, is_empty,
}
use caddy_storage_redis.Go.Errors.{Error, errors_is, redis_nil}
use caddy_storage_redis.Go.Strconv.{pos}
use caddy_storage_redis.Exec.{ok, err, lift, ◌>>=◌}
use caddy_storage_redis.Exec.Laws.{Runs}
use caddy_storage_redis.Platform.{Platform, reply}
use caddy_storage_redis.Platform.Redis.{Contents, IsLawful}
use caddy_storage_redis.Config.{Config, StorageData}
use caddy_storage_redis.Client.{Machine, RedisStorage}
use caddy_storage_redis.Reconnect.{is_client_closed_err}
use caddy_storage_redis.Reconnect.Laws.{with_reconnect_on_closed-ok, with_reconnect_on_closed-err}
use caddy_storage_redis.Crypto.{Aead, decrypt}
use caddy_storage_redis.Crypto.Laws.{
  IsAuthenticated, FillsNonce, IsSealed, decrypt-sealed, decrypt-rotated, Refuses, Finds,
}
use caddy_storage_redis.Compression.{max_decompressed_bytes}
use caddy_storage_redis.Compression.Laws.{IsLossless}
use caddy_storage_redis.Directory.{prefix_key}
use caddy_storage_redis.Storage.{
  Coding, encode, load, decode, read_data, load_storage_data, err_not_exist,
}
use caddy_storage_redis.Storage.RoundTrip.{ReadsBack, encode-Encoded, decode-Encoded_inner}

module _ (G : Aead) (rs reader : Config) where
  -- The reader can open what was stored as `c`: it was not sealed, or the reader has the key as
  -- its main key, or as the first further key that reads it where the main key does not
  -- authenticate it.
  pub data Holds (c : Bytes) : Type 0 where
    unsealed : is_empty rs.encryption_key ≡ true → Holds c
    main : reader.encryption_key ≡ rs.encryption_key → Holds c
    rotated :
        Refuses G reader.encryption_key c
        → Finds G rs.encryption_key c reader.decryption_keys
        → Holds c

  Holds-decrypt :
      IsAuthenticated G
      → (p c : Bytes) → is_empty rs.encryption_key ≡ false
      → Holds c
      → IsSealed G rs.encryption_key p c
      → decrypt G reader.encryption_key reader.decryption_keys c ≡ ok p
  Holds-decrypt A p c needed (unsealed e) i = cc
  Holds-decrypt A p c needed (main same) i =
      rw same (decrypt-sealed G A rs.encryption_key p c i reader.decryption_keys)
  Holds-decrypt A p c needed (rotated refused found) i =
      decrypt-rotated G A rs.encryption_key reader.encryption_key p c reader.decryption_keys i
        refused found

-- The laws of the libraries that a value passes through.
pub record IsFaithful (P : Platform) (K : Coding) : Type 0 where
  pub fills : FillsNonce P
  pub authenticated : IsAuthenticated K.aead
  pub lossless : IsLossless K.codec
  pub reads_back : ReadsBack K.json

module _ (P : Platform) (K : Coding) (F : IsFaithful P K) (rs reader : Config)
    (key other value json_value : Bytes) (score : ℕ) where
  -- What the reader can open of the text that was written.
  abbrev pub CanOpen : Type 0
  CanOpen =
      (sd : StorageData) → K.json.unmarshal json_value ≡ reply sd → Holds K.aead rs reader sd.value

  -- What `Store` writes for a value within the limit of decompression is read back as a record that
  -- has the value's length, and decodes to the value for every reader that can open it.
  pub encode-decode :
      (s t : Machine P)
      → length value ≤ max_decompressed_bytes
      → CanOpen
      → Runs (encode P K rs key value) s (json_value, score) t
      → (sd : StorageData) × (K.json.unmarshal json_value ≡ reply sd)
        × (decode P K reader other sd ≡ ok value)
        × (sd.size ≡ pos (length value))
  encode-decode s t short opens r =
      let e = encode-Encoded P K rs key value json_value score s t F.fills F.reads_back r in
      (
        e.sd,
        e.read,
        decode-Encoded_inner P K rs reader other value e.inner e.sd F.lossless short e.compressed
            e.secured
            (λ needed i.
              Holds-decrypt K.aead rs reader F.authenticated e.inner e.sd.value needed
                (opens e.sd e.read) i),
        e.size,
      )

-- GET of a value: what `Load` reads, if decoding it gives a value.
module _ (P : Platform) (V : Contents P) (L : IsLawful P V) (K : Coding) (reader : RedisStorage P)
    (key value json_value got : Bytes) (sd : StorageData) where
  pub load-stored :
      (s : Machine P) (u : P.World)
      → V.string_at s.world (prefix_key reader.config key) ≡ some json_value
      → K.json.unmarshal json_value ≡ reply sd
      → decode P K reader.config key sd ≡ ok value
      → P.get reader.client (prefix_key reader.config key) s.world ≡ ((some got, none), u)
      → load P K reader key s ≡ (ok value, record s { world = u })
  unfolding load load_storage_data read_data lift ◌>>=◌
  load-stored s u held read decoded replied =
      let (found, _) = L.get_found reader.client _ got s.world u replied in
      let same : got ≡ json_value = cc in
      let op = load_storage_data P K reader.config key in
      let t = record s { world = u } in
      let ran : op reader.client s ≡ (ok sd, t) = rw (replied, same, read) refl in
      rw (with_reconnect_on_closed-ok P op reader s t sd ran, decoded) refl

module _ (P : Platform) (K : Coding) where
  read_data-missing :
      (key : Bytes) (d : Option Bytes) (e : Error)
      → errors_is e redis_nil ≡ true
      → read_data P K key (d, some e) ≡ err err_not_exist
  unfolding read_data
  read_data-missing key none e is_nil = refl
  read_data-missing key (some b) e is_nil = rw is_nil refl

  -- When GET reports that a key holds nothing, `Load` returns that the file does not exist after
  -- that one command.
  pub load-missing :
      (reader : RedisStorage P) (key : Bytes) (d : Option Bytes) (e : Error) (s : Machine P)
      (u : P.World)
      → P.get reader.client (prefix_key reader.config key) s.world ≡ ((d, some e), u)
      → errors_is e redis_nil ≡ true
      → load P K reader key s ≡ (err err_not_exist, record s { world = u })
  unfolding load load_storage_data lift ◌>>=◌ is_client_closed_err
  load-missing reader key d e s u replied is_nil =
      let op = load_storage_data P K reader.config key in
      let t = record s { world = u } in
      let ran : op reader.client s ≡ (err err_not_exist, t) =
        rw (replied, read_data-missing key d e is_nil) refl in
      rw (with_reconnect_on_closed-err P op reader s t err_not_exist ran refl) refl
