-- ===== src/Storage/RoundTrip.antt =====
-- What `Store` writes is what `Load` reads back: compression, encryption and JSON undone.
use mathlib.Core.Path.{subst}
use caddy_storage_redis.Prelude.{
  ℕ, ◌≤◌, ◌<◌, Bytes, true, false, ◌≡◌, refl, ap, ◌∙◌, inl, inr, arith, ltb, length, equal,
  is_empty, Bool-cases, ltb→lt,
}
use caddy_storage_redis.Go.Errors.{Error}
use caddy_storage_redis.Go.Strconv.{pos}
use caddy_storage_redis.Exec.{Result, ok, err, out_of_fuel, pure, lift, annotate}
use caddy_storage_redis.Exec.Laws.{Runs, >>=-ok, annotate-ok}
use caddy_storage_redis.Platform.{Platform, Reply, reply, fail}
use caddy_storage_redis.Config.{Config, StorageData, positive, unix, compression_none}
use caddy_storage_redis.Client.{Machine, result}
use caddy_storage_redis.Crypto.{Aead, encrypt, decrypt}
use caddy_storage_redis.Crypto.Laws.{FillsNonce, IsSealed, encrypt-IsSealed}
use caddy_storage_redis.Compression.{Codec, compress, max_decompressed_bytes, too_long}
use caddy_storage_redis.Compression.Laws.{
  IsLossless, flag_of, decompress-compress, decompress-too_long,
}
use caddy_storage_redis.Storage.{
  Json, Coding, compress_value, shorter, encrypt_value, encode, decrypt_value, decompress_value,
  decode, for_key, clock,
}

-- encoding/json reads back what it wrote.
abbrev pub ReadsBack : Json → Type 0
ReadsBack J = (sd : StorageData) (b : Bytes) → J.marshal sd ≡ reply b → J.unmarshal b ≡ reply sd

-- What the first part of `Store` makes of a value: it is left alone, or it is compressed and shorter.
pub data Compressed (C : Codec) (rs : Config) (value : Bytes) : Bytes → ℕ → Type 0 where
  plain : {c : Bytes} {flag : ℕ} → c ≡ value → flag ≡ 0 → Compressed C rs value c flag
  packed :
      {c : Bytes} {flag : ℕ}
      → compress C rs.compression value ≡ ok c
      → flag ≡ flag_of rs.compression
      → length c < length value
      → Compressed C rs value c flag

-- What follows the compression.
abbrev after_compress : Config → Bytes → Bytes → Result Bytes → Result (Bytes × ℕ)
after_compress rs key value (ok compressed) = ok (shorter rs value compressed)
after_compress rs key value (err e) = err (for_key "Unable to compress value" key e)
after_compress rs key value out_of_fuel = out_of_fuel

shorter-Compressed :
    (C : Codec) (rs : Config) (key value c : Bytes) (flag : ℕ) (r : Result Bytes)
    → compress C rs.compression value ≡ r
    → after_compress rs key value r ≡ ok (c, flag)
    → Compressed C rs value c flag
unfolding shorter
shorter-Compressed C rs key value c flag (ok x) e h =
    elim (Bool-cases (ltb (length x) (length value))) [
      | inl less ↦
          let r = rw less at h in
          let same : x ≡ c = ground arith in
          packed (e ∙ ap ok same) (ground arith) (rw (← same) (ltb→lt _ _ less))
      | inr more ↦ let r = rw more at h in plain (ground arith) (ground arith)
    ]
shorter-Compressed C rs key value c flag (err x) e h = cc
shorter-Compressed C rs key value c flag out_of_fuel e h = cc

compress_value-Compressed :
    (C : Codec) (rs : Config) (key value c : Bytes) (flag : ℕ)
    → compress_value C rs key value ≡ ok (c, flag)
    → Compressed C rs value c flag
unfolding compress_value
compress_value-Compressed C rs key value c flag h =
    elim (Bool-cases (equal rs.compression compression_none)) [
      | inl e ↦ let r = rw e at h in plain (ground arith) (ground arith)
      | inr e ↦
          shorter-Compressed C rs key value c flag (compress C rs.compression value) refl
            (rw (e, compress_value) at h)
    ]

-- The value that is stored, and its flag: as it was, or sealed with the main key.
pub data Secured (G : Aead) (rs : Config) (c : Bytes) : Bytes → ℕ → Type 0 where
  bare :
      {v : Bytes} {flag : ℕ}
      → is_empty rs.encryption_key ≡ true
      → v ≡ c
      → flag ≡ 0
      → Secured G rs c v flag
  sealed :
      {v : Bytes} {flag : ℕ}
      → is_empty rs.encryption_key ≡ false
      → IsSealed G rs.encryption_key c v
      → flag ≡ 1
      → Secured G rs c v flag

module _ (P : Platform) (K : Coding) (fills : FillsNonce P) where
  encrypt_value-Secured :
      (rs : Config) (key c v : Bytes) (flag : ℕ) (s t : Machine P)
      → Runs (encrypt_value P K rs key c) s (v, flag) t
      → Secured K.aead rs c v flag
  unfolding encrypt_value pure
  encrypt_value-Secured rs key c v flag s t h = elim (Bool-cases (is_empty rs.encryption_key)) [
    | inl e ↦ let r = rw e at h in bare e (ground arith) (ground arith)
    | inr e ↦
        let (x, u, ran, rest) =
          >>=-ok
            (annotate (for_key "Unable to encrypt value" key)
              (encrypt P K.aead rs.encryption_key c))
            (λ encrypted. pure (encrypted, 1)) s (rw e at h) in
        let i =
          encrypt-IsSealed P K.aead rs.encryption_key c fills x s u
            (annotate-ok (for_key "Unable to encrypt value" key) _ s ran) in
        let same : x ≡ v = ground arith in
        sealed e (subst (IsSealed K.aead rs.encryption_key c) same i) (ground arith)
  ]

module _ (P : Platform) (K : Coding) where
  -- What `Store` writes for a value, as `Load` will decode it.
  pub record Encoded (rs : Config) (value json_value : Bytes) (score : ℕ) : Type 0 where
    pub sd : StorageData
    pub read : K.json.unmarshal json_value ≡ reply sd
    pub inner : Bytes
    pub compressed : Compressed K.codec rs value inner (positive sd.compression)
    pub secured : Secured K.aead rs inner sd.value (positive sd.encryption)
    pub size : sd.size ≡ pos (length value)
    pub scored : score ≡ unix sd.modified

  marshalled :
      (f : Error → Error) (r : Reply Bytes) (s t : Machine P) (b : Bytes)
      → Runs (annotate f (lift (result r))) s b t
      → r ≡ reply b
  unfolding annotate lift
  marshalled f (reply x) s t b h = ground arith
  marshalled f (fail e) s t b h = cc

  pub encode-Encoded :
      (rs : Config) (key value json_value : Bytes) (score : ℕ) (s t : Machine P)
      → FillsNonce P
      → ReadsBack K.json
      → Runs (encode P K rs key value) s (json_value, score) t
      → Encoded rs value json_value score
  unfolding encode pure lift
  encode-Encoded rs key value json_value score s t fills back h =
      let (a, u, ran, h') = >>=-ok (lift (compress_value K.codec rs key value)) _ s h in
      let (b, v, ran', h'') = >>=-ok (encrypt_value P K rs key a.0) _ u h' in
      let (now, w, ran'', h''') = >>=-ok (clock P K) _ v h'' in
      let f = for_key "Unable to marshal value" key in
      let sd : StorageData = record {
        value = b.0;
        modified = now;
        size = pos (length value);
        compression = pos a.1;
        encryption = pos b.1;
      } in
      let (j, x, ran4, end) =
        >>=-ok (annotate f (lift (result (K.json.marshal sd)))) (λ j. pure (j, unix now)) w h''' in
      let same : j ≡ json_value = ground arith in
      record {
        sd = sd;
        read = back sd json_value (marshalled f (K.json.marshal sd) w x j ran4 ∙ ap reply same);
        inner = a.0;
        compressed = compress_value-Compressed K.codec rs key value a.0 a.1 (ap (λ p. p.0) ran);
        secured = encrypt_value-Secured P K fills rs key a.0 b.0 b.1 u v ran';
        size = refl;
        scored = ground arith;
      }

  module _ (rs reader : Config) (key value inner : Bytes) (sd : StorageData) where
    decrypt_value-Secured :
        Secured K.aead rs inner sd.value (positive sd.encryption)
        → (is_empty rs.encryption_key ≡ false
            → IsSealed K.aead rs.encryption_key inner sd.value
            → decrypt K.aead reader.encryption_key reader.decryption_keys sd.value ≡ ok inner)
        → decrypt_value K.aead reader key sd ≡ ok inner
    unfolding decrypt_value
    decrypt_value-Secured (bare e same flag) d = rw flag (ap ok same)
    decrypt_value-Secured (sealed e i flag) d = rw (flag, d e i)

    flag_of-pos : ltb 0 (flag_of rs.compression) ≡ true
    flag_of-pos = ground arith

    decompress_value-Compressed :
        IsLossless K.codec
        → Compressed K.codec rs value inner (positive sd.compression)
        → length value ≤ max_decompressed_bytes
        → decompress_value K.codec key sd inner ≡ ok value
    unfolding decompress_value
    decompress_value-Compressed Z (plain same flag) h = rw flag (ap ok same)
    decompress_value-Compressed Z (packed c flag less) h =
        rw (flag, flag_of-pos, decompress-compress K.codec Z rs.compression value inner h c)

    -- A value within the limit of decompression comes back, for every reader whose keys open it.
    pub decode-Encoded_inner :
        IsLossless K.codec
        → length value ≤ max_decompressed_bytes
        → Compressed K.codec rs value inner (positive sd.compression)
        → Secured K.aead rs inner sd.value (positive sd.encryption)
        → (is_empty rs.encryption_key ≡ false
            → IsSealed K.aead rs.encryption_key inner sd.value
            → decrypt K.aead reader.encryption_key reader.decryption_keys sd.value ≡ ok inner)
        → decode P K reader key sd ≡ ok value
    unfolding decode
    decode-Encoded_inner Z h c e d =
        rw (decrypt_value-Secured e d, decode) (decompress_value-Compressed Z c h)

    -- A value beyond the limit that was compressed and stored under the flag of its mode decodes to
    -- the error of the limit, for every reader that decrypts it.
    pub decode-too_long :
        IsLossless K.codec
        → max_decompressed_bytes < length value
        → compress K.codec rs.compression value ≡ ok inner
        → sd.compression ≡ pos (flag_of rs.compression)
        → decrypt_value K.aead reader key sd ≡ ok inner
        → decode P K reader key sd ≡ err (for_key "Unable to decompress value" key too_long)
    unfolding decode decompress_value
    decode-too_long Z h c flag d =
        rw (
          d,
          decode,
          flag,
          flag_of-pos,
          decompress-too_long K.codec Z rs.compression value inner h c,
        )
