-- ===== src/Storage/Stored.antt =====
-- `Store` as a whole, and a `Load` after it.
use mathlib.Core.Path.{subst}
use caddy_storage_redis.Prelude.{
  ℕ, ◌≤◌, Bytes, List, ◌∷◌, none, some, ◌≡◌, ap, ◌∙◌, length, inl, inr, Option-cases,
}
use caddy_storage_redis.Go.FilePath.{path_of}
use caddy_storage_redis.Go.FilePath.Segments.{IsPath}
use caddy_storage_redis.Exec.{Result, ok, lift}
use caddy_storage_redis.Exec.Laws.{Runs, >>=-ok}
use caddy_storage_redis.Platform.{Platform, reply}
use caddy_storage_redis.Platform.Redis.{Contents, IsLawful, Unchanged, Unchanged-refl}
use caddy_storage_redis.Config.{Config, StorageData}
use caddy_storage_redis.Client.{Machine, RedisStorage}
use caddy_storage_redis.Client.Laws.{
  Keeps, keeps_rules, Keeps-call, Keeps-bind, Keeps-annotate, Keeps-pure, Keeps-raise,
}
use caddy_storage_redis.Reconnect.{with_reconnect_on_closed}
use caddy_storage_redis.Crypto.{check_key, encrypt}
use caddy_storage_redis.Compression.{max_decompressed_bytes}
use caddy_storage_redis.Directory.{prefix_key}
use caddy_storage_redis.Storage.{Coding, encode, encrypt_value, clock, store, load, put_record}
use caddy_storage_redis.Storage.Effects.{HasStored}
use caddy_storage_redis.Storage.Retried.{
  IsReady, IsReady-Unchanged, HasStored-Unchanged, WritesNothing, put_retried-HasStored,
}
use caddy_storage_redis.Storage.Loaded.{IsFaithful, Holds, encode-decode, load-stored}

module _ (P : Platform) (V : Contents P) (L : IsLawful P V) (K : Coding) where
  Keeps-lift : {A : Type 0} (r : Result A) → Keeps P V (lift r)
  unfolding lift
  Keeps-lift r = record { at = λ s. Unchanged-refl P V s.world }

  clock-Keeps : Keeps P V (clock P K)
  clock-Keeps = record { at = λ s. L.now_keeps s.world }

  encrypt-Keeps : (key bytes : Bytes) → Keeps P V (encrypt P K.aead key bytes)
  unfolding encrypt
  encrypt-Keeps key bytes = elim (Option-cases (check_key K.aead key)) [
    | inl good ↦
        rw (good, encrypt)
          (Keeps-bind _ _
            (Keeps-annotate _ _ (
              Keeps-call P V L (P.read_random K.aead.nonce_size)
                (L.random_keeps K.aead.nonce_size)))
            (λ nonce. Keeps-pure _))
    | inr (e, bad) ↦ rw (bad, encrypt) (Keeps-raise e)
  ]

  encrypt_value-Keeps :
      (rs : Config) (key value : Bytes) → Keeps P V (encrypt_value P K rs key value)
  unfolding encrypt_value
  encrypt_value-Keeps rs key value = search (keeps_rules, encrypt-Keeps)

  -- What is done before the first command to the server.
  encode-Keeps : (rs : Config) (key value : Bytes) → Keeps P V (encode P K rs key value)
  unfolding encode
  encode-Keeps rs key value =
      search (keeps_rules, Keeps-lift, clock-Keeps, encrypt_value-Keeps) depth 12

module _ (P : Platform) (V : Contents P) (L : IsLawful P V) (K : Coding) (rs : RedisStorage P)
    (key b : Bytes) (rest : List Bytes) (h : IsPath (b ∷ rest))
    (place : prefix_key rs.config key ≡ path_of (b ∷ rest)) where
  -- Every attempt to write a value on the cached client that fails because the client is closed
  -- has written nothing.
  abbrev pub PutWritesNothing : Bytes → Machine P → Type 0
  PutWritesNothing value s =
      (json_value : Bytes) (score : ℕ) (m : Machine P)
      → Runs (encode P K rs.config key value) s (json_value, score) m
      → WritesNothing P V (put_record P rs.config key json_value score rs.client) m

  -- From a sound index, under a key that is a clean relative path (no segment is empty, '.' or '..')
  -- and has no set of its own (no name is listed in it), a success of `Store`, retried or not,
  -- encoded the value and left it under the key, the key listed up to the top, the index sound and
  -- the other values as they were; provided that an attempt that fails because the client is closed
  -- has written nothing.
  pub store-HasStored :
      (value : Bytes) (s t : Machine P)
      → IsReady P V L rs key b rest h place s.world
      → PutWritesNothing value s
      → Runs (store P K rs key value) s tt t
      → (json_value : Bytes) × (score : ℕ) × (m : Machine P) × Runs
          (encode P K rs.config key value)
          s
          (json_value, score)
          m
        × HasStored P V b rest json_value s.world t.world
  unfolding store
  store-HasStored value s t ready nothing r =
      let ((j, score), m, encoded, written) =
        >>=-ok (encode P K rs.config key value)
          (λ x. with_reconnect_on_closed P (put_record P rs.config key x.0 x.1) rs) s r in
      let same = (encode-Keeps P V L K rs.config key value).at s in
      let same_m : Unchanged P V s.world m.world =
        subst (λ x. Unchanged P V s.world x.1.world) encoded same in
      (
        j,
        score,
        m,
        encoded,
        HasStored-Unchanged P V L rs key b rest h place j s.world m.world t.world t.world same_m
            (Unchanged-refl P V t.world)
            (put_retried-HasStored P V L rs key b rest h place j score m t
              (IsReady-Unchanged P V L rs key b rest h place s.world m.world same_m ready)
              (nothing j score m encoded) written),
      )

  -- After a successful `Store` of a value within the limit of decompression, from a sound index,
  -- under a key that is a clean relative path (no segment is empty, '.' or '..') and has no set of
  -- its own (no name is listed in it), retried after an attempt that wrote nothing or not, a `Load`
  -- of the same path whose GET is answered with data returns the value, if the reader can open what
  -- was written.
  pub store-load :
      (F : IsFaithful P K) (reader : RedisStorage P) (other value got : Bytes) (s t : Machine P)
      (u : P.World)
      → IsReady P V L rs key b rest h place s.world
      → PutWritesNothing value s
      → length value ≤ max_decompressed_bytes
      → prefix_key reader.config other ≡ path_of (b ∷ rest)
      → ((json_value : Bytes) (sd : StorageData)
          → V.string_at t.world (path_of (b ∷ rest)) ≡ some json_value
          → K.json.unmarshal json_value ≡ reply sd
          → Holds K.aead rs.config reader.config sd.value)
      → Runs (store P K rs key value) s tt t
      → P.get reader.client (path_of (b ∷ rest)) t.world ≡ ((some got, none), u)
      → load P K reader other t ≡ (ok value, record t { world = u })
  store-load F reader other value got s t u ready nothing short same_place opens r replied =
      let (j, score, m, encoded, done) = store-HasStored value s t ready nothing r in
      let (sd, read, decoded, _) =
        encode-decode P K F rs.config reader.config key other value j score s m short
          (λ sd e. opens j sd done.value_at e) encoded in
      load-stored P V L K reader other value j got sd t u
        (ap (V.string_at t.world) same_place ∙ done.value_at) read decoded
        (ap (λ k. P.get reader.client k t.world) same_place ∙ replied)
