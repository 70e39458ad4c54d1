-- ===== src/Caddyfile/Finalized.antt =====
-- What holds of a configuration that has been finalized.
use mathlib.Core.Path.{subst}
use caddy_storage_redis.Prelude.{
  ℕ, zero, suc, ◌≤◌, Bytes, List, [], ◌∷◌, Bool, true, false, ◌||◌, none, ◌≡◌, ◌⊎◌, inl, inr, refl,
  sym, ap, ◌∙◌, if◌then◌else◌, equal, is_empty, codes, length, take, ltb, leb, arith, Bool-cases,
  Option-cases,
}
use caddy_storage_redis.Go.Errors.{Error}
use caddy_storage_redis.Go.Strconv.{atoi}
use caddy_storage_redis.Exec.{Result, ok, err, out_of_fuel}
use caddy_storage_redis.Config.{
  Config, compression_none, compression_flate, compression_zlib, default_key_prefix, default_db,
}
use caddy_storage_redis.Caddyfile.{
  finalize_decryption_keys, validate_client_name, normalize_key_prefix, with_keys,
}
use caddy_storage_redis.Caddyfile.Final.{
  Outside, bind, each, is_number, pair_up, plain, final_timeout, final_encryption_key,
  final_client_name, final_compression, final_db, final_address, final_host, final_port,
  with_addresses, filled, finalize_configuration,
}

bind-ok {ℓ κ} :
    {A : Type ℓ} {B : Type κ} (r : Result A) (f : A → Result B) {b : B}
    → bind r f ≡ ok b
    → (a : A) × (r ≡ ok a) × (f a ≡ ok b)
unfolding bind
bind-ok (ok a) f h = (a, refl, h)
bind-ok (err e) f h = cc
bind-ok out_of_fuel f h = cc

length-each :
    (f : Bytes → Result Bytes) (vs ws : List Bytes) → each f vs ≡ ok ws → length ws ≡ length vs
unfolding each
length-each f [] ws h = let same : [] ≡ ws = cc h in ap length (sym same)
length-each f (v ∷ vs) ws h =
    let (w, e, k) = bind-ok (f v) _ h in
    let (rest, more, last) = bind-ok (each f vs) _ k in
    let same : w ∷ rest ≡ ws = cc last in ap length (sym same) ∙ ap suc (length-each f vs rest more)

-- The longer of two lengths.
abbrev pub longer : ℕ → ℕ → ℕ
longer a b = if leb a b then b else a

length-pair_up :
    (join : Bytes → Bytes → Bytes) (h p : Bytes) (hs ps : List Bytes)
    → length (pair_up join h p hs ps) ≡ longer (length hs) (length ps)
unfolding pair_up
length-pair_up join h p [] [] = ground arith
length-pair_up join h p (x ∷ hs) [] = ground (arith, length-pair_up join x p hs [])
length-pair_up join h p [] (y ∷ ps) = ground (arith, length-pair_up join h y [] ps)
length-pair_up join h p (x ∷ hs) (y ∷ ps) = ground (arith, length-pair_up join x y hs ps)

-- As many addresses as there were, or as many as the longer of the lists they are made of.
abbrev pub count_of : List Bytes → List Bytes → List Bytes → ℕ
count_of [] host port = longer (length host) (length port)
count_of (a ∷ more) host port = length (a ∷ more)

count_of-lengths :
    (a b h i p q : List Bytes)
    → length a ≡ length b
    → length h ≡ length i
    → length p ≡ length q
    → count_of a h p ≡ count_of b i q
count_of-lengths [] [] h i p q e f g = ground (arith, e, f, g)
count_of-lengths [] (b ∷ bs) h i p q e f g = ground (arith, e)
count_of-lengths (a ∷ as_more) [] h i p q e f g = ground (arith, e)
count_of-lengths (a ∷ as_more) (b ∷ bs) h i p q e f g = e

-- A configuration that `finalizeConfiguration` leaves.
pub record IsFinal (X : Outside) (given final : Config) : Type 0 where
  pub key_prefix :
      normalize_key_prefix X.trim_space X.quote (X.replace_all given.key_prefix default_key_prefix)
      ≡ ok final.key_prefix
  pub timeout : (is_empty final.timeout || is_number false (atoi final.timeout)) ≡ true
  pub encryption_key : (is_empty final.encryption_key ≡ true) ⊎ (length final.encryption_key ≡ 32)
  pub client_name : validate_client_name final.client_name ≡ none
  pub compression :
      (final.compression ≡ compression_none)
      ⊎ ((final.compression ≡ compression_flate) ⊎ (final.compression ≡ compression_zlib))
  pub db : is_number false (atoi final.db) ≡ true

ok-lem {ℓ} : {A : Type ℓ} {a b : A} → ok a ≡ ok b → a ≡ b
ok-lem h = cc h

-- A test that has been passed.
if-ok :
    (c : Bool) (a w : Bytes) (e : Error) → (if c then ok a else err e) ≡ ok w → (c ≡ true) × (a ≡ w)
if-ok true a w e h = (refl, ok-lem h)
if-ok false a w e h = cc h

length-take_all : (n : ℕ) (s : Bytes) → n ≤ length s → length (take n s) ≡ n
length-take_all zero s h = refl
length-take_all (suc n) [] h = omega (arith, h)
length-take_all (suc n) (c ∷ s) h = ap suc (length-take_all n s (omega (arith, h)))

list-cases : (l : List Bytes) → (l ≡ []) ⊎ ((a : Bytes) × (m : List Bytes) × (l ≡ a ∷ m))
list-cases [] = inl refl
list-cases (a ∷ m) = inr (a, m, refl)

-- The keys for decryption do not change the one for encryption.
with_keys-encryption_key :
    (replace : Bytes → Bytes) (number : ℕ → Bytes) (rs out : Config) (r : Result (List Bytes))
    → with_keys replace number rs r ≡ ok out
    → out.encryption_key ≡ rs.encryption_key
unfolding with_keys
with_keys-encryption_key replace number rs out (ok ks) h =
    ap (λ (c : Config). c.encryption_key) (sym (ok-lem h))
with_keys-encryption_key replace number rs out (err e) h = cc h
with_keys-encryption_key replace number rs out out_of_fuel h = cc h

finalize_decryption_keys-encryption_key :
    (replace : Bytes → Bytes) (number : ℕ → Bytes) (rs out : Config)
    → finalize_decryption_keys replace number rs ≡ ok out
    → out.encryption_key ≡ rs.encryption_key
unfolding finalize_decryption_keys
finalize_decryption_keys-encryption_key replace number rs out h =
    elim (list-cases rs.decryption_keys) [
      | inl no_keys ↦
          ap (λ (c : Config). c.encryption_key)
            (sym (ok-lem (rw (no_keys, finalize_decryption_keys) at h)))
      | inr (k, ks, some_keys) ↦ elim (Bool-cases (is_empty rs.encryption_key)) [
        | inl missing ↦ cc (rw (some_keys, missing, finalize_decryption_keys) at h)
        | inr needed ↦
            with_keys-encryption_key replace number rs out _
              (rw (some_keys, needed, finalize_decryption_keys) at h)
      ]
    ]

module _ (X : Outside) where
  with_addresses-IsFinal :
      (given rs : Config) → IsFinal X given rs → IsFinal X given (with_addresses X rs)
  unfolding with_addresses
  with_addresses-IsFinal given rs i = elim (list-cases rs.address) [
    | inl no_address ↦
        rw (no_address, with_addresses)
          (record {
            key_prefix = i.key_prefix;
            timeout = i.timeout;
            encryption_key = i.encryption_key;
            client_name = i.client_name;
            compression = i.compression;
            db = i.db;
          })
    | inr (a, more, some_address) ↦ rw (some_address, with_addresses) i
  ]

  length-with_addresses :
      (rs : Config) → length (with_addresses X rs).address ≡ count_of rs.address rs.host rs.port
  unfolding with_addresses
  length-with_addresses rs = elim (list-cases rs.address) [
    | inl no_address ↦
        rw (no_address, with_addresses) (length-pair_up X.join_host_port [] [] rs.host rs.port)
    | inr (a, more, some_address) ↦ rw (some_address, with_addresses) (rw some_address refl)
  ]

  final_timeout_lem :
      (v w : Bytes) → final_timeout X v ≡ ok w → (is_empty w || is_number false (atoi w)) ≡ true
  unfolding final_timeout
  final_timeout_lem v w h =
      let (test, same) = if-ok _ (plain X v) w _ h in
      ap (λ x. is_empty x || is_number false (atoi x)) (sym same) ∙ test

  final_encryption_key_lem :
      (v w : Bytes) → final_encryption_key X v ≡ ok w → (is_empty w ≡ true) ⊎ (length w ≡ 32)
  unfolding final_encryption_key
  final_encryption_key_lem v w h = elim (Bool-cases (is_empty v)) [
    | inl empty ↦
        let same : v ≡ w = ok-lem (rw (empty, final_encryption_key) at h) in
        inl (ap is_empty (sym same) ∙ empty)
    | inr given ↦ elim (Bool-cases (ltb (length (plain X v)) 32)) [
      | inl short ↦ cc (rw (given, short, final_encryption_key) at h)
      | inr long ↦
          let same : take 32 (plain X v) ≡ w =
            ok-lem (rw (given, long, final_encryption_key) at h) in
          inr (ap length (sym same) ∙ length-take_all 32 (plain X v) (ground (arith, long)))
    ]
  ]

  final_client_name_lem :
      (v w : Bytes) → final_client_name X v ≡ ok w → validate_client_name w ≡ none
  unfolding final_client_name
  final_client_name_lem v w h = elim (Option-cases (validate_client_name (plain X v))) [
    | inl good ↦
        let same : plain X v ≡ w = ok-lem (rw (good, final_client_name) at h) in
        ap validate_client_name (sym same) ∙ good
    | inr (e, bad) ↦ cc (rw (bad, final_client_name) at h)
  ]

  final_compression_lem :
      (v w : Bytes)
      → final_compression X v ≡ ok w
      → (w ≡ compression_none) ⊎ ((w ≡ compression_flate) ⊎ (w ≡ compression_zlib))
  unfolding final_compression
  final_compression_lem v w h =
      let p = plain X v in
      elim (Bool-cases (equal p compression_none || equal p (codes "false"))) [
        | inl off ↦ inl (sym (ok-lem (rw (off, final_compression) at h)))
        | inr on ↦ elim (Bool-cases (equal p compression_flate || equal p (codes "true"))) [
          | inl flate ↦ inr (inl (sym (ok-lem (rw (on, flate, final_compression) at h))))
          | inr more ↦ elim (Bool-cases (equal p compression_zlib)) [
            | inl zlib ↦ inr (inr (sym (ok-lem (rw (on, more, zlib, final_compression) at h))))
            | inr bad ↦ cc (rw (on, more, bad, final_compression) at h)
          ]
        ]
      ]

  final_db_lem : (v w : Bytes) → final_db X v ≡ ok w → is_number false (atoi w) ≡ true
  unfolding final_db
  final_db_lem v w h =
      let (test, same) = if-ok _ (X.replace_all v default_db) w _ h in
      ap (λ x. is_number false (atoi x)) (sym same) ∙ test

  assembled-IsFinal :
      (given keyed : Config) (address host port : List Bytes)
      (timeout key_prefix encryption_key client_name compression db : Bytes)
      → final_timeout X given.timeout ≡ ok timeout
      → normalize_key_prefix X.trim_space X.quote
          (X.replace_all given.key_prefix default_key_prefix)
        ≡ ok key_prefix
      → final_encryption_key X given.encryption_key ≡ ok encryption_key
      → finalize_decryption_keys
          (plain X)
          X.number
          (record given { encryption_key = encryption_key })
        ≡ ok keyed
      → final_client_name X given.client_name ≡ ok client_name
      → final_compression X given.compression ≡ ok compression
      → final_db X given.db ≡ ok db
      → IsFinal X given (
          with_addresses X
            (filled X given keyed address host port timeout key_prefix client_name compression db))
  unfolding filled
  assembled-IsFinal given keyed address host port timeout key_prefix encryption_key client_name
        compression db timed prefixed encrypted keys named compressed numbered =
      let key_is =
        finalize_decryption_keys-encryption_key (plain X) X.number
          (record given { encryption_key = encryption_key }) keyed keys in
      with_addresses-IsFinal given
        (filled X given keyed address host port timeout key_prefix client_name compression db)
        (record {
          key_prefix = prefixed;
          timeout = final_timeout_lem given.timeout timeout timed;
          encryption_key =
              subst (λ k. (is_empty k ≡ true) ⊎ (length k ≡ 32)) (sym key_is)
                (final_encryption_key_lem given.encryption_key encryption_key encrypted);
          client_name = final_client_name_lem given.client_name client_name named;
          compression = final_compression_lem given.compression compression compressed;
          db = final_db_lem given.db db numbered;
        })

  length-filled :
      (given keyed : Config) (address host port : List Bytes)
      (timeout key_prefix client_name compression db : Bytes)
      → length
          (with_addresses X (
            filled X given keyed address host port timeout key_prefix client_name compression
              db)).address
        ≡ count_of address host port
  unfolding filled
  length-filled given keyed address host port timeout key_prefix client_name compression db =
      length-with_addresses
        (filled X given keyed address host port timeout key_prefix client_name compression db)

  -- After a success of finalizeConfiguration: the prefix is a normalized one, the timeout is empty
  -- or a number that is not negative, the key for encryption is empty or has 32 bytes, the client
  -- name is valid, the compression is one of the three modes, and the database a number that is not
  -- negative; there are as many addresses as were given, or, if none was, as many as the longer of
  -- the lists of hosts and ports.
  pub finalize_configuration-IsFinal :
      (given final : Config)
      → finalize_configuration X given ≡ ok final
      → IsFinal X given final
        × (length final.address ≡ count_of given.address given.host given.port)
  unfolding finalize_configuration
  finalize_configuration-IsFinal given final h =
      let (address, at, h1) = bind-ok _ _ h in
      let (host, hosts, h2) = bind-ok _ _ h1 in
      let (port, ports, h3) = bind-ok _ _ h2 in
      let (timeout, timed, h4) = bind-ok _ _ h3 in
      let (key_prefix, prefixed, h5) = bind-ok _ _ h4 in
      let (encryption_key, encrypted, h6) = bind-ok _ _ h5 in
      let (keyed, keys, h7) = bind-ok _ _ h6 in
      let (client_name, named, h8) = bind-ok _ _ h7 in
      let (compression, compressed, h9) = bind-ok _ _ h8 in
      let (db, numbered, last) = bind-ok _ _ h9 in
      let sizes =
        count_of-lengths address given.address host given.host port given.port
          (length-each (final_address X) given.address address at)
          (length-each (final_host X) given.host host hosts)
          (length-each (final_port X) given.port port ports) in
      (
        subst (IsFinal X given) (ok-lem last) (
            assembled-IsFinal given keyed address host port timeout key_prefix encryption_key
              client_name compression db timed prefixed encrypted keys named compressed numbered),
        ap (λ (c : Config). length c.address) (sym (ok-lem last))
            ∙ (length-filled given keyed address host port timeout key_prefix client_name
                  compression db
                ∙ sizes),
      )
