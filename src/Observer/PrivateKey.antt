-- ===== src/Observer/PrivateKey.antt =====
-- certificate_observer.go: the fingerprint of the public half of a private key.
use caddy_storage_redis.Prelude.{
  ℕ, zero, ◌*◌, ◌^◌, Bytes, List, [], ◌∷◌, Bool, true, false, not, ◌&&◌, ◌||◌, Option, none, some,
  if◌then◌else◌, equal, is_empty, codes, length, ltb, leb, ◌==◌,
}
use caddy_storage_redis.Go.Strconv.{ℤ, pos, negsuc}
use caddy_storage_redis.Observer.Certificate.{
  Block, Curve, PublicKey, ecdsa, rsa, Decoders, decode_pem, supported_public_key, fingerprint,
}

-- The structure that an RSA key is decoded into, with its six numbers after the exponent.
pub record RawRsa : Type 0 where
  pub version : ℤ
  pub n : Option ℤ
  pub e : ℤ
  pub numbers : List (Option ℤ)
  pub extra : ℕ

-- The structure that an EC key is decoded into.
pub record RawEc : Type 0 where
  pub version : ℤ
  pub bit_length : ℕ
  pub public_key : Bytes

-- The structure that a PKCS #8 key is decoded into.
pub record RawInfo : Type 0 where
  pub version : ℤ
  pub algorithm : List ℕ
  pub private_key : Bytes

-- The private keys that crypto/x509 gives.
pub data PrivateKey : Type 0 where
  ec_key : Curve → Option ℤ → Option ℤ → Option ℤ → PrivateKey
  -- the public half, the number of primes, and what `Validate` says
  rsa_key : Option ℤ → ℤ → ℕ → Bool → PrivateKey
  other_key : PrivateKey

pub record KeyDecoders : Type 0 where
  pub decoders : Decoders
  pub unmarshal_rsa : Bytes → Option (RawRsa × Bytes)
  pub unmarshal_ec : Bytes → Option (RawEc × Bytes)
  pub unmarshal_info : Bytes → Option (RawInfo × Bytes)
  pub parse_pkcs1_private_key : Bytes → Option PrivateKey
  pub parse_ec_private_key : Bytes → Option PrivateKey
  pub parse_pkcs8_private_key : Bytes → Option PrivateKey
  -- `elliptic.Marshal`, the order of a curve, and the multiple of its base point
  pub marshal : Curve → Option ℤ → Option ℤ → Bytes
  pub order : Curve → ℕ
  pub scalar_base_mult : Curve → ℕ → ℕ × ℕ

abbrev is_zero : ℤ → Bool
is_zero (pos zero) = true
is_zero _ = false

abbrev is_one : ℤ → Bool
is_one (pos n) = n == 1
is_one (negsuc n) = false

-- A number of an RSA key that is there, positive, and of at most 4096 bits.
abbrev is_bounded : Option ℤ → Bool
is_bounded none = false
is_bounded (some (pos n)) = not (n == 0) && ltb n (2 ^ 4096)
is_bounded (some (negsuc n)) = false

unfoldable pub all_bounded : List (Option ℤ) → Bool
all_bounded [] = true
all_bounded (v ∷ vs) = is_bounded v && all_bounded vs

abbrev rsa_id : List ℕ
rsa_id = 1 ∷ 2 ∷ 840 ∷ 113549 ∷ 1 ∷ 1 ∷ 1 ∷ []

abbrev ec_id : List ℕ
ec_id = 1 ∷ 2 ∷ 840 ∷ 10045 ∷ 2 ∷ 1 ∷ []

abbrev is_coordinate : ℕ → Option ℤ → Bool
is_coordinate x (some (pos y)) = x == y
is_coordinate x _ = false

module _ (K : KeyDecoders) where
  -- `boundedRSA`
  unfoldable pub bounded_rsa : Bytes → Bool
  unfolding supported_public_key all_bounded
  bounded_rsa der = elim (K.unmarshal_rsa der) [
    | none ↦ false
    | some (raw, rest) ↦
        is_empty rest
        && is_zero raw.version
        && (raw.extra == 0)
        && supported_public_key K.decoders (rsa raw.n raw.e)
        && all_bounded raw.numbers
  ]

  -- `consistentECEncoding`
  unfoldable pub consistent_ec_encoding : Bytes → Curve → Option ℤ → Option ℤ → Bool
  unfolding equal
  consistent_ec_encoding der c x y = elim (K.unmarshal_ec der) [
    | none ↦ false
    | some (raw, rest) ↦
        let expected = K.marshal c x y in
        is_empty rest
        && is_one raw.version
        && ((raw.bit_length == 0)
            || ((raw.bit_length == length expected * 8) && equal raw.public_key expected))
  ]

  -- A parsed key beside the text that its point is checked against.
  abbrev Parsed : Type 0
  Parsed = Option (PrivateKey × Bytes)

  with_der : Bytes → Option PrivateKey → Parsed
  with_der der none = none
  with_der der (some k) = some (k, der)

  -- A key in PKCS #8, by its algorithm.
  parse_info : Bytes → Option (RawInfo × Bytes) → Parsed
  unfolding with_der bounded_rsa equal
  parse_info bytes none = none
  parse_info bytes (some (info, extra)) =
      if not (is_empty extra) || not (is_zero info.version)
      then none
      else if equal info.algorithm rsa_id && not (bounded_rsa info.private_key)
      then none
      else if not (equal info.algorithm rsa_id) && not (equal info.algorithm ec_id)
      then none
      else with_der info.private_key (K.parse_pkcs8_private_key bytes)

  -- The switch on the type of the block.
  unfoldable pub parse_block : Block → Parsed
  unfolding parse_info
  parse_block block =
      if equal block.type (codes "RSA PRIVATE KEY")
      then (if bounded_rsa block.bytes
          then with_der [] (K.parse_pkcs1_private_key block.bytes)
          else none)
      else if equal block.type (codes "EC PRIVATE KEY")
      then with_der block.bytes (K.parse_ec_private_key block.bytes)
      else if equal block.type (codes "PRIVATE KEY")
      then parse_info block.bytes (K.unmarshal_info block.bytes)
      else none

  -- The point of a scalar that is in range and gives the point of the key.
  point_of : Curve → Option ℤ → Option ℤ → Option ℤ → Option PublicKey
  point_of c x y (some (pos d)) =
      let (px, py) = K.scalar_base_mult c d in
      if d == 0 || leb (K.order c) d || not (is_coordinate px x) || not (is_coordinate py y)
      then none
      else some (ecdsa c (some (pos px)) (some (pos py)))
  point_of c x y _ = none

  -- The switch on the type of the key: the public half, if the key is a sound one.
  unfoldable pub public_of : Bytes → PrivateKey → Option PublicKey
  unfolding consistent_ec_encoding supported_public_key point_of
  public_of der (ec_key c x y d) =
      if not (consistent_ec_encoding der c x y)
        || not (supported_public_key K.decoders (ecdsa c x y))
      then none
      else point_of c x y d
  public_of der (rsa_key n e primes valid) =
      if supported_public_key K.decoders (rsa n e) && (primes == 2) && valid
      then some (rsa n e)
      else none
  public_of der other_key = none

  unfoldable pub fingerprint_of : Option PublicKey → Bytes
  unfolding fingerprint
  fingerprint_of none = []
  fingerprint_of (some k) = elim (K.decoders.marshal_pkix_public_key k) [
    | none ↦ []
    | some der ↦ fingerprint K.decoders der
  ]

  -- `privateKeyFingerprint`
  unfoldable pub private_key_fingerprint : Bytes → Bytes
  unfolding decode_pem parse_block public_of fingerprint_of
  private_key_fingerprint b = if ltb 8192 (length b) then [] else elim (decode_pem K.decoders b) [
    | none ↦ []
    | some (block, rest) ↦ if not (is_empty rest) then [] else elim (parse_block block) [
      | none ↦ []
      | some (k, der) ↦ fingerprint_of (public_of der k)
    ]
  ]
