-- ===== src/Observer/Certificate.antt =====
-- certificate_observer.go: PEM blocks and the fingerprints of a certificate.
use caddy_storage_redis.Prelude.{
  ℕ, zero, suc, ◌+◌, ◌-◌, ◌%◌, ◌^◌, Bytes, List, [], ◌∷◌, ◌++◌, Bool, true, false, not, ◌&&◌, ◌||◌,
  Option, none, some, if◌then◌else◌, equal, is_empty, codes, length, ltb, leb, ◌==◌, take, String,
}
use caddy_storage_redis.Go.Strings.{has_prefix, trim_suffix}
use caddy_storage_redis.Go.Hex.{encode_to_string}
use caddy_storage_redis.Go.Strconv.{ℤ, pos, negsuc}

-- `pem.Block`; of the headers only their number is looked at.
pub record Block : Type 0 where
  pub type : Bytes
  pub headers : ℕ
  pub bytes : Bytes

-- The named curves that crypto/x509 knows.
pub data Curve : Type 0 where
  p224 p256 p384 p521 : Curve

-- The public keys that crypto/x509 gives; a `*big.Int` may be nil.
pub data PublicKey : Type 0 where
  ecdsa : Curve → Option ℤ → Option ℤ → PublicKey
  rsa : Option ℤ → ℤ → PublicKey
  other : PublicKey

-- `pkix.Extension`
pub record Extension : Type 0 where
  pub id : List ℕ
  pub value : Bytes

pub record Certificate : Type 0 where
  pub raw : Bytes
  pub extensions : List Extension
  pub public_key : PublicKey

-- `asn1.RawValue`
pub record RawValue : Type 0 where
  pub class : ℕ
  pub tag : ℕ
  pub is_compound : Bool
  pub bytes : Bytes

-- What the standard library's decoders and hashes give. `none` is a nil block, or an error.
pub record Decoders : Type 0 where
  pub trim_space : Bytes → Bytes
  pub pem_decode : Bytes → Option (Block × Bytes)
  pub parse_certificate : Bytes → Option Certificate
  pub unmarshal_raw : Bytes → Option (RawValue × Bytes)
  pub marshal_pkix_public_key : PublicKey → Option Bytes
  pub is_on_curve : Curve → ℤ → ℤ → Bool
  pub sha256 : Bytes → Bytes

abbrev pub begin_marker : Bytes
begin_marker = codes "-----BEGIN "

-- `bytes.Count` of a text that does not overlap itself.
unfoldable pub count_of : Bytes → Bytes → ℕ
unfolding has_prefix
count_of marker [] = if has_prefix [] marker then 1 else 0
count_of marker (c ∷ s) = (if has_prefix (c ∷ s) marker then 1 else 0) + count_of marker s

-- The bytes before the first newline, if there is one.
unfoldable pub first_line : Bytes → Option Bytes
first_line [] = none
first_line (c ∷ s) =
    let rest = first_line s in
    if c == 10 then some [] else elim rest [ none ↦ none | some l ↦ some (c ∷ l) ]

-- The size of an integer, without its sign.
abbrev pub magnitude : ℤ → ℕ
magnitude (pos n) = n
magnitude (negsuc n) = n + 1

abbrev pub is_odd_exponent : ℤ → Bool
is_odd_exponent (pos e) = leb 3 e && leb e 2147483647 && (e % 2 == 1)
is_odd_exponent (negsuc e) = false

-- `BitLen() >= 2048 && BitLen() <= 4096`
unfoldable pub has_rsa_size : ℤ → Bool
has_rsa_size n = leb (2 ^ 2047) (magnitude n) && ltb (magnitude n) (2 ^ 4096)

module _ (D : Decoders) where
  -- `fingerprint`
  unfoldable pub fingerprint : Bytes → Bytes
  fingerprint b = encode_to_string (D.sha256 b)

  -- The consumed text is the block that it begins with.
  is_first_block : Block → Bytes → Bool
  unfolding first_line count_of has_prefix trim_suffix
  is_first_block block consumed = elim (first_line consumed) [
    | none ↦ false
    | some line ↦
        (count_of begin_marker consumed == 1)
        && equal (trim_suffix 13 line) (begin_marker ++ (block.type ++ codes "-----"))
  ]

  decoded_block : Bytes → Option (Block × Bytes) → Option (Block × Bytes)
  unfolding is_first_block
  decoded_block b none = none
  decoded_block b (some (block, rest)) =
      if not (block.headers == 0) || not (is_first_block block (take (length b - length rest) b))
      then none
      else some (block, D.trim_space rest)

  -- `decodePEM`
  unfoldable pub decode_pem : Bytes → Option (Block × Bytes)
  unfolding decoded_block has_prefix
  decode_pem b =
      let trimmed = D.trim_space b in
      if has_prefix trimmed begin_marker then decoded_block trimmed (D.pem_decode trimmed) else none

  -- `supportedPublicKey`
  unfoldable pub supported_public_key : PublicKey → Bool
  unfolding has_rsa_size
  supported_public_key (ecdsa p224 x y) = false
  supported_public_key (ecdsa c (some x) (some y)) = D.is_on_curve c x y
  supported_public_key (ecdsa c x y) = false
  supported_public_key (rsa none e) = false
  supported_public_key (rsa (some n) e) = has_rsa_size n && is_odd_exponent e
  supported_public_key other = false

  -- A general name that is the host name, as the one element of the sequence.
  is_dns_name : Bytes → Option (RawValue × Bytes) → Bool
  is_dns_name hostname none = false
  is_dns_name hostname (some (name, rest)) =
      is_empty rest
      && (name.class == 2)
      && (name.tag == 2)
      && not name.is_compound
      && equal name.bytes hostname

  is_names : Bytes → Option (RawValue × Bytes) → Bool
  unfolding is_dns_name
  is_names hostname none = false
  is_names hostname (some (sequence, rest)) =
      (is_empty rest && (sequence.class == 0) && (sequence.tag == 16) && sequence.is_compound)
      && is_dns_name hostname (D.unmarshal_raw sequence.bytes)

  same_id : List ℕ → List ℕ → Bool
  same_id a b = equal a b

  -- `singleHostnameSAN`, on the extensions
  unfoldable pub single_hostname_san : List Extension → Bytes → Bool
  unfolding is_names same_id equal
  single_hostname_san [] hostname = false
  single_hostname_san (x ∷ xs) hostname =
      let rest = single_hostname_san xs hostname in
      if same_id x.id (2 ∷ 5 ∷ 29 ∷ 17 ∷ [])
      then is_names hostname (D.unmarshal_raw x.value)
      else rest

  abbrev pub is_type : String → Block → Bool
  is_type t block = equal block.type (codes t)

  is_certificate : Block → Bool
  is_certificate block =
      is_type "CERTIFICATE" block
      && (elim (D.parse_certificate block.bytes) [ none ↦ false | some c ↦ true ])

  -- The loop over the rest of a chain: at most seven more certificates.
  unfoldable pub is_chain : ℕ → Bytes → Bool
  unfolding decode_pem is_certificate
  is_chain n [] = true
  is_chain zero (c ∷ rest) = false
  is_chain (suc n) (c ∷ rest) = elim (decode_pem (c ∷ rest)) [
    | none ↦ false
    | some (next, more) ↦ is_certificate next && is_chain n more
  ]

  -- What is made of the first certificate.
  unfoldable pub leaf_fingerprints : Bytes → Bytes → Option Certificate → Bytes × Bytes
  unfolding single_hostname_san supported_public_key is_chain fingerprint
  leaf_fingerprints hostname rest none = ([], [])
  leaf_fingerprints hostname rest (some leaf) =
      if not (single_hostname_san leaf.extensions hostname)
        || not (supported_public_key leaf.public_key)
        || not (is_chain 7 rest)
      then ([], [])
      else elim (D.marshal_pkix_public_key leaf.public_key) [
        | none ↦ ([], [])
        | some pub_key ↦ (fingerprint leaf.raw, fingerprint pub_key)
      ]

  -- `certificateFingerprints`
  unfoldable pub certificate_fingerprints : Bytes → Bytes → Bytes × Bytes
  unfolding decode_pem leaf_fingerprints
  certificate_fingerprints b hostname =
      if ltb 65536 (length b) then ([], []) else elim (decode_pem b) [
        | none ↦ ([], [])
        | some (block, rest) ↦
            if is_type "CERTIFICATE" block
            then leaf_fingerprints hostname rest (D.parse_certificate block.bytes)
            else ([], [])
      ]
