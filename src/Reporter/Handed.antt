-- ===== src/Reporter/Handed.antt =====
-- What the observer of a handshake hands on stands the checks of the reporter.
use mathlib.Core.Path.{subst}
use caddy_storage_redis.Prelude.{
  ℕ, ◌*◌, ◌/◌, ◌%◌, ◌<◌, Bytes, List, [], ◌∷◌, Bool, true, false, not, ◌&&◌, ◌||◌, Option, none,
  some, ◌≡◌, ◌≢◌, ◌⊎◌, ap, refl, ◌∙◌, All, equal, equal_iff, is_empty, length, ltb, arith,
  Bool-cases, Option-cases, inl, inr,
}
use caddy_storage_redis.Go.Hex.{hex_digit, encode_to_string}
use caddy_storage_redis.Health.{MismatchCandidate, every, is_hex, lower_hex, valid_health_hostname}
use caddy_storage_redis.Observer.{
  CertificateObserver, new_certificate_observer, Fingerprints, observe, observe_all,
}
use caddy_storage_redis.Observer.Evidence.{IsEvidence, observe_all-IsEvidence}
use caddy_storage_redis.Observer.Certificate.{
  Certificate, fingerprint, decode_pem, leaf_fingerprints, certificate_fingerprints,
  single_hostname_san, supported_public_key, is_chain, is_type,
}
use caddy_storage_redis.Observer.PrivateKey.{
  KeyDecoders, private_key_fingerprint, fingerprint_of, parse_block, public_of,
}
use caddy_storage_redis.Observer.Certificate.{PublicKey}
use caddy_storage_redis.Reporter.{is_acceptable}

-- The observer's own fingerprints.
abbrev pub fingerprints : KeyDecoders → Fingerprints
fingerprints K = record {
  of_certificate = certificate_fingerprints K.decoders;
  of_private_key = private_key_fingerprint K;
}

-- A hash has 32 bytes.
abbrev pub IsHash : Bytes → Type 0
IsHash h = (length h ≡ 32) × All (λ c. c < 256) h

hex_digit-is_hex : (d : ℕ) → d < 16 → is_hex (hex_digit d) ≡ true
hex_digit-is_hex d h = ground arith

pub encode_to_string-every :
    (h : Bytes) → All (λ c. c < 256) h → every is_hex (encode_to_string h) ≡ true
unfolding every encode_to_string
encode_to_string-every [] a = refl
encode_to_string-every (c ∷ s) a =
    rw (hex_digit-is_hex (c / 16) (omega (arith, a.0)), hex_digit-is_hex (c % 16) (omega arith))
      (encode_to_string-every s a.1)

pub length-encode_to_string : (h : Bytes) → length (encode_to_string h) ≡ 2 * length h
unfolding encode_to_string
length-encode_to_string [] = omega arith
length-encode_to_string (c ∷ s) = omega (arith, length-encode_to_string s)

pub encode_to_string-lower_hex : (h : Bytes) → IsHash h → lower_hex (encode_to_string h) 64 ≡ true
unfolding lower_hex
encode_to_string-lower_hex h (size, bytes) =
    ground (arith, length-encode_to_string h, encode_to_string-every h bytes, size)

-- No fingerprint, or one in hexadecimal digits.
abbrev IsPrint : Bytes → Type 0
IsPrint p = (p ≡ []) ⊎ (lower_hex p 64 ≡ true)

-- Those of a certificate and of its key; if the second is there, so is the first.
abbrev ArePrints : Bytes × Bytes → Type 0
ArePrints ps = (ps.1 ≡ []) ⊎ ((lower_hex ps.0 64 ≡ true) × (lower_hex ps.1 64 ≡ true))

six :
    {a b c d e f : Bool}
    → a ≡ true
    → b ≡ true
    → c ≡ true
    → d ≡ true
    → e ≡ true
    → f ≡ true
    → a && b && c && d && e && f ≡ true
six p q r s t u = rw (p, q, r, s, t, u) refl

differ : (s t : Bytes) → s ≢ t → not (equal s t) ≡ true
differ s t h = ground (arith, equal_iff s t)

module _ (K : KeyDecoders) (hashes : (b : Bytes) → IsHash (K.decoders.sha256 b)) where
  fingerprint-lower_hex : (b : Bytes) → lower_hex (fingerprint K.decoders b) 64 ≡ true
  unfolding fingerprint
  fingerprint-lower_hex b = encode_to_string-lower_hex _ (hashes b)

  leaf_fingerprints-ArePrints :
      (hostname rest : Bytes) (c : Option Certificate)
      → ArePrints (leaf_fingerprints K.decoders hostname rest c)
  unfolding leaf_fingerprints
  leaf_fingerprints-ArePrints hostname rest none = inl refl
  leaf_fingerprints-ArePrints hostname rest (some leaf) =
      let D = K.decoders in
      elim (Bool-cases (
        not (single_hostname_san D leaf.extensions hostname)
        || not (supported_public_key D leaf.public_key)
        || not (is_chain D 7 rest))) [
          | inl bad ↦ rw (bad, leaf_fingerprints) (inl refl)
          | inr good ↦ elim (Option-cases (D.marshal_pkix_public_key leaf.public_key)) [
            | inl wrong ↦ rw (good, wrong, leaf_fingerprints) (inl refl)
            | inr (k, there) ↦
                rw (good, there, leaf_fingerprints)
                  (inr (fingerprint-lower_hex leaf.raw, fingerprint-lower_hex k))
          ]
        ]

  certificate_fingerprints-ArePrints :
      (b hostname : Bytes) → ArePrints (certificate_fingerprints K.decoders b hostname)
  unfolding certificate_fingerprints
  certificate_fingerprints-ArePrints b hostname =
      let D = K.decoders in
      elim (Bool-cases (ltb 65536 (length b))) [
        | inl long ↦ rw (long, certificate_fingerprints) (inl refl)
        | inr short ↦ elim (Option-cases (decode_pem D b)) [
          | inl bad ↦ rw (short, bad, certificate_fingerprints) (inl refl)
          | inr ((block, rest), there) ↦ elim (Bool-cases (is_type D "CERTIFICATE" block)) [
            | inl good ↦
                rw (short, there, good, certificate_fingerprints)
                  (leaf_fingerprints-ArePrints hostname rest (D.parse_certificate block.bytes))
            | inr other ↦ rw (short, there, other, certificate_fingerprints) (inl refl)
          ]
        ]
      ]

  fingerprint_of-IsPrint : (k : Option PublicKey) → IsPrint (fingerprint_of K k)
  unfolding fingerprint_of
  fingerprint_of-IsPrint none = inl refl
  fingerprint_of-IsPrint (some k) = elim (Option-cases (K.decoders.marshal_pkix_public_key k)) [
    | inl wrong ↦ rw (wrong, fingerprint_of) (inl refl)
    | inr (der, there) ↦ rw (there, fingerprint_of) (inr (fingerprint-lower_hex der))
  ]

  private_key_fingerprint-IsPrint : (b : Bytes) → IsPrint (private_key_fingerprint K b)
  unfolding private_key_fingerprint
  private_key_fingerprint-IsPrint b = elim (Bool-cases (ltb 8192 (length b))) [
    | inl long ↦ rw (long, private_key_fingerprint) (inl refl)
    | inr short ↦ elim (Option-cases (decode_pem K.decoders b)) [
      | inl bad ↦ rw (short, bad, private_key_fingerprint) (inl refl)
      | inr ((block, rest), there) ↦ elim (Bool-cases (is_empty rest)) [
        | inr more ↦ rw (short, there, more, private_key_fingerprint) (inl refl)
        | inl ended ↦ elim (Option-cases (parse_block K block)) [
          | inl wrong ↦ rw (short, there, ended, wrong, private_key_fingerprint) (inl refl)
          | inr ((k, der), parsed) ↦
              rw (short, there, ended, parsed, private_key_fingerprint)
                (fingerprint_of-IsPrint (public_of K der k))
        ]
      ]
    ]
  ]

  evidence-IsAcceptable :
      (loads : List (Bytes × Bytes)) (hostname : Bytes) (c : MismatchCandidate)
      → valid_health_hostname hostname ≡ true
      → IsEvidence (fingerprints K) loads hostname c
      → is_acceptable c ≡ true
  unfolding is_acceptable
  evidence-IsAcceptable loads hostname c good e =
      let (text, _, cert) = e.cert in
      let (key_text, _, key) = e.key in
      let certs = subst ArePrints cert (certificate_fingerprints-ArePrints text hostname) in
      let keys = subst IsPrint key (private_key_fingerprint-IsPrint key_text) in
      let host : valid_health_hostname c.hostname ≡ true = ap valid_health_hostname e.host ∙ good in
      elim certs [
        | inl nothing ↦ cc (ap is_empty nothing, e.cert_known)
        | inr (leaf, certificate) ↦ elim keys [
          | inl nothing ↦ cc (ap is_empty nothing, e.key_known)
          | inr key_hex ↦
              six host e.issuer leaf certificate key_hex
                (differ (c.certificate_spki_sha256) (c.key_spki_sha256) e.differ)
        ]
      ]

  no_host :
      (o : CertificateObserver) (loads : List (Bytes × Bytes))
      → valid_health_hostname o.hostname ≡ false
      → (observe_all (fingerprints K) o loads).1 ≡ []
  unfolding observe_all observe
  no_host o [] bad = refl
  no_host o ((storage_key, text) ∷ loads) bad =
      let off : not o.has_sink || not (valid_health_hostname o.hostname) ≡ true =
        ground (arith, bad) in
      let same : (observe (fingerprints K) o storage_key text).0 ≡ o = rw (off, observe) refl in
      rw (off, observe_all, observe)
        (ap (λ after. (observe_all (fingerprints K) after loads).1) same ∙ no_host o loads bad)

  every_evidence-IsAcceptable :
      (loads : List (Bytes × Bytes)) (hostname : Bytes) (cs : List MismatchCandidate)
      → valid_health_hostname hostname ≡ true
      → All (IsEvidence (fingerprints K) loads hostname) cs
      → All (λ c. is_acceptable c ≡ true) cs
  every_evidence-IsAcceptable loads hostname [] good a = tt
  every_evidence-IsAcceptable loads hostname (c ∷ cs) good a = (
    evidence-IsAcceptable loads hostname c good a.0,
    every_evidence-IsAcceptable loads hostname cs good a.1,
  )

  -- If SHA-256 gives 32 bytes, then every candidate that an observer hands on, whatever was loaded
  -- in the handshake, stands the checks of the reporter's `TryEnqueue`.
  pub observe_all-IsAcceptable :
      (hostname : Bytes) (has_sink : Bool) (loads : List (Bytes × Bytes))
      → All
          (λ c. is_acceptable c ≡ true)
          (observe_all (fingerprints K) (new_certificate_observer hostname has_sink) loads).1
  observe_all-IsAcceptable hostname has_sink loads =
      let o = new_certificate_observer hostname has_sink in
      elim (Bool-cases (valid_health_hostname hostname)) [
        | inl good ↦
            every_evidence-IsAcceptable loads hostname _ good
              (observe_all-IsEvidence (fingerprints K) hostname has_sink loads)
        | inr bad ↦ rw (no_host o loads bad) tt
      ]
