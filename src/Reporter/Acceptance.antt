-- ===== src/Reporter/Acceptance.antt =====
-- certificate_reporter.go: `parseCertificateAcceptance`.
use caddy_storage_redis.Prelude.{
  ℕ, zero, suc, ◌+◌, ◌*◌, Bytes, List, [], ◌∷◌, Bool, true, false, ◌&&◌, Option, none, some,
  if◌then◌else◌, equal, codes, length, ltb, leb, ◌==◌, contains,
}
use caddy_storage_redis.Go.Strconv.{ℤ, pos, negsuc}
use caddy_storage_redis.Reporter.{CertificateAcceptance, certificate_lifetime, second}
use caddy_storage_redis.Reporter.Identifier.{valid_certificate_uuid, valid_bearer}

-- What `Token` gives: a delimiter, a string, another value, the end, or another error.
pub data Token : Type 0 where
  delimiter : ℕ → Token
  text : Bytes → Token
  value end_of_input failure : Token

-- `json.Decoder` of encoding/json, and the RFC 3339 layout of package time
pub record Formats : Type 1 where
  pub Decoder : Type 0
  pub new_decoder : Bytes → Decoder
  pub token : Decoder → Token × Decoder
  pub more : Decoder → Bool
  -- `Decode` into a string or an int, that has a value before; `none` is an error
  pub decode_text : Bytes → Decoder → Option (Bytes × Decoder)
  pub decode_int : ℤ → Decoder → Option (ℤ × Decoder)
  pub parse_rfc3339 : Bytes → Option ℕ
  pub format_rfc3339 : ℕ → Bytes

abbrev pub empty_acceptance : CertificateAcceptance
empty_acceptance = record {
  report_id = [];
  verification_nonce = [];
  check_after_seconds = pos 0;
  expires_at = [];
}

abbrev pub is_thirty : ℤ → Bool
is_thirty (pos n) = n == 30
is_thirty (negsuc n) = false

-- A fifth key is a second one of its name, or another one.
abbrev pub members_fuel : ℕ
members_fuel = 5

module _ (J : Formats) where
  unfoldable pub with_text :
      (Bytes → CertificateAcceptance)
      → Option (Bytes × J.Decoder)
      → Option (CertificateAcceptance × J.Decoder)
  with_text f none = none
  with_text f (some (v, d)) = some (f v, d)

  unfoldable pub with_int :
      CertificateAcceptance → Option (ℤ × J.Decoder) → Option (CertificateAcceptance × J.Decoder)
  with_int a none = none
  with_int a (some (v, d)) = some (record a { check_after_seconds = v }, d)

  -- The switch on the key.
  unfoldable pub member :
      Bytes → CertificateAcceptance → J.Decoder → Option (CertificateAcceptance × J.Decoder)
  unfolding equal with_text with_int
  member key a d =
      if equal key (codes "report_id")
      then with_text (λ v. record a { report_id = v }) (J.decode_text a.report_id d)
      else if equal key (codes "verification_nonce")
      then with_text (λ v. record a { verification_nonce = v })
          (J.decode_text a.verification_nonce d)
      else if equal key (codes "check_after_seconds")
      then with_int a (J.decode_int a.check_after_seconds d)
      else if equal key (codes "expires_at")
      then with_text (λ v. record a { expires_at = v }) (J.decode_text a.expires_at d)
      else none

  -- The key of the next member, and what it holds.
  unfoldable pub next_member :
      List Bytes
      → CertificateAcceptance
      → Token × J.Decoder
      → Option (Bytes × CertificateAcceptance × J.Decoder)
  unfolding member contains
  next_member seen a (text key, d) =
      if contains seen key
      then none
      else elim (member key a d) [ none ↦ none | some (b, e) ↦ some (key, b, e) ]
  next_member seen a _ = none

  -- The loop over the members, with the keys seen. `none` is that the fuel has run out, `some none`
  -- that the text is refused.
  unfoldable pub members :
      ℕ
      → List Bytes
      → CertificateAcceptance
      → J.Decoder
      → Option (Option (List Bytes × CertificateAcceptance × J.Decoder))
  unfolding next_member
  members zero seen a d = none
  members (suc n) seen a d =
      if J.more d
      then elim (next_member seen a (J.token d)) [
        | none ↦ some none
        | some (key, b, e) ↦ members n (key ∷ seen) b e
      ]
      else some (some (seen, a, d))

  -- The object is closed, and nothing follows it.
  unfoldable pub closes : J.Decoder → Bool
  closes d =
      let (close, e) = J.token d in
      elim close [
        | end_of_input ↦ false
        | failure ↦ false
        | _ ↦ (elim (J.token e).0 [ end_of_input ↦ true | _ ↦ false ])
      ]

  -- The conditions on what was read.
  unfoldable pub is_sound : ℕ → List Bytes → CertificateAcceptance → Bool
  unfolding valid_certificate_uuid valid_bearer equal
  is_sound now seen a = elim (J.parse_rfc3339 a.expires_at) [
    | none ↦ false
    | some expires ↦
        (length seen == 4)
        && valid_certificate_uuid a.report_id
        && valid_bearer a.verification_nonce
        && is_thirty a.check_after_seconds
        && equal (J.format_rfc3339 expires) a.expires_at
        && ltb now expires
        && leb expires (now + (certificate_lifetime + 10 * second))
  ]

  unfoldable pub conclude :
      ℕ → Option (List Bytes × CertificateAcceptance × J.Decoder) → Option CertificateAcceptance
  unfolding closes is_sound
  conclude now none = none
  conclude now (some (seen, a, d)) = if closes d && is_sound now seen a then some a else none

  -- After the first token.
  unfoldable pub read_object : ℕ → Token × J.Decoder → Option (Option CertificateAcceptance)
  unfolding members conclude
  read_object now (delimiter c, d) =
      if c == b'{'
      then elim (members members_fuel [] empty_acceptance d) [
        | none ↦ none
        | some r ↦ some (conclude now r)
      ]
      else some none
  read_object now (_, d) = some none

  -- `parseCertificateAcceptance`; every error has the same text
  unfoldable pub parse_certificate_acceptance : Bytes → ℕ → Option (Option CertificateAcceptance)
  unfolding read_object
  parse_certificate_acceptance payload now = read_object now (J.token (J.new_decoder payload))
