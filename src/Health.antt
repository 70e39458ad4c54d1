-- ===== src/Health.antt =====
-- The checks that the certificate health code shares: `validHealthHostname`, `validHealthIssuer`
-- (certificate_observer.go), `lowerHex`, `validCertificateUUID` (certificate_reporter.go), and the
-- evidence that is handed on, `MismatchCandidate`.
pub mod Names
use caddy_storage_redis.Prelude.{
  ℕ, zero, suc, ◌+◌, ◌*◌, Bytes, List, [], ◌∷◌, ◌++◌, Bool, true, false, not, ◌&&◌, ◌||◌, Option,
  none, some, if◌then◌else◌, equal, is_empty, codes, length, ltb, leb, ◌==◌, map, contains,
}
use caddy_storage_redis.Go.Strings.{split, has_byte}
use caddy_storage_redis.Go.Strconv.{digits}
use caddy_storage_redis.Go.FilePath.{dot, dot_dot}

pub record MismatchCandidate : Type 0 where
  pub hostname : Bytes
  pub issuer_key : Bytes
  pub certificate_path : Bytes
  pub key_path : Bytes
  pub leaf_sha256 : Bytes
  pub certificate_spki_sha256 : Bytes
  pub key_spki_sha256 : Bytes

-- Every byte passes a test. A loop over runes that admits ASCII only is a loop over bytes.
unfoldable pub every : (ℕ → Bool) → Bytes → Bool
every p [] = true
every p (c ∷ s) = p c && every p s

abbrev pub is_lower : ℕ → Bool
is_lower c = leb b'a' c && leb c b'z'

abbrev pub is_upper : ℕ → Bool
is_upper c = leb b'A' c && leb c b'Z'

abbrev pub is_digit : ℕ → Bool
is_digit c = leb b'0' c && leb c b'9'

-- `strings.ToLower` on ASCII. What it makes of other runes is of no matter here: a label that has
-- one is refused.
unfoldable pub to_lower : Bytes → Bytes
to_lower s = map (λ c. if is_upper c then c + 32 else c) s

-- `net.ParseIP` finds an address. Only the form with dots is possible without a colon, and a name
-- with a colon is refused.
octet : Bytes → Bool
unfolding digits
octet [] = false
octet (c ∷ s) =
    (not (c == b'0') || is_empty s)
    && (elim (digits 0 (c ∷ s)) [ none ↦ false | some n ↦ leb n 255 ])

four_octets : List Bytes → Bool
unfolding octet
four_octets (a ∷ b ∷ c ∷ d ∷ []) = octet a && octet b && octet c && octet d
four_octets _ = false

unfoldable pub is_ipv4 : Bytes → Bool
unfolding four_octets split
is_ipv4 s = four_octets (split b'.' s)

abbrev pub is_label_byte : ℕ → Bool
is_label_byte c = is_lower c || is_digit c || c == b'-'

unfoldable pub last_is : ℕ → Bytes → Bool
last_is b [] = false
last_is b (c ∷ []) = c == b
last_is b (c ∷ d ∷ s) = last_is b (d ∷ s)

abbrev first_is : ℕ → Bytes → Bool
first_is b [] = false
first_is b (c ∷ s) = c == b

-- The body of the loop over the labels.
unfoldable pub valid_label : Bytes → Bool
unfolding every last_is
valid_label label =
    not (is_empty label || ltb 63 (length label) || first_is b'-' label || last_is b'-' label)
    && every is_label_byte label

unfoldable pub valid_labels : List Bytes → Bool
unfolding valid_label
valid_labels [] = true
valid_labels (l ∷ ls) = valid_label l && valid_labels ls

-- `validHealthHostname`
unfoldable pub valid_health_hostname : Bytes → Bool
unfolding to_lower is_ipv4 valid_labels split
valid_health_hostname s =
    not (is_empty s || ltb 253 (length s) || not (equal s (to_lower s)) || is_ipv4 s)
    && valid_labels (split b'.' s)

abbrev pub is_issuer_byte : ℕ → Bool
is_issuer_byte c = is_lower c || is_upper c || is_digit c || c == b'_' || c == b'-' || c == b'.'

-- `validHealthIssuer`
unfoldable pub valid_health_issuer : Bytes → Bool
unfolding every
valid_health_issuer s =
    not (is_empty s || equal s dot || equal s dot_dot || ltb 128 (length s))
    && every is_issuer_byte s

abbrev pub is_hex : ℕ → Bool
is_hex c = is_digit c || (leb b'a' c && leb c b'f')

-- `lowerHex`
unfoldable pub lower_hex : Bytes → ℕ → Bool
unfolding every
lower_hex s size = (length s == size) && every is_hex s
