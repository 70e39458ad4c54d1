-- ===== src/Reporter/Identifier.antt =====
-- certificate_reporter.go: `certificateUUID`, `validCertificateUUID` and `validBearer`.
use caddy_storage_redis.Prelude.{
  ℕ, ◌+◌, ◌%◌, Bytes, [], ◌∷◌, ◌++◌, Bool, false, ◌&&◌, ◌||◌, none, some, if◌then◌else◌, equal,
  length, take, drop, ◌==◌,
}
use caddy_storage_redis.Go.Base64
use caddy_storage_redis.Go.Hex
use caddy_storage_redis.Health.{lower_hex}

-- `s[i]`, and 0 beyond the end, where Go would panic
abbrev pub byte_at : ℕ → Bytes → ℕ
byte_at i s = elim (drop i s) [ [] ↦ 0 | c ∷ r ↦ c ]

-- `strings.ReplaceAll(s, "-", "")`
unfoldable pub without_dashes : Bytes → Bytes
without_dashes [] = []
without_dashes (c ∷ s) = let rest = without_dashes s in if c == b'-' then rest else c ∷ rest

-- The version and the variant, `b[6]&0x0f|0x40` and `b[8]&0x3f|0x80`
abbrev pub with_version : ℕ → ℕ
with_version b = b % 16 + 64

abbrev pub with_variant : ℕ → ℕ
with_variant b = b % 64 + 128

-- The sixteen random bytes with both.
unfoldable pub stamp : Bytes → Bytes
stamp b =
    take 6 b ++ (with_version (byte_at 6 b) ∷ byte_at 7 b ∷ with_variant (byte_at 8 b) ∷ drop 9 b)

-- Groups of a hexadecimal text.
abbrev pub slice : ℕ → ℕ → Bytes → Bytes
slice from n h = take n (drop from h)

-- The five groups, with dashes between them.
abbrev pub grouped : Bytes → Bytes
grouped h =
    take 8 h
    ++ (b'-'
        ∷ (slice 8 4 h ++ (b'-' ∷ (slice 12 4 h ++ (b'-' ∷ (slice 16 4 h ++ (b'-' ∷ drop 20 h)))))))

-- `certificateUUID`, of the bytes that were read
unfoldable pub certificate_uuid : Bytes → Bytes
unfolding stamp Hex.encode_to_string
certificate_uuid b = grouped (Hex.encode_to_string (stamp b))

abbrev pub is_variant : ℕ → Bool
is_variant c = c == b'8' || c == b'9' || c == b'a' || c == b'b'

-- `validCertificateUUID`
unfoldable pub valid_certificate_uuid : Bytes → Bool
unfolding without_dashes lower_hex
valid_certificate_uuid s =
    (length s == 36)
    && (byte_at 8 s == b'-')
    && (byte_at 13 s == b'-')
    && (byte_at 18 s == b'-')
    && (byte_at 23 s == b'-')
    && (byte_at 14 s == b'4')
    && is_variant (byte_at 19 s)
    && lower_hex (without_dashes s) 32

-- `validBearer`
unfoldable pub valid_bearer : Bytes → Bool
unfolding Base64.decode_string Base64.encode_to_string equal
valid_bearer s = elim (Base64.decode_string s) [
  | none ↦ false
  | some b ↦ (length b == 32) && equal (Base64.encode_to_string b) s
]
