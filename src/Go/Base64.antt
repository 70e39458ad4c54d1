-- ===== src/Go/Base64.antt =====
-- Package `encoding/base64`: `RawURLEncoding`, which has no padding, and its strict decoder.
use caddy_storage_redis.Prelude.{
  ℕ, ◌+◌, ◌-◌, ◌*◌, ◌/◌, ◌%◌, Bytes, [], ◌∷◌, ◌&&◌, ◌||◌, Option, none, some, if◌then◌else◌, ltb,
  leb, ◌==◌,
}

-- The letter of six bits.
abbrev pub letter : ℕ → ℕ
letter n =
    if ltb n 26
    then b'A' + n
    else if ltb n 52
    then b'a' + (n - 26)
    else if ltb n 62
    then b'0' + (n - 52)
    else if n == 62
    then b'-'
    else b'_'

-- The six bits of a letter.
abbrev pub sextet : ℕ → Option ℕ
sextet c =
    if leb b'A' c && leb c b'Z'
    then some (c - b'A')
    else if leb b'a' c && leb c b'z'
    then some (c - b'a' + 26)
    else if leb b'0' c && leb c b'9'
    then some (c - b'0' + 52)
    else if c == b'-'
    then some 62
    else if c == b'_'
    then some 63
    else none

-- `EncodeToString`
unfoldable pub encode_to_string : Bytes → Bytes
encode_to_string [] = []
encode_to_string (a ∷ []) = letter (a / 4) ∷ letter (a % 4 * 16) ∷ []
encode_to_string (a ∷ b ∷ []) =
    letter (a / 4) ∷ letter (a % 4 * 16 + b / 16) ∷ letter (b % 16 * 4) ∷ []
encode_to_string (a ∷ b ∷ c ∷ s) =
    letter (a / 4)
    ∷ letter (a % 4 * 16 + b / 16)
    ∷ letter (b % 16 * 4 + c / 64)
    ∷ letter (c % 64)
    ∷ encode_to_string s

-- The bits of the letters; the decoder skips the ends of lines.
unfoldable pub sextets : Bytes → Option Bytes
sextets [] = some []
sextets (c ∷ s) =
    let rest = sextets s in
    if c == 10 || c == 13 then rest else elim (sextet c) [
      | none ↦ none
      | some n ↦ elim rest [ none ↦ none | some ns ↦ some (n ∷ ns) ]
    ]

-- Four letters make three bytes; a strict decoder refuses bits that are left over.
unfoldable pub quanta : Bytes → Option Bytes
quanta [] = some []
quanta (a ∷ []) = none
quanta (a ∷ b ∷ []) = if b % 16 == 0 then some ((a * 4 + b / 16) ∷ []) else none
quanta (a ∷ b ∷ c ∷ []) =
    if c % 4 == 0 then some ((a * 4 + b / 16) ∷ (b % 16 * 16 + c / 4) ∷ []) else none
quanta (a ∷ b ∷ c ∷ d ∷ s) = elim (quanta s) [
  | none ↦ none
  | some bytes ↦ some ((a * 4 + b / 16) ∷ (b % 16 * 16 + c / 4) ∷ (c % 4 * 64 + d) ∷ bytes)
]

-- `Strict().DecodeString`
unfoldable pub decode_string : Bytes → Option Bytes
unfolding sextets quanta
decode_string s = elim (sextets s) [ none ↦ none | some ns ↦ quanta ns ]
