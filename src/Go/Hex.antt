-- ===== src/Go/Hex.antt =====
-- Package `encoding/hex`.
use caddy_storage_redis.Prelude.{ℕ, ◌+◌, ◌/◌, ◌%◌, Bytes, [], ◌∷◌, ltb, if◌then◌else◌}

abbrev pub hex_digit : ℕ → ℕ
hex_digit d = if ltb d 10 then 48 + d else 87 + d

-- `hex.EncodeToString`
unfoldable pub encode_to_string : Bytes → Bytes
encode_to_string [] = []
encode_to_string (c ∷ s) = hex_digit (c / 16) ∷ hex_digit (c % 16) ∷ encode_to_string s
