-- ===== src/Go/Strings.antt =====
-- Package `strings`, for the separators and prefixes that the program uses.
pub mod Joined
use caddy_storage_redis.Prelude.{
  ℕ, Bytes, List, [], ◌∷◌, Bool, true, false, ◌&&◌, ◌||◌, ◌==◌, if◌then◌else◌,
}

abbrev pub slash : ℕ
slash = b'/'

-- `strings.HasPrefix`
unfoldable pub has_prefix : Bytes → Bytes → Bool
has_prefix s [] = true
has_prefix [] (p ∷ ps) = false
has_prefix (c ∷ s) (p ∷ ps) = c == p && has_prefix s ps

-- `strings.Contains`
unfoldable pub has_substring : Bytes → Bytes → Bool
unfolding has_prefix
has_substring [] sub = has_prefix [] sub
has_substring (c ∷ s) sub = has_prefix (c ∷ s) sub || has_substring s sub

-- Whether a byte occurs.
unfoldable pub has_byte : ℕ → Bytes → Bool
has_byte b [] = false
has_byte b (c ∷ s) = c == b || has_byte b s

-- `append` of a byte to the first of the pieces.
abbrev pub onto_head : ℕ → List Bytes → List Bytes
onto_head c [] = (c ∷ []) ∷ []
onto_head c (s ∷ ss) = (c ∷ s) ∷ ss

-- `strings.Split` at a one-byte separator.
unfoldable pub split : ℕ → Bytes → List Bytes
split b [] = [] ∷ []
split b (c ∷ s) = let rest = split b s in if c == b then [] ∷ rest else onto_head c rest

-- `strings.TrimPrefix`: `s` without the prefix `p`, or `s` itself.
unfoldable pub after_prefix : Bytes → Bytes → Bytes
after_prefix s [] = s
after_prefix [] (p ∷ ps) = []
after_prefix (c ∷ s) (p ∷ ps) = after_prefix s ps

unfoldable pub trim_prefix : Bytes → Bytes → Bytes
unfolding has_prefix after_prefix
trim_prefix s p = if has_prefix s p then after_prefix s p else s

-- `strings.TrimSuffix` for a one-byte suffix.
unfoldable pub trim_suffix : ℕ → Bytes → Bytes
trim_suffix b [] = []
trim_suffix b (c ∷ []) = if c == b then [] else c ∷ []
trim_suffix b (c ∷ d ∷ s) = c ∷ trim_suffix b (d ∷ s)

-- `strings.TrimLeft` and `strings.TrimRight` for a set of bytes.
unfoldable pub trim_left : (ℕ → Bool) → Bytes → Bytes
trim_left p [] = []
trim_left p (c ∷ s) = let rest = trim_left p s in if p c then rest else c ∷ s

unfoldable pub trim_right : (ℕ → Bool) → Bytes → Bytes
trim_right p [] = []
trim_right p (c ∷ s) = elim (trim_right p s) [ [] ↦ if p c then [] else c ∷ [] | d ∷ t ↦ c ∷ d ∷ t ]
