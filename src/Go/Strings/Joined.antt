-- ===== src/Go/Strings/Joined.antt =====
-- `strings.Split` at a slash, undone by `strings.Join`.
use caddy_storage_redis.Prelude.{
  ℕ, Bytes, List, [], ◌∷◌, ◌++◌, false, ◌≡◌, ◌≢◌, refl, arith, All, if◌then◌else◌, ◌==◌, ==_iff,
}
use caddy_storage_redis.Go.Strings.{slash, split, has_byte, onto_head}

-- `strings.Join` with a slash.
unfoldable pub joined : List Bytes → Bytes
joined [] = []
joined (s ∷ []) = s
joined (s ∷ t ∷ ss) = s ++ slash ∷ joined (t ∷ ss)

unfoldable pub IsSplit : Bytes → List Bytes → Type 0
IsSplit p ss = (joined ss ≡ p) × (ss ≢ []) × All (λ s. has_byte slash s ≡ false) ss

cons-IsSplit :
    (c : ℕ) (p : Bytes) (ss : List Bytes)
    → IsSplit p ss
    → IsSplit (c ∷ p) (if c == slash then [] ∷ ss else onto_head c ss)
unfolding IsSplit joined has_byte
cons-IsSplit c p [] h = absurd (h.1 refl)
cons-IsSplit c p (s ∷ []) h = ground (arith, ==_iff c slash)
cons-IsSplit c p (s ∷ t ∷ ss) h = ground (arith, ==_iff c slash)

pub split-IsSplit : (p : Bytes) → IsSplit p (split slash p)
unfolding IsSplit split joined has_byte
split-IsSplit [] = (refl, (λ e. cc), (refl, tt))
split-IsSplit (c ∷ p) = cons-IsSplit c p (split slash p) (split-IsSplit p)
