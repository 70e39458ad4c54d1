-- ===== src/Health/Names.antt =====
-- Accepted host names and issuers are segments of a path.
use caddy_storage_redis.Prelude.{
  ℕ, ◌≤◌, Bytes, List, [], ◌∷◌, Bool, true, false, ◌≡◌, refl, ap, arith, All, equal, length,
  equal_iff, Bool-cases, inl, inr, ◌==◌, ==_iff,
}
use caddy_storage_redis.Go.Strings.{slash, split, has_byte, onto_head}
use caddy_storage_redis.Go.FilePath.{dot, dot_dot}
use caddy_storage_redis.Go.FilePath.Segments.{IsSegment}
use caddy_storage_redis.Health.{
  every, is_issuer_byte, is_label_byte, valid_labels, valid_health_hostname, valid_health_issuer,
}

every-no_slash :
    (p : ℕ → Bool) (s : Bytes) → p slash ≡ false → every p s ≡ true → has_byte slash s ≡ false
unfolding every has_byte
every-no_slash p [] k h = refl
every-no_slash p (c ∷ s) k h = elim (Bool-cases (c == slash)) [
  | inl e ↦ ground (arith, ap p ((==_iff c slash).0 e))
  | inr e ↦ ground (arith, every-no_slash p s k)
]

-- An accepted issuer is a segment of at most 128 bytes.
pub valid_health_issuer-IsSegment :
    (s : Bytes) → valid_health_issuer s ≡ true → IsSegment s × (length s ≤ 128)
unfolding valid_health_issuer
valid_health_issuer-IsSegment s h = (
  record {
    ne_empty = ground arith;
    no_slash = every-no_slash is_issuer_byte s refl (ground arith);
    ne_dot = ground arith;
    ne_dot_dot = ground arith;
  },
  ground arith,
)

valid_labels-no_slash :
    (ls : List Bytes) → valid_labels ls ≡ true → All (λ l. has_byte slash l ≡ false) ls
unfolding valid_labels
valid_labels-no_slash [] h = tt
valid_labels-no_slash (l ∷ ls) h =
    (every-no_slash is_label_byte l refl (ground arith), valid_labels-no_slash ls (ground arith))

onto_head-no_slash :
    (c : ℕ) (ls : List Bytes)
    → All (λ l. has_byte slash l ≡ false) (onto_head c ls)
    → ((c == slash) ≡ false) × All (λ l. has_byte slash l ≡ false) ls
unfolding has_byte
onto_head-no_slash c [] a = (ground arith, tt)
onto_head-no_slash c (l ∷ ls) a = (ground (arith, a.0), (ground (arith, a.0), a.1))

split-no_slash :
    (s : Bytes) → All (λ l. has_byte slash l ≡ false) (split b'.' s) → has_byte slash s ≡ false
unfolding split has_byte
split-no_slash [] a = refl
split-no_slash (c ∷ s) a = elim (Bool-cases (c == b'.')) [
  | inl e ↦ let r = rw e at a in ground (arith, split-no_slash s (r.1))
  | inr e ↦
      let (k, r) = onto_head-no_slash c (split b'.' s) (rw e at a) in
      ground (arith, split-no_slash s r)
]

dot-invalid : valid_health_hostname dot ≡ false
unfolding valid_health_hostname equal
dot-invalid = refl

dot_dot-invalid : valid_health_hostname dot_dot ≡ false
unfolding valid_health_hostname equal
dot_dot-invalid = refl

ne-invalid :
    (s t : Bytes)
    → valid_health_hostname s ≡ true
    → valid_health_hostname t ≡ false
    → equal s t ≡ false
ne-invalid s t h k = elim (Bool-cases (equal s t)) [
  | inl e ↦ cc (h, k, ap valid_health_hostname ((equal_iff s t).0 e))
  | inr e ↦ e
]

-- An accepted host name is a segment of at most 253 bytes.
pub valid_health_hostname-IsSegment :
    (s : Bytes) → valid_health_hostname s ≡ true → IsSegment s × (length s ≤ 253)
unfolding valid_health_hostname
valid_health_hostname-IsSegment s h = (
  record {
    ne_empty = ground arith;
    no_slash = split-no_slash s (valid_labels-no_slash (split b'.' s) (ground arith));
    ne_dot = ne-invalid s dot h dot-invalid;
    ne_dot_dot = ne-invalid s dot_dot h dot_dot-invalid;
  },
  ground arith,
)
