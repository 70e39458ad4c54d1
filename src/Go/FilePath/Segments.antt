-- ===== src/Go/FilePath/Segments.antt =====
-- Package `path` on the paths that the program builds: clean relative ones, as lists of segments.
use mathlib.Core.List.{foldl, foldl-append, append_assoc}
use caddy_storage_redis.Prelude.{
  ℕ, Bytes, List, [], ◌∷◌, ◌++◌, Bool, false, ◌≡◌, refl, sym, ap, ◌∙◌, arith, ◌==◌, equal, is_empty,
  All, All-append, equal_iff, Bool-cases, inl, inr, length, ◌≤◌, ◌<◌, length-append,
}
use caddy_storage_redis.Go.Strings.{slash, split, has_byte, onto_head}
use caddy_storage_redis.Go.FilePath.{
  path_of, dot, dot_dot, clean_segment, render, clean, is_rooted, split_last, dir, base, join,
  strip_slashes,
}

-- A segment that `Clean` keeps.
pub record IsSegment (s : Bytes) : Type 0 where
  pub ne_empty : is_empty s ≡ false
  pub no_slash : has_byte slash s ≡ false
  pub ne_dot : equal s dot ≡ false
  pub ne_dot_dot : equal s dot_dot ≡ false

abbrev pub IsPath : List Bytes → Type 0
IsPath = All IsSegment

onto_head-split :
    (c : ℕ) (a : Bytes) (ys : List Bytes)
    → onto_head c (split slash a ++ ys) ≡ onto_head c (split slash a) ++ ys
unfolding split
onto_head-split c [] ys = refl
onto_head-split c (d ∷ a) ys = ground arith

split-append : (a b : Bytes) → split slash (a ++ (slash ∷ b)) ≡ split slash a ++ split slash b
unfolding split
split-append [] b = refl
split-append (c ∷ a) b = elim (Bool-cases (c == slash)) [
  | inl e ↦ rw (e, split-append a b)
  | inr e ↦ rw (e, split-append a b) (onto_head-split c a (split slash b))
]

split_lem : (s : Bytes) → has_byte slash s ≡ false → split slash s ≡ s ∷ []
unfolding split has_byte
split_lem [] h = refl
split_lem (c ∷ s) h = ground (arith, split_lem s)

clean_segment_lem :
    (rooted : Bool) (kept : List Bytes) (s : Bytes)
    → IsSegment s
    → clean_segment rooted kept s ≡ s ∷ kept
unfolding clean_segment
clean_segment_lem rooted kept s h = ground arith

clean_segment_empty : (rooted : Bool) (kept : List Bytes) → clean_segment rooted kept [] ≡ kept
unfolding clean_segment
clean_segment_empty rooted kept = refl

-- The loop of `Clean` over the text of a path keeps its segments.
pub clean_loop :
    (rooted : Bool) (b : Bytes) (rest : List Bytes)
    → IsPath (b ∷ rest)
    → foldl (clean_segment rooted) [] (split slash (path_of (b ∷ rest))) ≡ b ∷ rest
unfolding path_of
clean_loop rooted b [] h = rw (split_lem b h.0.no_slash) (clean_segment_lem rooted [] b h.0)
clean_loop rooted b (a ∷ rest) h =
    rw
      (
        split-append (path_of (a ∷ rest)) b,
        foldl-append,
        clean_loop rooted a rest h.1,
        split_lem b h.0.no_slash,
      )
      (clean_segment_lem rooted (a ∷ rest) b h.0)

path_of-not_empty :
    (b : Bytes) (rest : List Bytes) → IsPath (b ∷ rest) → is_empty (path_of (b ∷ rest)) ≡ false
unfolding path_of
path_of-not_empty b [] h = h.0.ne_empty
path_of-not_empty b (a ∷ rest) h = ground (arith, path_of-not_empty a rest h.1)

path_of-not_rooted :
    (b : Bytes) (rest : List Bytes) → IsPath (b ∷ rest) → is_rooted (path_of (b ∷ rest)) ≡ false
unfolding path_of has_byte
path_of-not_rooted b [] h = ground (arith, h.0.no_slash)
path_of-not_rooted b (a ∷ rest) h =
    ground (arith, path_of-not_empty a rest h.1, path_of-not_rooted a rest h.1)

slashed-not_rooted :
    (b : Bytes) (rest : List Bytes)
    → IsPath (b ∷ rest)
    → is_rooted (path_of (b ∷ rest) ++ slash ∷ []) ≡ false
slashed-not_rooted b rest h =
    ground (arith, path_of-not_empty b rest h, path_of-not_rooted b rest h)

-- A clean path is its own `Clean`.
pub clean-path_of :
    (b : Bytes) (rest : List Bytes)
    → IsPath (b ∷ rest)
    → clean (path_of (b ∷ rest)) ≡ path_of (b ∷ rest)
unfolding clean
clean-path_of b rest h = rw (path_of-not_rooted b rest h, clean_loop false b rest h)

-- A slash behind a path makes no difference to `Clean`.
clean-path_of-slash :
    (b : Bytes) (rest : List Bytes)
    → IsPath (b ∷ rest)
    → clean (path_of (b ∷ rest) ++ slash ∷ []) ≡ path_of (b ∷ rest)
unfolding clean
clean-path_of-slash b rest h =
    rw
      (
        slashed-not_rooted b rest h,
        split-append (path_of (b ∷ rest)) [],
        foldl-append,
        clean_loop false b rest h,
      )
      (unfold render in refl)

split_last_lem : (s : Bytes) → has_byte slash s ≡ false → split_last s ≡ ([], s)
unfolding split_last has_byte
split_last_lem [] h = refl
split_last_lem (c ∷ s) h = ground (arith, split_last_lem s)

append-not_empty : (p : Bytes) (c : ℕ) → is_empty (p ++ c ∷ []) ≡ false
append-not_empty [] c = refl
append-not_empty (d ∷ p) c = refl

split_last-append :
    (p b : Bytes) → has_byte slash b ≡ false → split_last (p ++ slash ∷ b) ≡ (p ++ slash ∷ [], b)
unfolding split_last
split_last-append [] b h = ground (arith, split_last_lem b h)
split_last-append (c ∷ p) b h = ground (arith, split_last-append p b h, append-not_empty p slash)

-- The directory of a path: the path of the segments before the last, or ".".
pub dir-path_of :
    (b : Bytes) (rest : List Bytes)
    → IsPath (b ∷ rest)
    → dir (path_of (b ∷ rest)) ≡ render false rest
unfolding dir path_of
dir-path_of b [] h = rw (split_last_lem b h.0.no_slash) (unfold clean in refl)
dir-path_of b (a ∷ rest) h =
    rw (split_last-append (path_of (a ∷ rest)) b h.0.no_slash)
      (unfold clean in clean-path_of-slash a rest h.1)

strip_slashes_lem : (s : Bytes) → has_byte slash s ≡ false → strip_slashes s ≡ s
unfolding strip_slashes has_byte
strip_slashes_lem [] h = refl
strip_slashes_lem (c ∷ s) h = ground (arith, strip_slashes_lem s)

strip_slashes-append :
    (p : Bytes) (c : ℕ) (b : Bytes)
    → has_byte slash (c ∷ b) ≡ false
    → strip_slashes (p ++ slash ∷ c ∷ b) ≡ p ++ slash ∷ c ∷ b
unfolding strip_slashes
strip_slashes-append [] c b h = ground (arith, strip_slashes_lem (c ∷ b) h)
strip_slashes-append (d ∷ []) c b h = ground (arith, strip_slashes-append [] c b h)
strip_slashes-append (d ∷ e ∷ p) c b h = ground (arith, strip_slashes-append (e ∷ p) c b h)

-- The base of a path: its last segment.
pub base-path_of :
    (b : Bytes) (rest : List Bytes) → IsPath (b ∷ rest) → base (path_of (b ∷ rest)) ≡ b
unfolding base path_of
base-path_of [] rest h = cc (h.0.ne_empty)
base-path_of (c ∷ b) [] h =
    rw (strip_slashes_lem (c ∷ b) h.0.no_slash, split_last_lem (c ∷ b) h.0.no_slash)
base-path_of (c ∷ b) (a ∷ rest) h = rw (
  path_of-not_empty (c ∷ b) (a ∷ rest) h,
  strip_slashes-append (path_of (a ∷ rest)) c b h.0.no_slash,
  split_last-append (path_of (a ∷ rest)) (c ∷ b) h.0.no_slash,
)

append-slash_not_empty : (p e : Bytes) → is_empty (p ++ slash ∷ e) ≡ false
append-slash_not_empty [] e = refl
append-slash_not_empty (c ∷ p) e = refl

join_two : (p e : Bytes) → is_empty p ≡ false → join (p ∷ e ∷ []) ≡ clean (p ++ slash ∷ e)
unfolding join
join_two p e h = rw (h, append-slash_not_empty p e)

pub path_of-append :
    (k : Bytes) (key : List Bytes) (b : Bytes) (prefix : List Bytes)
    → path_of ((k ∷ key) ++ b ∷ prefix) ≡ path_of (b ∷ prefix) ++ slash ∷ path_of (k ∷ key)
unfolding path_of
path_of-append k [] b prefix = refl
path_of-append k (a ∷ key) b prefix =
    rw (path_of-append a key b prefix) (append_assoc (path_of (b ∷ prefix)) _ _)

-- `Join` of two paths is the path of both.
pub join-path_of :
    (key : List Bytes) (b : Bytes) (prefix : List Bytes)
    → IsPath key
    → IsPath (b ∷ prefix)
    → join (path_of (b ∷ prefix) ∷ path_of key ∷ []) ≡ path_of (key ++ b ∷ prefix)
join-path_of [] b prefix k p =
    join_two _ _ (path_of-not_empty b prefix p) ∙ (unfold path_of in clean-path_of-slash b prefix p)
join-path_of (a ∷ key) b prefix k p =
    join_two _ _ (path_of-not_empty b prefix p)
    ∙ rw (← path_of-append a key b prefix)
        (clean-path_of a (key ++ b ∷ prefix) (All-append IsSegment (a ∷ key) (b ∷ prefix) k p))

-- `Join` with an empty prefix.
pub join_no_prefix : (key : List Bytes) → IsPath key → join ([] ∷ path_of key ∷ []) ≡ path_of key
unfolding join path_of
join_no_prefix [] k = refl
join_no_prefix (a ∷ key) k = rw (path_of-not_empty a key k) (unfold clean in clean-path_of a key k)

-- A path has at least as many bytes as segments.
pub length-path_of :
    (segments : List Bytes) → IsPath segments → length segments ≤ length (path_of segments)
unfolding path_of
length-path_of [] h = omega arith
length-path_of ([] ∷ []) h = cc (h.0.ne_empty)
length-path_of ((c ∷ b) ∷ []) h = omega arith
length-path_of (b ∷ a ∷ rest) h =
    omega (arith, length-append {0} (path_of (a ∷ rest)) (slash ∷ b), length-path_of (a ∷ rest) h.1)

-- A path has one list of segments.
pub path_of-injective :
    (b c : Bytes) (xs ys : List Bytes)
    → IsPath (b ∷ xs)
    → IsPath (c ∷ ys)
    → path_of (b ∷ xs) ≡ path_of (c ∷ ys)
    → b ∷ xs ≡ c ∷ ys
path_of-injective b c xs ys h k e =
    sym (clean_loop false b xs h)
    ∙ ap (λ p. foldl (clean_segment false) [] (split slash p)) e
    ∙ clean_loop false c ys k

pub path_of-not_dot :
    (b : Bytes) (rest : List Bytes) → IsPath (b ∷ rest) → equal (path_of (b ∷ rest)) dot ≡ false
unfolding path_of
path_of-not_dot b [] h = h.0.ne_dot
path_of-not_dot b (a ∷ rest) h = elim (Bool-cases (equal (path_of (b ∷ a ∷ rest)) dot)) [
  | inl e ↦ absurd (
      omega (
        arith,
        ap (λ (s : Bytes). length s) ((equal_iff _ _).0 e),
        length-path_of (b ∷ a ∷ rest) h,
      ))
  | inr e ↦ e
]

-- The path of a directory is shorter than a path in it.
pub path_of-shorter :
    (a : Bytes) (rest : List Bytes)
    → IsPath (a ∷ rest)
    → length (path_of rest) < length (path_of (a ∷ rest))
unfolding path_of
path_of-shorter [] rest h = cc (h.0.ne_empty)
path_of-shorter (c ∷ a) [] h = omega arith
path_of-shorter a (b ∷ rest) h = omega (arith, length-append {0} (path_of (b ∷ rest)) (slash ∷ a))
