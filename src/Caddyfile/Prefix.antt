-- ===== src/Caddyfile/Prefix.antt =====
-- A key prefix that was accepted is empty or a path, and the keys below it are paths.
use mathlib.Core.Path.{subst}
use mathlib.Core.List.{append_assoc}
use caddy_storage_redis.Prelude.{
  ℕ, Bytes, List, [], ◌∷◌, ◌++◌, true, false, none, ◌≡◌, refl, sym, ◌∙◌, arith, is_empty, All, inl,
  inr, Bool-cases, Option-cases, ◌==◌,
}
use caddy_storage_redis.Go.Strings.{slash, split, has_byte, trim_left, trim_right}
use caddy_storage_redis.Go.Strings.Joined.{joined, IsSplit, split-IsSplit}
use caddy_storage_redis.Go.FilePath.{path_of}
use caddy_storage_redis.Go.FilePath.Segments.{IsPath}
use caddy_storage_redis.Exec.{ok}
use caddy_storage_redis.Config.{Config}
use caddy_storage_redis.Caddyfile.{bad_segment, normalize_key_prefix}

-- Segments of which none is bad, and in which no slash occurs.
all_segments :
    (ss : List Bytes) → bad_segment ss ≡ none → All (λ s. has_byte slash s ≡ false) ss → IsPath ss
unfolding bad_segment
all_segments [] h a = tt
all_segments (s ∷ ss) h a = (
  record {
    ne_empty = ground arith;
    no_slash = a.0;
    ne_dot = ground arith;
    ne_dot_dot = ground arith;
  },
  all_segments ss (ground arith) a.1,
)

-- The segments from the last to the first, before those above them.
abbrev onto : List Bytes → List Bytes → List Bytes
onto [] above = above
onto (s ∷ ss) above = onto ss (s ∷ above)

onto-IsPath : (ss above : List Bytes) → IsPath ss → IsPath above → IsPath (onto ss above)
onto-IsPath [] above h k = k
onto-IsPath (s ∷ ss) above h k = onto-IsPath ss (s ∷ above) h.1 (h.0, k)

path_of-onto :
    (t : Bytes) (ss : List Bytes) (b : Bytes) (rest : List Bytes)
    → path_of (onto (t ∷ ss) (b ∷ rest)) ≡ path_of (b ∷ rest) ++ slash ∷ joined (t ∷ ss)
unfolding path_of joined
path_of-onto t [] b rest = refl
path_of-onto t (u ∷ ss) b rest =
    path_of-onto u ss t (b ∷ rest)
    ∙ append_assoc (path_of (b ∷ rest)) (slash ∷ t) (slash ∷ joined (u ∷ ss))

path_of-joined : (s : Bytes) (ss : List Bytes) → path_of (onto (s ∷ ss) []) ≡ joined (s ∷ ss)
unfolding path_of joined
path_of-joined s [] = refl
path_of-joined s (t ∷ ss) = path_of-onto t ss s []

-- An accepted prefix: the segments that keys stand under.
pub record IsPrefix (p : Bytes) : Type 0 where
  pub above : List Bytes
  pub path : IsPath above
  pub text : p ≡ path_of above

IsSplit-IsPrefix : (p : Bytes) (ss : List Bytes) → IsSplit p ss → bad_segment ss ≡ none → IsPrefix p
unfolding IsSplit
IsSplit-IsPrefix p [] h good = absurd (h.1 refl)
IsSplit-IsPrefix p (s ∷ ss) h good = record {
  above = onto (s ∷ ss) [];
  path = onto-IsPath (s ∷ ss) [] (all_segments (s ∷ ss) good h.2) tt;
  text = sym h.0 ∙ sym (path_of-joined s ss);
}

is_empty-nil : (p : Bytes) → is_empty p ≡ true → p ≡ []
is_empty-nil [] h = refl
is_empty-nil (c ∷ p) h = cc

ok_text : {a b : Bytes} → ok a ≡ ok b → a ≡ b
ok_text h = ground arith

module _ (trim_space : Bytes → Bytes) (quote : Bytes → Bytes) where
  pub normalize_key_prefix-IsPrefix :
      (prefix p : Bytes) → normalize_key_prefix trim_space quote prefix ≡ ok p → IsPrefix p
  unfolding normalize_key_prefix path_of
  normalize_key_prefix-IsPrefix prefix p h =
      let is_slash = λ (c : ℕ). c == slash in
      let q = trim_right is_slash (trim_left is_slash (trim_space prefix)) in
      elim (Bool-cases (is_empty q)) [
        | inl nothing ↦ record {
          above = [];
          path = tt;
          text = sym (ok_text (rw nothing at h)) ∙ is_empty-nil q nothing;
        }
        | inr some_text ↦ elim (Option-cases (bad_segment (split slash q))) [
          | inl good ↦
              subst IsPrefix
                (ok_text
                  (rw (good, normalize_key_prefix) at (rw (some_text, normalize_key_prefix) at h)))
                (IsSplit-IsPrefix q (split slash q) (split-IsSplit q) good)
          | inr (s, bad) ↦ cc (rw (some_text, bad, normalize_key_prefix) at h)
        ]
      ]
