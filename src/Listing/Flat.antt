-- ===== src/Listing/Flat.antt =====
-- `List` of one directory, on a sound index.
use mathlib.Core.Path.{subst}
use mathlib.Core.List.{map, append_assoc, append-nil}
use caddy_storage_redis.Prelude.{
  ℕ, suc, Bytes, List, [], ◌∷◌, ◌++◌, true, false, none, ◌≡◌, ◌≢◌, ◌↔◌, refl, sym, ap, ◌∙◌,
  contains, equal, equal_iff, Bool-cases, inl, inr, ◌⊎◌, arith,
}
use caddy_storage_redis.Go.FilePath.{path_of, join}
use caddy_storage_redis.Go.FilePath.Segments.{
  IsPath, IsSegment, path_of-injective, join_no_prefix, join-path_of,
}
use caddy_storage_redis.Exec.{ok, Exec, pure, ◌>>=◌}
use caddy_storage_redis.Platform.{Platform, reply}
use caddy_storage_redis.Platform.Redis.{Contents, IsLawful, Empty}
use caddy_storage_redis.Client.{Machine, RedisStorage, call}
use caddy_storage_redis.Reconnect.Laws.{with_reconnect_on_closed-ok}
use caddy_storage_redis.Directory.{prefix_key}
use caddy_storage_redis.Storage.Sound.{IsSound, IsName, file, directory}
use caddy_storage_redis.Directory.Index.{folder, trim_suffix-folder}
use caddy_storage_redis.Go.Strings.{slash, has_byte, trim_suffix}
use caddy_storage_redis.Listing.{Found, child_path, list_loop, range_of, list}

module _ (P : Platform) where
  list_loop_flat :
      (walk : Bytes → Exec (Machine P) Found) (dir : Bytes) (found keys : List Bytes)
      (s : Machine P)
      → list_loop P walk dir false found keys s ≡ (ok (found ++ map (child_path dir) keys, none), s)
  unfolding list_loop pure
  list_loop_flat walk dir found [] s = ap (λ z. (ok (z, none), s)) (sym (append-nil found))
  list_loop_flat walk dir found (k ∷ keys) s =
      list_loop_flat walk dir (found ++ child_path dir k ∷ []) keys s
      ∙ ap (λ z. (ok (z, none), s))
          (append_assoc found (child_path dir k ∷ []) (map (child_path dir) keys))

  -- What `List` gives for one directory, where the server replies with the names in its set.
  list_flat :
      (fuel : ℕ) (rs : RedisStorage P) (dir : Bytes) (keys : List Bytes) (s : Machine P)
      (u : P.World)
      → P.zrange rs.client (prefix_key rs.config dir) s.world ≡ (reply keys, u)
      → list P (suc fuel) rs dir false s
        ≡ (ok (map (child_path dir) keys, none), record s { world = u })
  unfolding list range_of call ◌>>=◌
  list_flat fuel rs dir keys s u replied =
      let t = record s { world = u } in
      let op = range_of P (prefix_key rs.config dir) in
      let ran : op rs.client s ≡ (ok keys, t) = rw replied refl in
      rw (with_reconnect_on_closed-ok P op rs s t keys ran)
        (list_loop_flat (λ path. list P fuel rs path false) dir [] keys t)

-- The children of a directory, on the server: under `above` stand the directory's segments with the
-- prefix, under `rel` those that the caller gave.
module _ (P : Platform) (V : Contents P) (w : P.World) (rel above : List Bytes) where
  -- A name that has a value, or is that of a directory in which something is listed.
  abbrev pub IsChild : Bytes → Type 0
  IsChild b = (V.string_at w (path_of (b ∷ above)) ≢ none) ⊎ (¬ Empty P V w (path_of (b ∷ above)))

  -- Exactly the children are listed, each as its path below the directory; where there is a value
  -- that the storage does not list, such as that of a lock, nothing is said.
  pub record IsListing (paths : List Bytes) : Type 0 where
    pub children :
        (b : Bytes)
        → IsSegment b
        → (V.string_at w (path_of (b ∷ above)) ≢ none → V.is_value (path_of (b ∷ above)) ≡ true)
        → (contains paths (path_of (b ∷ rel)) ≡ true) ↔ IsChild b
    pub no_others :
        (path : Bytes)
        → contains paths path ≡ true
        → (b : Bytes) × IsSegment b × (path ≡ path_of (b ∷ rel))

contains-map :
    (f : Bytes → Bytes) (keys : List Bytes) (k : Bytes)
    → contains keys k ≡ true
    → contains (map f keys) (f k) ≡ true
unfolding contains
contains-map f [] k e = cc
contains-map f (x ∷ keys) k e = elim (Bool-cases (equal x k)) [
  | inl here ↦ ground (arith, (equal_iff (f x) (f k)).1 (ap f ((equal_iff x k).0 here)))
  | inr other ↦ ground (arith, contains-map f keys k (ground arith))
]

-- An element of the image, and where it comes from.
contains-unmap :
    (f : Bytes → Bytes) (keys : List Bytes) (y : Bytes)
    → contains (map f keys) y ≡ true
    → (k : Bytes) × (contains keys k ≡ true) × (f k ≡ y)
unfolding contains
contains-unmap f [] y e = absurd (cc e)
contains-unmap f (x ∷ keys) y e = elim (Bool-cases (equal (f x) y)) [
  | inl here ↦ (x, ground (arith, equal_iff x x), ground (arith, equal_iff (f x) y))
  | inr other ↦
      let (k, listed, image) = contains-unmap f keys y (ground arith) in (k, ground arith, image)
]

trim-segment : (b : Bytes) → has_byte slash b ≡ false → trim_suffix slash b ≡ b
unfolding trim_suffix has_byte
trim-segment [] h = refl
trim-segment (c ∷ []) h = ground arith
trim-segment (c ∷ d ∷ b) h = ap (λ z. c ∷ z) (trim-segment (d ∷ b) (ground arith))

join_child :
    (rel : List Bytes) (b : Bytes)
    → IsPath rel
    → IsSegment b
    → join (path_of rel ∷ b ∷ []) ≡ path_of (b ∷ rel)
unfolding path_of
join_child [] b h g = join_no_prefix (b ∷ []) (g, tt)
join_child (c ∷ rel) b h g = join-path_of (b ∷ []) c rel (g, tt) h

-- The path of a name is that of the segment in it.
child_path-IsName :
    (rel : List Bytes) (k : Bytes)
    → IsPath rel
    → IsName k
    → (b : Bytes) × IsSegment b
      × ((k ≡ b) ⊎ (k ≡ folder b))
      × (child_path (path_of rel) k ≡ path_of (b ∷ rel))
child_path-IsName rel k h (file g) = (
  k,
  g,
  inl refl,
  ap (λ z. join (path_of rel ∷ z ∷ [])) (trim-segment k g.no_slash) ∙ join_child rel k h g,
)
child_path-IsName rel k h (directory b g e) = (
  b,
  g,
  inr e,
  ap (λ z. join (path_of rel ∷ z ∷ [])) (ap (trim_suffix slash) e ∙ trim_suffix-folder b)
      ∙ join_child rel b h g,
)

same_head : {a b : Bytes} {xs ys : List Bytes} → a ∷ xs ≡ b ∷ ys → a ≡ b
same_head e = ground arith

module _ (P : Platform) (V : Contents P) (w : P.World) (rel : List Bytes) (a : Bytes)
    (rest keys : List Bytes) (sound : IsSound P V w) (h : IsPath rel) (g : IsPath (a ∷ rest))
    (names : (m : Bytes) → contains keys m ≡ V.member w (path_of (a ∷ rest)) m) where
  -- What a name in the set stands for.
  named-IsChild :
      (k b : Bytes)
      → IsSegment b
      → V.member w (path_of (a ∷ rest)) k ≡ true
      → (k ≡ b) ⊎ (k ≡ folder b)
      → IsChild P V w rel (a ∷ rest) b
  named-IsChild k b gb e (inl same) =
      inl (sound.listed b a rest (gb, g) (ap (V.member w (path_of (a ∷ rest))) (sym same) ∙ e))
  named-IsChild k b gb e (inr same) = inr (
      sound.no_dangling.filled b a rest (gb, g)
        (ap (V.member w (path_of (a ∷ rest))) (sym same) ∙ e))

  -- A name in the set is listed as the path of its segment.
  member-listed :
      (k b : Bytes)
      → child_path (path_of rel) k ≡ path_of (b ∷ rel)
      → V.member w (path_of (a ∷ rest)) k ≡ true
      → contains (map (child_path (path_of rel)) keys) (path_of (b ∷ rel)) ≡ true
  member-listed k b e m =
      subst (λ p. contains (map (child_path (path_of rel)) keys) p ≡ true) e
        (contains-map (child_path (path_of rel)) keys k (names k ∙ m))

  listed-IsChild :
      (b : Bytes)
      → IsSegment b
      → contains (map (child_path (path_of rel)) keys) (path_of (b ∷ rel)) ≡ true
      → IsChild P V w rel (a ∷ rest) b
  listed-IsChild b gb e =
      let (k, listed, image) = contains-unmap (child_path (path_of rel)) keys _ e in
      let m = sym (names k) ∙ listed in
      let (c, gc, kind, place) = child_path-IsName rel k h (sound.names a k rest g m) in
      let same : c ≡ b =
        same_head (path_of-injective c b rel rel (gc, h) (gb, h) (sym place ∙ image)) in
      subst (IsChild P V w rel (a ∷ rest)) same (named-IsChild k c gc m kind)

  child-listed :
      (b : Bytes)
      → IsSegment b
      → (V.string_at w (path_of (b ∷ a ∷ rest)) ≢ none → V.is_value (path_of (b ∷ a ∷ rest)) ≡ true)
      → IsChild P V w rel (a ∷ rest) b
      → contains (map (child_path (path_of rel)) keys) (path_of (b ∷ rel)) ≡ true
  child-listed b gb own (inl held) =
      member-listed b b
        (ap (λ z. join (path_of rel ∷ z ∷ [])) (trim-segment b gb.no_slash) ∙ join_child rel b h gb)
        ((sound.values b a rest (gb, g) (own held) held).0)
  child-listed b gb own (inr filled) =
      elim (Bool-cases (contains (map (child_path (path_of rel)) keys) (path_of (b ∷ rel)))) [
        | inl listed ↦ listed
        | inr missing ↦ absurd (
            filled (λ m. elim (Bool-cases (V.member w (path_of (b ∷ a ∷ rest)) m)) [
              | inr out ↦ out
              | inl inside ↦ absurd (
                  cc (
                    missing,
                    member-listed (folder b) b
                        (ap (λ z. join (path_of rel ∷ z ∷ [])) (trim_suffix-folder b)
                          ∙ join_child rel b h gb)
                        (sound.linked.up b a rest m (gb, g) inside),
                  ))
            ]))
      ]

  listed-IsListing : IsListing P V w rel (a ∷ rest) (map (child_path (path_of rel)) keys)
  listed-IsListing = record {
    children = λ b gb own. (listed-IsChild b gb, child-listed b gb own);
    no_others = λ path e.
        let (k, listed, image) = contains-unmap (child_path (path_of rel)) keys path e in
        let (c, gc, _, place) =
          child_path-IsName rel k h (sound.names a k rest g (sym (names k) ∙ listed)) in
        (c, gc, sym image ∙ place);
  }

module _ (P : Platform) (V : Contents P) (L : IsLawful P V) where
  -- On a sound index `List` without recursion, of the directory of a clean relative path (no segment
  -- is empty, '.' or '..'; the root is the empty path) whose key with the prefix is the path of at
  -- least one segment, where ZRANGE is answered, returns without an error a list of paths. A path
  -- just below the directory, where there is no value that is not the storage's own, is in it exactly
  -- if its key has a value or some name is listed in a set of its own, and nothing is in it that is
  -- not the path of a segment just below the directory.
  pub list-IsSound :
      (fuel : ℕ) (rs : RedisStorage P) (rel : List Bytes) (a : Bytes) (rest keys : List Bytes)
      (s : Machine P) (u : P.World)
      → IsSound P V s.world
      → IsPath rel
      → IsPath (a ∷ rest)
      → prefix_key rs.config (path_of rel) ≡ path_of (a ∷ rest)
      → P.zrange rs.client (path_of (a ∷ rest)) s.world ≡ (reply keys, u)
      → (paths : List Bytes) × (list P (suc fuel) rs (path_of rel) false s
          ≡ (ok (paths, none), record s { world = u }))
        × IsListing P V s.world rel (a ∷ rest) paths
  list-IsSound fuel rs rel a rest keys s u sound h g place replied =
      let (_, names) = L.zrange_done rs.client (path_of (a ∷ rest)) keys s.world u replied in
      (
        map (child_path (path_of rel)) keys,
        list_flat P fuel rs (path_of rel) keys s u
            (ap (λ k. P.zrange rs.client k s.world) place ∙ replied),
        listed-IsListing P V s.world rel a rest keys sound h g names,
      )
