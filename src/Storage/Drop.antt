-- ===== src/Storage/Drop.antt =====
-- A directory record and a value removed under one key keep the invariant.
use mathlib.Core.Path.{subst}
use caddy_storage_redis.Prelude.{
  Bytes, List, ◌∷◌, true, false, not, ◌&&◌, none, if◌then◌else◌, ◌≡◌, ◌≢◌, refl, sym, ap, ◌∙◌, inl,
  inr, arith, equal, equal_iff, Bool-cases,
}
use caddy_storage_redis.Go.FilePath.{path_of}
use caddy_storage_redis.Go.FilePath.Segments.{IsPath, path_of-injective}
use caddy_storage_redis.Platform.{Platform}
use caddy_storage_redis.Platform.Redis.{Contents, Empty}
use caddy_storage_redis.Directory.Index.{folder-ne-segment, Indexed, Indexed-grows}
use caddy_storage_redis.Directory.Removed.{Removed, Absent}
use caddy_storage_redis.Directory.Pruned.{Removed-Linked, Removed-NoDangling, Removed-Indexed}
use caddy_storage_redis.Storage.Sound.{IsSound}

module _ (P : Platform) (V : Contents P) (b : Bytes) (rest : List Bytes) (h : IsPath (b ∷ rest))
    (w v u : P.World) (sound : IsSound P V w) (free : Empty P V w (path_of (b ∷ rest)))
    (r : Removed P V w v b rest)
    (strings : (j : Bytes)
      → V.string_at u j ≡ (if equal (path_of (b ∷ rest)) j then none else V.string_at v j))
    (members : (j m : Bytes)
      → V.member u j m ≡ (not (equal (path_of (b ∷ rest)) j) && V.member v j m)) where
  drop-members : (j m : Bytes) → V.member u j m ≡ V.member v j m
  drop-members j m = elim (Bool-cases (equal (path_of (b ∷ rest)) j)) [
    | inr other ↦ ground (arith, members j m)
    | inl same ↦
        let lacks : V.member v j m ≡ false =
          subst (λ p. V.member v p m ≡ false) ((equal_iff _ j).0 same) (r.shrinks _ m (free m)) in
        ground (arith, members j m)
  ]

  drop-shrinks : (j m : Bytes) → V.member u j m ≡ true → V.member w j m ≡ true
  drop-shrinks j m e = elim (Bool-cases (V.member w j m)) [
    | inl held ↦ held
    | inr lacks ↦ cc (e, drop-members j m, r.shrinks j m lacks)
  ]

  pub drop-value : V.string_at u (path_of (b ∷ rest)) ≡ none
  drop-value =
      ground (arith, strings (path_of (b ∷ rest)), (equal_iff (path_of (b ∷ rest)) _).1 refl)

  -- A value that is left is not that of the key, and was there before.
  drop-other :
      (c : Bytes) (ys : List Bytes)
      → V.string_at u (path_of (c ∷ ys)) ≢ none
      → (V.string_at w (path_of (c ∷ ys)) ≢ none) × (rest ≡ ys → c ≢ b)
  drop-other c ys e = (
    (λ missing. e (ground (arith, strings (path_of (c ∷ ys)), r.strings (path_of (c ∷ ys))))),
    (λ same name.
        e (subst (λ p. V.string_at u (path_of p) ≡ none) (λ i. sym name i ∷ same i) drop-value)),
  )

  drop-values :
      (c a : Bytes) (ys : List Bytes)
      → IsPath (c ∷ a ∷ ys)
      → V.is_value (path_of (c ∷ a ∷ ys)) ≡ true
      → V.string_at u (path_of (c ∷ a ∷ ys)) ≢ none
      → Indexed P V u c (a ∷ ys)
  drop-values c a ys hp own e =
      let (old, other) = drop-other c (a ∷ ys) e in
      Indexed-grows P V v u (λ j m k. drop-members j m ∙ k) c (a ∷ ys)
        (Removed-Indexed P V w v b rest h r c (a ∷ ys) hp.1 other
          (λ x name. absurd (folder-ne-segment x c hp.0 (sym name)))
          (sound.values c a ys hp own old))

  -- The name of the key is not in the set above it.
  pub drop-unlisted :
      (a : Bytes) (ys : List Bytes) → rest ≡ a ∷ ys → V.member u (path_of (a ∷ ys)) b ≡ false
  drop-unlisted a ys same = drop-members _ b ∙ (subst (λ p. Absent P V v b p) same r.absent).0

  drop-listed :
      (c a : Bytes) (ys : List Bytes)
      → IsPath (c ∷ a ∷ ys)
      → V.member u (path_of (a ∷ ys)) c ≡ true
      → V.string_at u (path_of (c ∷ a ∷ ys)) ≢ none
  drop-listed c a ys hp e missing =
      elim (Bool-cases (equal (path_of (b ∷ rest)) (path_of (c ∷ a ∷ ys)))) [
        | inl same ↦
            let keys = path_of-injective b c rest (a ∷ ys) h hp ((equal_iff _ _).0 same) in
            let same_rest : rest ≡ a ∷ ys = cc keys in
            let name : b ≡ c = cc keys in
            cc (e, drop-unlisted a ys same_rest, ap (V.member u (path_of (a ∷ ys))) name)
        | inr other ↦
            sound.listed c a ys hp (drop-shrinks _ c e)
              (ground (arith, strings (path_of (c ∷ a ∷ ys)), r.strings (path_of (c ∷ a ∷ ys))))
      ]

  -- The invariant holds again.
  pub drop-IsSound : IsSound P V u
  drop-IsSound = record {
    linked = record {
      up = λ c a ys m hp e.
          drop-members _ _
          ∙ (Removed-Linked P V w v b rest h r sound.linked).up c a ys m hp
              (sym (drop-members _ m) ∙ e);
    };
    no_dangling = record {
      filled = λ c a ys hp e emptied.
          (Removed-NoDangling P V w v b rest h r sound.no_dangling).filled c a ys hp
            (sym (drop-members _ _) ∙ e) (λ m. sym (drop-members _ m) ∙ emptied m);
    };
    values = drop-values;
    listed = drop-listed;
    names = λ a m ys hp e. sound.names a m ys hp (drop-shrinks _ m e);
  }
