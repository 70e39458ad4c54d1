-- ===== src/Directory/Pruned.antt =====
-- Deleting a record keeps the index sound and every other name listed.
use mathlib.Core.Path.{subst}
use caddy_storage_redis.Prelude.{
  Bytes, List, [], ◌∷◌, Bool, true, false, ◌≡◌, ◌≢◌, refl, sym, inl, inr, Bool-cases,
}
use caddy_storage_redis.Go.FilePath.{path_of}
use caddy_storage_redis.Go.FilePath.Segments.{IsPath, path_of-injective}
use caddy_storage_redis.Platform.{Platform}
use caddy_storage_redis.Platform.Redis.{Contents, Empty}
use caddy_storage_redis.Directory.Removed.{Gone, Absent, Removed}
use caddy_storage_redis.Directory.Index.{
  folder, folder-injective, folder-ne-segment, Indexed, Linked, NoDangling,
}

contrapose : (a b : Bool) → (a ≡ false → b ≡ false) → b ≡ true → a ≡ true
contrapose true b f e = refl
contrapose false b f e = cc (f refl)

module _ (P : Platform) (V : Contents P) where
  -- A link whose name is not the deleted one, nor that of a directory left empty, is not gone.
  Gone-not_live :
      (u : P.World) (name : Bytes) (rest : List Bytes) (c : Bytes) (ys : List Bytes) (m : Bytes)
      → IsPath rest
      → IsPath (c ∷ ys)
      → (rest ≡ c ∷ ys → m ≢ name)
      → ((x : Bytes) → m ≡ folder x → ¬ Empty P V u (path_of (x ∷ c ∷ ys)))
      → ¬ Gone P V u name rest (path_of (c ∷ ys)) m
  Gone-not_live u name [] c ys m h hc f g k = k
  Gone-not_live u name (a ∷ rest) c ys m h hc f g (inl first) =
      f (sym (path_of-injective c a ys rest hc h first.0)) first.1
  Gone-not_live u name (a ∷ rest) c ys m h hc f g (inr above) =
      Gone-not_live u (folder a) rest c ys m h.1 hc
        (λ e l. g a l (subst (λ p. Empty P V u (path_of (a ∷ p))) e above.0)) g above.1

  -- The directory that the first segment names is not listed in the one above it.
  abbrev IsUnlisted : P.World → List Bytes → Type 0
  IsUnlisted w [] = Unit {0}
  IsUnlisted w (b ∷ []) = Unit {0}
  IsUnlisted w (b ∷ a ∷ rest) = V.member w (path_of (a ∷ rest)) (folder b) ≡ false

  Absent-IsUnlisted :
      (w : P.World) (b : Bytes) (rest : List Bytes)
      → Absent P V w (folder b) rest
      → IsUnlisted w (b ∷ rest)
  Absent-IsUnlisted w b [] h = tt
  Absent-IsUnlisted w b (a ∷ rest) h = h.0

  -- The link of a directory that was deleted from is gone if nothing is left in the directory.
  Gone-emptied :
      (u : P.World) (name : Bytes) (rest : List Bytes) (b a : Bytes) (ys : List Bytes) (m : Bytes)
      → IsPath rest
      → IsPath (b ∷ a ∷ ys)
      → Gone P V u name rest (path_of (b ∷ a ∷ ys)) m
      → Absent P V u name rest
      → Empty P V u (path_of (b ∷ a ∷ ys))
      → V.member u (path_of (a ∷ ys)) (folder b) ≡ false
  Gone-emptied u name [] b a ys m h hb k ab e = absurd k
  Gone-emptied u name (c ∷ rest) b a ys m h hb (inl first) ab e =
      let same = path_of-injective b c (a ∷ ys) rest hb h first.0 in
      subst (IsUnlisted u) (sym same)
        (Absent-IsUnlisted u c rest (ab.1 (subst (λ p. Empty P V u (path_of p)) same e)))
  Gone-emptied u name (c ∷ rest) b a ys m h hb (inr above) ab e =
      Gone-emptied u (folder c) rest b a ys m h.1 hb above.1 (ab.1 above.0) e

  module _ (w u : P.World) (b : Bytes) (rest : List Bytes) (h : IsPath (b ∷ rest))
      (r : Removed P V w u b rest) where
    pub Removed-Linked : Linked P V w → Linked P V u
    Removed-Linked l = record {
      up = λ c a ys m hp e.
          let was = contrapose _ _ (r.shrinks _ m) e in
          elim (r.only _ _ (l.up c a ys m hp was)) [
            | inl kept ↦ kept
            | inr gone ↦ absurd (
                Gone-not_live u b rest a ys (folder c) h.1 hp.1
                  (λ _ same. folder-ne-segment c b h.0 same)
                  (λ x same emptied. cc (
                    e,
                    subst (λ z. Empty P V u (path_of (z ∷ a ∷ ys)))
                        (sym (folder-injective c x same)) emptied m,
                  ))
                  gone)
          ];
    }

    pub Removed-NoDangling : NoDangling P V w → NoDangling P V u
    Removed-NoDangling n = record {
      filled = λ c a ys hp e emptied. n.filled c a ys hp (contrapose _ _ (r.shrinks _ _) e) (λ m.
          elim (Bool-cases (V.member w (path_of (c ∷ a ∷ ys)) m)) [
            | inr lacks ↦ lacks
            | inl held ↦ elim (r.only _ m held) [
              | inl kept ↦ cc (emptied m)
              | inr gone ↦ cc (Gone-emptied u b rest c a ys m h.1 hp gone r.absent emptied)
            ]
          ]);
    }

    -- A name that is listed up to the top, and is not the deleted one, stays listed.
    Removed-link :
        (m a : Bytes) (ys : List Bytes)
        → IsPath (a ∷ ys)
        → (rest ≡ a ∷ ys → m ≢ b)
        → ((x : Bytes) → m ≡ folder x → ¬ Empty P V u (path_of (x ∷ a ∷ ys)))
        → V.member w (path_of (a ∷ ys)) m ≡ true
        → V.member u (path_of (a ∷ ys)) m ≡ true
    Removed-link m a ys hp f g e = elim (r.only _ m e) [
      | inl kept ↦ kept
      | inr gone ↦ absurd (Gone-not_live u b rest a ys m h.1 hp f g gone)
    ]

    pub Removed-Indexed :
        (m : Bytes) (ys : List Bytes)
        → IsPath ys
        → (rest ≡ ys → m ≢ b)
        → ((x : Bytes) → m ≡ folder x → ¬ Empty P V u (path_of (x ∷ ys)))
        → Indexed P V w m ys
        → Indexed P V u m ys
    Removed-Indexed m [] hp f g i = tt
    Removed-Indexed m (a ∷ ys) hp f g i =
        let kept = Removed-link m a ys hp f g i.0 in
        (
          kept,
          Removed-Indexed (folder a) ys hp.1 (λ _ same. folder-ne-segment a b h.0 same)
              (λ x same emptied. cc (
                kept,
                subst (λ z. Empty P V u (path_of (z ∷ ys))) (sym (folder-injective a x same))
                    emptied m,
              ))
              i.1,
        )
