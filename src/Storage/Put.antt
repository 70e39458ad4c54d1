-- ===== src/Storage/Put.antt =====
-- A directory record and a value written under one key keep the invariant.
use mathlib.Core.Path.{subst}
use caddy_storage_redis.Prelude.{
  Bytes, List, [], ◌∷◌, true, false, not, ◌&&◌, none, some, if◌then◌else◌, ◌≡◌, ◌≢◌, refl, sym, ◌∙◌,
  ◌⊎◌, inl, inr, arith, equal, equal_iff, Bool-cases, length, ◌≤◌,
}
use caddy_storage_redis.Go.FilePath.{path_of}
use caddy_storage_redis.Go.FilePath.Segments.{IsPath, IsSegment, path_of-injective, path_of-shorter}
use caddy_storage_redis.Platform.{Platform}
use caddy_storage_redis.Platform.Redis.{Contents, Empty}
use caddy_storage_redis.Directory.Index.{
  folder, folder-injective, folder-ne-segment, Indexed, Indexed-grows, Linked, OnChain,
}
use caddy_storage_redis.Directory.Stored.{Stored}
use caddy_storage_redis.Storage.Sound.{
  file, directory, IsSound, IndexedKey, Link, first, above, OnChain-Link,
}

module _ (P : Platform) (V : Contents P) (b : Bytes) (rest : List Bytes) (h : IsPath (b ∷ rest))
    (w v u : P.World) (value : Bytes) (sound : IsSound P V w)
    (free : Empty P V w (path_of (b ∷ rest))) (st : Stored P V w v b rest) (l : Linked P V v)
    (strings : (j : Bytes)
      → V.string_at u j ≡ (if equal (path_of (b ∷ rest)) j then some value else V.string_at v j))
    (members : (j m : Bytes)
      → V.member u j m ≡ (not (equal (path_of (b ∷ rest)) j) && V.member v j m)) where
  -- The directories above a path have shorter paths.
  OnChain-shorter :
      (name : Bytes) (above_it : List Bytes) (j m : Bytes)
      → IsPath above_it
      → OnChain name above_it j m
      → length j ≤ length (path_of above_it)
  OnChain-shorter name [] j m hp k = absurd k
  OnChain-shorter name (a ∷ more) j m hp (inl here) = rw here.0 (omega arith)
  OnChain-shorter name (a ∷ more) j m hp (inr up) =
      omega (arith, OnChain-shorter (folder a) more j m hp.1 up, path_of-shorter a more hp)

  -- Nothing is listed under the key itself.
  put-free : Empty P V v (path_of (b ∷ rest))
  put-free m = elim (Bool-cases (V.member v (path_of (b ∷ rest)) m)) [
    | inr lacks ↦ lacks
    | inl held ↦ elim (st.only _ m held) [
      | inl old ↦ absurd (cc (old, free m))
      | inr link ↦
          absurd (omega (arith, OnChain-shorter b rest _ m h.1 link, path_of-shorter b rest h))
    ]
  ]

  put-members : (j m : Bytes) → V.member u j m ≡ V.member v j m
  put-members j m = elim (Bool-cases (equal (path_of (b ∷ rest)) j)) [
    | inr other ↦ ground (arith, members j m)
    | inl same ↦
        let lacks : V.member v j m ≡ false =
          subst (λ p. V.member v p m ≡ false) ((equal_iff _ j).0 same) (put-free m) in
        ground (arith, members j m)
  ]

  put-grows : (j m : Bytes) → V.member w j m ≡ true → V.member u j m ≡ true
  put-grows j m e = put-members j m ∙ st.grows j m e

  put-empty : (j m : Bytes) → V.member u j m ≡ false → V.member w j m ≡ false
  put-empty j m e = elim (Bool-cases (V.member w j m)) [
    | inl held ↦ cc (e, put-grows j m held)
    | inr lacks ↦ lacks
  ]

  pub put-indexed : Indexed P V u b rest
  put-indexed = Indexed-grows P V v u (λ j m e. put-members j m ∙ e) b rest st.indexed

  -- A link that is there afterwards was there before, or is one of the key's chain.
  put-Link :
      (c : Bytes) (ys : List Bytes) (m : Bytes)
      → IsPath (c ∷ ys)
      → V.member u (path_of (c ∷ ys)) m ≡ true
      → (V.member w (path_of (c ∷ ys)) m ≡ true) ⊎ Link P V u b rest c ys m
  put-Link c ys m hc e = elim (st.only _ m (sym (put-members _ m) ∙ e)) [
    | inl old ↦ inl old
    | inr chain ↦ inr (OnChain-Link P V u b rest c ys m h.1 hc put-indexed chain)
  ]

  pub put-value : V.string_at u (path_of (b ∷ rest)) ≡ some value
  put-value =
      ground (arith, strings (path_of (b ∷ rest)), (equal_iff (path_of (b ∷ rest)) _).1 refl)

  put-keeps_values : (j : Bytes) → V.string_at w j ≢ none → V.string_at u j ≢ none
  put-keeps_values j e = ground (arith, strings j, st.strings j)

  put-values :
      (c a : Bytes) (ys : List Bytes)
      → IsPath (c ∷ a ∷ ys)
      → V.is_value (path_of (c ∷ a ∷ ys)) ≡ true
      → V.string_at u (path_of (c ∷ a ∷ ys)) ≢ none
      → Indexed P V u c (a ∷ ys)
  put-values c a ys hp own e =
      elim (Bool-cases (equal (path_of (b ∷ rest)) (path_of (c ∷ a ∷ ys)))) [
        | inl same ↦
            subst (IndexedKey P V u)
              (path_of-injective b c rest (a ∷ ys) h hp ((equal_iff _ _).0 same)) put-indexed
        | inr other ↦ Indexed-grows P V w u put-grows c (a ∷ ys) (
            sound.values c a ys hp own
              (ground (arith, strings (path_of (c ∷ a ∷ ys)), st.strings (path_of (c ∷ a ∷ ys)))))
      ]

  put-listed :
      (c a : Bytes) (ys : List Bytes)
      → IsPath (c ∷ a ∷ ys)
      → V.member u (path_of (a ∷ ys)) c ≡ true
      → V.string_at u (path_of (c ∷ a ∷ ys)) ≢ none
  put-listed c a ys hp e = elim (put-Link a ys c hp.1 e) [
    | inl old ↦ put-keeps_values _ (sound.listed c a ys hp old)
    | inr (first same name) ↦ λ missing. cc (
      put-value,
      subst (λ p. V.string_at u (path_of p) ≡ none) (λ i. name i ∷ sym same i) missing,
    )
    | inr (above x gx name filled) ↦ absurd (folder-ne-segment x c hp.0 (sym name))
  ]

  -- The invariant holds again, and the value is there.
  pub put-IsSound : IsSound P V u
  put-IsSound = record {
    linked = record {
      up = λ c a ys m hp e. put-members _ _ ∙ l.up c a ys m hp (sym (put-members _ m) ∙ e);
    };
    no_dangling = record {
      filled = λ c a ys hp e emptied. elim (put-Link a ys (folder c) hp.1 e) [
        | inl old ↦ sound.no_dangling.filled c a ys hp old (λ m. put-empty _ m (emptied m))
        | inr (first same name) ↦ absurd (folder-ne-segment c b h.0 name)
        | inr (above x gx name filled) ↦
            filled
              (subst (λ z. Empty P V u (path_of (z ∷ a ∷ ys))) (folder-injective c x name) emptied)
      ];
    };
    values = put-values;
    listed = put-listed;
    names = λ a m ys hp e. elim (put-Link a ys m hp e) [
      | inl old ↦ sound.names a m ys hp old
      | inr (first same name) ↦ file (subst IsSegment (sym name) h.0)
      | inr (above x gx name filled) ↦ directory x gx name
    ];
  }
