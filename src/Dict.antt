-- ===== src/Dict.antt =====
-- Go's maps with strings for keys, as association lists. A loop over a map goes through the list in
-- its order: a theorem over every list is one over every order of iteration.
use mathlib.Core.Path.{subst}
use caddy_storage_redis.Prelude.{
  ◌+◌, ◌≤◌, ◌<◌, Bytes, List, [], ◌∷◌, Bool, true, false, Option, none, some, ◌≡◌, refl, ap, arith,
  equal, equal_iff, length, if◌then◌else◌, All, Bool-cases, inl, inr,
}

module _ {ℓ} {V : Type ℓ} where
  unfoldable pub find : Bytes → List (Bytes × V) → Option V
  find k [] = none
  find k ((j, v) ∷ m) = if equal j k then some v else find k m

  unfoldable pub put : Bytes → V → List (Bytes × V) → List (Bytes × V)
  put k v [] = (k, v) ∷ []
  put k v ((j, w) ∷ m) = if equal j k then (k, v) ∷ m else (j, w) ∷ put k v m

  unfoldable pub remove : Bytes → List (Bytes × V) → List (Bytes × V)
  remove k [] = []
  remove k ((j, w) ∷ m) = let rest = remove k m in if equal j k then rest else (j, w) ∷ rest

  -- The entries that pass a test: `delete` within a loop over the map.
  unfoldable pub keep : (Bytes → V → Bool) → List (Bytes × V) → List (Bytes × V)
  keep p [] = []
  keep p ((j, w) ∷ m) = let rest = keep p m in if p j w then (j, w) ∷ rest else rest

  abbrev pub is_some : Option V → Bool
  is_some none = false
  is_some (some v) = true

  -- A key stands once.
  abbrev pub IsMap : List (Bytes × V) → Type 0
  IsMap [] = Unit {0}
  IsMap ((j, w) ∷ m) = (is_some (find j m) ≡ false) × IsMap m

  pub find-put :
      (k j : Bytes) (v : V) (m : List (Bytes × V))
      → find j (put k v m) ≡ (if equal k j then some v else find j m)
  unfolding find put
  find-put k j v [] = refl
  find-put k j v ((i, w) ∷ m) =
      ground (arith, equal_iff k j, equal_iff i k, equal_iff i j, find-put k j v m)

  pub find-remove :
      (k j : Bytes) (m : List (Bytes × V))
      → find j (remove k m) ≡ (if equal k j then none else find j m)
  unfolding find remove
  find-remove k j [] = ground arith
  find-remove k j ((i, w) ∷ m) =
      ground (arith, equal_iff k j, equal_iff i k, equal_iff i j, find-remove k j m)

  pub length-put :
      (k : Bytes) (v : V) (m : List (Bytes × V))
      → length (put k v m) ≡ (if is_some (find k m) then length m else length m + 1)
  unfolding find put
  length-put k v [] = omega arith
  length-put k v ((i, w) ∷ m) = ground (arith, length-put k v m)

  pub length-remove : (k : Bytes) (m : List (Bytes × V)) → length (remove k m) ≤ length m
  unfolding remove
  length-remove k [] = omega arith
  length-remove k ((i, w) ∷ m) = ground (arith, length-remove k m)

  -- Taking a key out makes room.
  pub length-remove_found :
      (k : Bytes) (m : List (Bytes × V))
      → is_some (find k m) ≡ true
      → length (remove k m) < length m
  unfolding remove find
  length-remove_found k [] h = cc
  length-remove_found k ((i, w) ∷ m) h = ground (arith, length-remove k m, length-remove_found k m)

  pub length-keep : (p : Bytes → V → Bool) (m : List (Bytes × V)) → length (keep p m) ≤ length m
  unfolding keep
  length-keep p [] = omega arith
  length-keep p ((i, w) ∷ m) = ground (arith, length-keep p m)

  -- An entry that is found after a loop of deletions was there, and passes the test.
  keep-absent :
      (p : Bytes → V → Bool) (k : Bytes) (m : List (Bytes × V))
      → is_some (find k m) ≡ false
      → is_some (find k (keep p m)) ≡ false
  unfolding keep find
  keep-absent p k [] h = refl
  keep-absent p k ((i, w) ∷ m) h = ground (arith, keep-absent p k m)

  pub keep-IsMap : (p : Bytes → V → Bool) (m : List (Bytes × V)) → IsMap m → IsMap (keep p m)
  unfolding keep
  keep-IsMap p [] h = tt
  keep-IsMap p ((i, w) ∷ m) h = ground (arith, keep-absent p i m h.0, keep-IsMap p m h.1)

  pub put-IsMap : (k : Bytes) (v : V) (m : List (Bytes × V)) → IsMap m → IsMap (put k v m)
  unfolding put find
  put-IsMap k v [] h = (refl, tt)
  put-IsMap k v ((i, w) ∷ m) h =
      ground (arith, equal_iff i k, find-put k i v m, equal_iff k i, put-IsMap k v m h.1)

  remove-absent :
      (k j : Bytes) (m : List (Bytes × V))
      → is_some (find j m) ≡ false
      → is_some (find j (remove k m)) ≡ false
  remove-absent k j m h = ground (arith, find-remove k j m)

  pub remove-IsMap : (k : Bytes) (m : List (Bytes × V)) → IsMap m → IsMap (remove k m)
  unfolding remove
  remove-IsMap k [] h = tt
  remove-IsMap k ((i, w) ∷ m) h = ground (arith, remove-absent k i m h.0, remove-IsMap k m h.1)

  pub find-keep :
      (p : Bytes → V → Bool) (k : Bytes) (m : List (Bytes × V))
      → IsMap m
      → find k (keep p m)
        ≡ (elim (find k m) [ none ↦ none | some v ↦ if p k v then some v else none ])
  unfolding keep find
  find-keep p k [] h = refl
  find-keep p k ((i, w) ∷ m) h =
      ground (arith, equal_iff i k, find-keep p k m h.1, keep-absent p i m h.0)

  -- Every value in the map has a property of its key.
  abbrev pub Each {κ} : (Bytes → V → Type κ) → List (Bytes × V) → Type κ
  Each Q = All (λ (e : Bytes × V). Q e.0 e.1)

  pub put-Each {κ} :
      (Q : Bytes → V → Type κ) (k : Bytes) (v : V) (m : List (Bytes × V))
      → Q k v
      → Each Q m
      → Each Q (put k v m)
  unfolding put
  put-Each Q k v [] q h = (q, tt)
  put-Each Q k v ((i, w) ∷ m) q h = ground (arith, put-Each Q k v m q h.1)

  pub keep-Each {κ} :
      (Q : Bytes → V → Type κ) (p : Bytes → V → Bool) (m : List (Bytes × V))
      → Each Q m
      → Each Q (keep p m)
  unfolding keep
  keep-Each Q p [] h = tt
  keep-Each Q p ((i, w) ∷ m) h = ground (arith, keep-Each Q p m h.1)

  pub remove-Each {κ} :
      (Q : Bytes → V → Type κ) (k : Bytes) (m : List (Bytes × V)) → Each Q m → Each Q (remove k m)
  unfolding remove
  remove-Each Q k [] h = tt
  remove-Each Q k ((i, w) ∷ m) h = ground (arith, remove-Each Q k m h.1)

  pub find-Each {κ} :
      (Q : Bytes → V → Type κ) (k : Bytes) (v : V) (m : List (Bytes × V))
      → Each Q m
      → find k m ≡ some v
      → Q k v
  unfolding find
  find-Each Q k v [] h e = cc
  find-Each Q k v ((i, w) ∷ m) h e = elim (Bool-cases (equal i k)) [
    | inl same ↦
        let r = rw same at e in
        let value : w ≡ v = cc r in
        subst (Q k) value (subst (λ j. Q j w) ((equal_iff i k).0 same) h.0)
    | inr other ↦ find-Each Q k v m h.1 (rw other at e)
  ]

  -- What was put does not matter once it is taken out.
  pub remove-put : (k : Bytes) (v : V) (m : List (Bytes × V)) → remove k (put k v m) ≡ remove k m
  unfolding remove put
  remove-put k v [] = ground (arith, equal_iff k k)
  remove-put k v ((i, w) ∷ m) = ground (arith, equal_iff i k, equal_iff k k, remove-put k v m)

  remove-missing : (k : Bytes) (m : List (Bytes × V)) → is_some (find k m) ≡ false → remove k m ≡ m
  unfolding remove find
  remove-missing k [] h = refl
  remove-missing k ((j, w) ∷ m) h = elim (Bool-cases (equal j k)) [
    | inl same ↦ cc (rw same at h)
    | inr other ↦ rw other (ap (◌∷◌ (j, w)) (remove-missing k m (rw other at h)))
  ]

  -- A key that stands once is one entry less.
  pub length-remove_once :
      (k : Bytes) (m : List (Bytes × V))
      → IsMap m
      → is_some (find k m) ≡ true
      → length (remove k m) + 1 ≡ length m
  unfolding remove find
  length-remove_once k [] i h = cc
  length-remove_once k ((j, w) ∷ m) i h = elim (Bool-cases (equal j k)) [
    | inr other ↦ rw other (omega (arith, length-remove_once k m i.1 (rw other at h)))
    | inl same ↦
        let this : j ≡ k = (equal_iff j k).0 same in
        let gone : remove k m ≡ m =
          remove-missing k m (subst (λ x. is_some (find x m) ≡ false) this i.0) in
        rw (same, gone) (omega arith)
  ]
