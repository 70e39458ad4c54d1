-- ===== src/Directory/Removed.antt =====
-- What a successful `deleteDirectoryRecord` leaves on the server.
use mathlib.Core.Path.{subst}
use caddy_storage_redis.Prelude.{
  ℕ, zero, suc, Bytes, List, [], ◌∷◌, Bool, true, false, ◌≡◌, refl, sym, ap, ◌∙◌, ◌⊎◌, inl, inr,
  equal_iff, arith, ltb, Bool-cases,
}
use caddy_storage_redis.Go.FilePath.{path_of}
use caddy_storage_redis.Go.FilePath.Segments.{IsPath}
use caddy_storage_redis.Exec.{Exec, pure, exhausted}
use caddy_storage_redis.Exec.Laws.{Runs}
use caddy_storage_redis.Platform.{Platform}
use caddy_storage_redis.Platform.Redis.{Contents, IsLawful, HasRemoved, Empty}
use caddy_storage_redis.Client.{Machine}
use caddy_storage_redis.Directory.{delete_directory_record}
use caddy_storage_redis.Directory.Delete.{
  delete_zero, delete_step, delete_top, remove_then-Taken, Taken,
}
use caddy_storage_redis.Directory.Index.{entry, folder}

module _ (P : Platform) (V : Contents P) where
  -- The links that may be gone: the name itself, and above it those of directories left empty.
  abbrev pub Gone : P.World → Bytes → List Bytes → Bytes → Bytes → Type 0
  Gone u name [] j m = ⊥
  Gone u name (a ∷ rest) j m =
      ((j ≡ path_of (a ∷ rest)) × (m ≡ name))
      ⊎ (Empty P V u (path_of (a ∷ rest)) × Gone u (folder a) rest j m)

  -- The links that must be gone.
  abbrev pub Absent : P.World → Bytes → List Bytes → Type 0
  Absent u name [] = Unit {0}
  Absent u name (a ∷ rest) =
      (V.member u (path_of (a ∷ rest)) name ≡ false)
      × (Empty P V u (path_of (a ∷ rest)) → Absent u (folder a) rest)

  pub record Removed (w u : P.World) (name : Bytes) (rest : List Bytes) : Type 0 where
    pub strings : (j : Bytes) → V.string_at u j ≡ V.string_at w j
    pub shrinks : (j m : Bytes) → V.member w j m ≡ false → V.member u j m ≡ false
    pub only :
        (j m : Bytes) → V.member w j m ≡ true → (V.member u j m ≡ true) ⊎ Gone u name rest j m
    pub absent : Absent u name rest

  Removed-nil : (w : P.World) (name : Bytes) → Removed w w name []
  Removed-nil w name = record {
    strings = λ j. refl;
    shrinks = λ j m e. e;
    only = λ j m e. inl e;
    absent = tt;
  }

  -- A level: ZREM, and EXISTS that changes nothing.
  record Level (d name : Bytes) (w v : P.World) : Type 0 where
    strings : (j : Bytes) → V.string_at v j ≡ V.string_at w j
    members : HasRemoved P V d name w v

  Level-shrinks :
      (d name : Bytes) (w v : P.World)
      → Level d name w v
      → (j m : Bytes) → V.member w j m ≡ false
      → V.member v j m ≡ false
  Level-shrinks d name w v l j m e = ground (arith, l.members j m)

  Level-absent : (d name : Bytes) (w v : P.World) → Level d name w v → V.member v d name ≡ false
  Level-absent d name w v l =
      ground (arith, l.members d name, (equal_iff d d).1 refl, (equal_iff name name).1 refl)

  Level-only :
      (d name : Bytes) (w v : P.World)
      → Level d name w v
      → (j m : Bytes) → V.member w j m ≡ true
      → (V.member v j m ≡ true) ⊎ ((j ≡ d) × (m ≡ name))
  Level-only d name w v l j m e = elim (Bool-cases (V.member v j m)) [
    | inl kept ↦ inl kept
    | inr lost ↦ inr (
      sym ((equal_iff d j).0 (ground (arith, l.members j m))),
      sym ((equal_iff name m).0 (ground (arith, l.members j m))),
    )
  ]

  -- The set is left empty, and the levels above it have run.
  Removed-cons :
      (w v u : P.World) (name a : Bytes) (rest : List Bytes)
      → Level (path_of (a ∷ rest)) name w v
      → Empty P V v (path_of (a ∷ rest))
      → Removed v u (folder a) rest
      → Removed w u name (a ∷ rest)
  Removed-cons w v u name a rest l emptied r = record {
    strings = λ j. r.strings j ∙ l.strings j;
    shrinks = λ j m e. r.shrinks j m (Level-shrinks _ name w v l j m e);
    only = λ j m e. elim (Level-only _ name w v l j m e) [
      | inr first ↦ inr (inl first)
      | inl kept ↦ elim (r.only j m kept) [
        | inl left ↦ inl left
        | inr gone ↦ inr (inr ((λ x. r.shrinks _ x (emptied x)), gone))
      ]
    ];
    absent = (r.shrinks _ _ (Level-absent _ name w v l), λ _. r.absent);
  }

  -- Something is left in the set, and the run ends there.
  Removed-stop :
      (w v : P.World) (name a : Bytes) (rest : List Bytes)
      → Level (path_of (a ∷ rest)) name w v
      → ¬ Empty P V v (path_of (a ∷ rest))
      → Removed w v name (a ∷ rest)
  Removed-stop w v name a rest l filled = record {
    strings = l.strings;
    shrinks = Level-shrinks _ name w v l;
    only = λ j m e. elim (Level-only _ name w v l j m e) [
      | inl kept ↦ inl kept
      | inr first ↦ inr (inl first)
    ];
    absent = (Level-absent _ name w v l, λ emptied. absurd (filled emptied));
  }

  module _ (L : IsLawful P V) (client : P.Client) where
    Taken-Level :
        (d name : Bytes) (parents : Exec (Machine P) (Unit {0})) (s t : Machine P)
        (k : Taken P client d name parents s t)
        → Level d name s.world k.w
    Taken-Level d name parents s t k =
        let (_, strings, members) = L.zrem_done client d name k.n s.world k.v k.removed in
        let (same, _) = L.exists_done client d k.k k.v k.w k.asked in
        record {
          strings = λ j. same.strings j ∙ strings j;
          members = λ j x. same.members j x ∙ members j x;
        }

    Taken-Empty :
        (d name : Bytes) (parents : Exec (Machine P) (Unit {0})) (s t : Machine P)
        (k : Taken P client d name parents s t)
        → ltb 0 k.k ≡ false
        → Empty P V k.w d
    Taken-Empty d name parents s t k none_left =
        let (same, counted) = L.exists_done client d k.k k.v k.w k.asked in
        λ x. same.members d x ∙ (counted.0 (ground arith)).1 x

    Taken-filled :
        (d name : Bytes) (parents : Exec (Machine P) (Unit {0})) (s t : Machine P)
        (k : Taken P client d name parents s t)
        → ltb 0 k.k ≡ true
        → ¬ Empty P V k.w d
    Taken-filled d name parents s t k some_left emptied =
        let (no_string, strings, _) = L.zrem_done client d name k.n s.world k.v k.removed in
        let (same, counted) = L.exists_done client d k.k k.v k.w k.asked in
        let zero_left : k.k ≡ 0 =
          counted.1 (strings d ∙ no_string, λ x. sym (same.members d x) ∙ emptied x) in
        ground arith

    -- A successful run has removed the name from its set and, as long as a set was left empty, the
    -- name of that directory from the one above it; it touches no string and adds no member.
    pub delete_directory_record-Removed :
        (fuel : ℕ) (b : Bytes) (rest : List Bytes) (base_is_dir : Bool) (s t : Machine P)
        → IsPath (b ∷ rest)
        → Runs (delete_directory_record P fuel client (path_of (b ∷ rest)) base_is_dir) s tt t
        → Removed s.world t.world (entry base_is_dir b) rest
    unfolding exhausted pure
    delete_directory_record-Removed zero b rest base_is_dir s t h r =
        cc (rw (delete_zero P client (path_of (b ∷ rest)) base_is_dir) at r)
    delete_directory_record-Removed (suc fuel) b [] base_is_dir s t h r =
        subst (λ x. Removed s.world x.world (entry base_is_dir b) [])
          (ap (λ p. p.1) (rw (delete_top P client fuel b base_is_dir h) at r))
          (Removed-nil s.world (entry base_is_dir b))
    delete_directory_record-Removed (suc fuel) b (a ∷ rest) base_is_dir s t h r =
        let d = path_of (a ∷ rest) in
        let name = entry base_is_dir b in
        let parents = delete_directory_record P fuel client d true in
        let k =
          remove_then-Taken P client d name parents s t
            (rw (delete_step P client fuel b a rest base_is_dir h) at r) in
        let level = Taken-Level d name parents s t k in
        elim (Bool-cases (ltb 0 k.k)) [
          | inl on ↦
              subst (λ x. Removed s.world x.world name (a ∷ rest)) (ap (λ p. p.1) (rw on at k.rest))
                (Removed-stop s.world k.w name a rest level (Taken-filled d name parents s t k on))
          | inr off ↦
              Removed-cons s.world k.w t.world name a rest level
                (Taken-Empty d name parents s t k off)
                (delete_directory_record-Removed fuel a rest true _ t h.1 (rw off at k.rest))
        ]
