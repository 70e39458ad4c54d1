-- ===== src/Directory/Stored.antt =====
-- What a successful `storeDirectoryRecord` leaves on the server.
use mathlib.Core.Path.{subst}
use caddy_storage_redis.Prelude.{
  ℕ, zero, suc, ◌<◌, Bytes, List, [], ◌∷◌, Bool, true, ◌||◌, ◌≡◌, refl, sym, ap, ◌∙◌, ◌⊎◌, inl, inr,
  equal, equal_iff, arith, ltb, Bool-cases, length,
}
use caddy_storage_redis.Go.FilePath.{path_of}
use caddy_storage_redis.Go.FilePath.Segments.{IsPath, path_of-injective, path_of-shorter}
use caddy_storage_redis.Exec.{pure, exhausted}
use caddy_storage_redis.Exec.Laws.{Runs}
use caddy_storage_redis.Platform.{Platform}
use caddy_storage_redis.Platform.Redis.{Contents, IsLawful, HasAdded}
use caddy_storage_redis.Client.{Machine}
use caddy_storage_redis.Directory.{store_directory_record}
use caddy_storage_redis.Directory.Store.{store_zero, store_step, store_top, add_then-Added}
use caddy_storage_redis.Directory.Index.{
  entry, folder, Indexed, Linked, Linked-Indexed, Indexed-grows, OnChain,
}

module _ (P : Platform) (V : Contents P) where
  -- The name is listed up to the top, no string was touched, and the members that were added are
  -- links of the chain of that name.
  pub record Stored (w u : P.World) (name : Bytes) (rest : List Bytes) : Type 0 where
    pub indexed : Indexed P V u name rest
    pub strings : (j : Bytes) → V.string_at u j ≡ V.string_at w j
    pub grows : (j m : Bytes) → V.member w j m ≡ true → V.member u j m ≡ true
    pub only :
        (j m : Bytes) → V.member u j m ≡ true → (V.member w j m ≡ true) ⊎ OnChain name rest j m

  -- Every directory of the chain that lists anything is listed up to the top.
  abbrev Up : P.World → List Bytes → Type 0
  Up w [] = Unit {0}
  Up w (a ∷ rest) =
      ((m : Bytes) → V.member w (path_of (a ∷ rest)) m ≡ true → Indexed P V w (folder a) rest)
      × Up w rest

  Linked-Up : (w : P.World) → Linked P V w → (rest : List Bytes) → IsPath rest → Up w rest
  Linked-Up w l [] h = tt
  Linked-Up w l (a ∷ []) h = ((λ m e. tt), tt)
  Linked-Up w l (a ∷ b ∷ rest) h = (
    (λ m e. Linked-Indexed P V w l rest b (folder a) h.1 (l.up a b rest m h e)),
    Linked-Up w l (b ∷ rest) h.1,
  )

  HasAdded-grows :
      (d name : Bytes) (w u : P.World)
      → HasAdded P V d name w u
      → (j m : Bytes) → V.member w j m ≡ true
      → V.member u j m ≡ true
  HasAdded-grows d name w u a j m e = ground (arith, a j m)

  HasAdded-other :
      (d name j m : Bytes) (w u : P.World)
      → HasAdded P V d name w u
      → length j < length d
      → V.member u j m ≡ true
      → V.member w j m ≡ true
  HasAdded-other d name j m w u a lt e = elim (Bool-cases (equal d j)) [
    | inl same ↦ absurd (omega (arith, ap (λ (s : Bytes). length s) ((equal_iff d j).0 same)))
    | inr other ↦ ground (arith, a j m)
  ]

  HasAdded-Up :
      (d name : Bytes) (w u : P.World)
      → HasAdded P V d name w u
      → (rest : List Bytes) → IsPath rest
      → length (path_of rest) < length d
      → Up w rest
      → Up u rest
  HasAdded-Up d name w u a [] h lt k = tt
  HasAdded-Up d name w u a (b ∷ rest) h lt k = (
    (λ m e.
        Indexed-grows P V w u (HasAdded-grows d name w u a) (folder b) rest
          (k.0 m (HasAdded-other d name _ m w u a lt e))),
    HasAdded-Up d name w u a rest h.1 (omega (arith, path_of-shorter b rest h)) k.1,
  )

  HasAdded-member :
      (d name : Bytes) (w u : P.World) → HasAdded P V d name w u → V.member u d name ≡ true
  HasAdded-member d name w u a =
      ground (arith, a d name, (equal_iff d d).1 refl, (equal_iff name name).1 refl)

  HasAdded-only :
      (d name : Bytes) (w u : P.World)
      → HasAdded P V d name w u
      → (j m : Bytes) → V.member u j m ≡ true
      → (V.member w j m ≡ true) ⊎ ((j ≡ d) × (m ≡ name))
  HasAdded-only d name w u a j m e = elim (Bool-cases (V.member w j m)) [
    | inl old ↦ inl old
    | inr new ↦ inr (
      sym ((equal_iff d j).0 (ground (arith, a j m))),
      sym ((equal_iff name m).0 (ground (arith, a j m))),
    )
  ]

  -- One level on top of what the levels above it have done.
  Stored-cons :
      (w v u : P.World) (name a : Bytes) (rest : List Bytes)
      → HasAdded P V (path_of (a ∷ rest)) name w v
      → ((j : Bytes) → V.string_at v j ≡ V.string_at w j)
      → Stored v u (folder a) rest
      → Stored w u name (a ∷ rest)
  Stored-cons w v u name a rest added strings r = record {
    indexed = (r.grows _ _ (HasAdded-member _ name w v added), r.indexed);
    strings = λ j. r.strings j ∙ strings j;
    grows = λ j m e. r.grows j m (HasAdded-grows _ name w v added j m e);
    only = λ j m e. elim (r.only j m e) [
      | inl old ↦ elim (HasAdded-only _ name w v added j m old) [
        | inl older ↦ inl older
        | inr new ↦ inr (inl new)
      ]
      | inr link ↦ inr (inr link)
    ];
  }

  -- The name was in the set: what stands above it is listed, and nothing has changed.
  Stored-stop :
      (w v : P.World) (name a : Bytes) (rest : List Bytes)
      → HasAdded P V (path_of (a ∷ rest)) name w v
      → ((j : Bytes) → V.string_at v j ≡ V.string_at w j)
      → Indexed P V w (folder a) rest
      → Stored w v name (a ∷ rest)
  Stored-stop w v name a rest added strings up = record {
    indexed = (
      HasAdded-member _ name w v added,
      Indexed-grows P V w v (HasAdded-grows _ name w v added) (folder a) rest up,
    );
    strings = strings;
    grows = HasAdded-grows _ name w v added;
    only = λ j m e. elim (HasAdded-only _ name w v added j m e) [
      | inl old ↦ inl old
      | inr new ↦ inr (inl new)
    ];
  }

  Stored-nil : (w : P.World) (name : Bytes) → Stored w w name []
  Stored-nil w name = record {
    indexed = tt;
    strings = λ j. refl;
    grows = λ j m e. e;
    only = λ j m e. inl e;
  }

  -- The directory that the first segment names is listed in the one above it.
  abbrev IsListed : P.World → List Bytes → Type 0
  IsListed w [] = Unit {0}
  IsListed w (b ∷ []) = Unit {0}
  IsListed w (b ∷ a ∷ rest) = V.member w (path_of (a ∷ rest)) (folder b) ≡ true

  Indexed-IsListed :
      (w : P.World) (b : Bytes) (rest : List Bytes)
      → Indexed P V w (folder b) rest
      → IsListed w (b ∷ rest)
  Indexed-IsListed w b [] h = tt
  Indexed-IsListed w b (a ∷ rest) h = h.0

  OnChain-IsListed :
      (w : P.World) (c : Bytes) (ys : List Bytes) (m name : Bytes) (rest : List Bytes)
      → IsPath (c ∷ ys)
      → IsPath rest
      → OnChain name rest (path_of (c ∷ ys)) m
      → Indexed P V w name rest
      → IsListed w (c ∷ ys)
  OnChain-IsListed w c ys m name [] hc h k i = absurd k
  OnChain-IsListed w c ys m name (a ∷ rest) hc h (inl here) i =
      subst (IsListed w) (sym (path_of-injective c a ys rest hc h here.0))
        (Indexed-IsListed w a rest i.1)
  OnChain-IsListed w c ys m name (a ∷ rest) hc h (inr above) i =
      OnChain-IsListed w c ys m (folder a) rest hc h.1 above i.1

  pub Stored-Linked :
      (w u : P.World) (name : Bytes) (rest : List Bytes)
      → IsPath rest
      → Linked P V w
      → Stored w u name rest
      → Linked P V u
  Stored-Linked w u name rest h l st = record {
    up = λ b a ys m hp e. elim (st.only _ m e) [
      | inl old ↦ st.grows _ _ (l.up b a ys m hp old)
      | inr link ↦ OnChain-IsListed u b (a ∷ ys) m name rest hp h link st.indexed
    ];
  }

  module _ (L : IsLawful P V) (client : P.Client) (score : ℕ) (repair : Bool) where
    store_directory_record-Stored-Up :
        (fuel : ℕ) (b : Bytes) (rest : List Bytes) (base_is_dir : Bool) (s t : Machine P)
        → IsPath (b ∷ rest)
        → Up s.world rest
        → Runs
            (store_directory_record P fuel client (path_of (b ∷ rest)) score repair base_is_dir)
            s
            tt
            t
        → Stored s.world t.world (entry base_is_dir b) rest
    unfolding exhausted pure
    store_directory_record-Stored-Up zero b rest base_is_dir s t h up r =
        cc (rw (store_zero P client score repair (path_of (b ∷ rest)) base_is_dir) at r)
    store_directory_record-Stored-Up (suc fuel) b [] base_is_dir s t h up r =
        subst (λ x. Stored s.world x.world (entry base_is_dir b) [])
          (ap (λ p. p.1) (rw (store_top P client score repair fuel b base_is_dir h) at r))
          (Stored-nil s.world (entry base_is_dir b))
    store_directory_record-Stored-Up (suc fuel) b (a ∷ rest) base_is_dir s t h up r =
        let d = path_of (a ∷ rest) in
        let name = entry base_is_dir b in
        let level =
          add_then-Added P client score repair d name
            (store_directory_record P fuel client d score repair true) s t
            (rw (store_step P client score repair fuel b a rest base_is_dir h) at r) in
        let (strings, added, counted) =
          L.zadd_done client d score name level.n s.world level.w level.added in
        elim (Bool-cases (ltb 0 level.n || repair)) [
          | inl on ↦ Stored-cons s.world level.w t.world name a rest added strings (
              store_directory_record-Stored-Up fuel a rest true _ t h.1
                (HasAdded-Up d name s.world level.w added rest h.1.1 (path_of-shorter a rest h.1)
                  up.1)
                (rw on at level.rest))
          | inr stop ↦
              let listed : V.member s.world d name ≡ true = ground arith in
              subst (λ x. Stored s.world x.world name (a ∷ rest))
                (ap (λ p. p.1) (rw stop at level.rest))
                (Stored-stop s.world level.w name a rest added strings (up.0 name listed))
        ]

    -- From a linked index a successful run leaves a linked index in which the name is listed up
    -- to the top; it touches no string, and adds nothing but the links of that name.
    pub store_directory_record-Stored :
        (fuel : ℕ) (b : Bytes) (rest : List Bytes) (base_is_dir : Bool) (s t : Machine P)
        → IsPath (b ∷ rest)
        → Linked P V s.world
        → Runs
            (store_directory_record P fuel client (path_of (b ∷ rest)) score repair base_is_dir)
            s
            tt
            t
        → Stored s.world t.world (entry base_is_dir b) rest × Linked P V t.world
    store_directory_record-Stored fuel b rest base_is_dir s t h l r =
        let stored =
          store_directory_record-Stored-Up fuel b rest base_is_dir s t h
            (Linked-Up s.world l rest h.1) r in
        (stored, Stored-Linked s.world t.world (entry base_is_dir b) rest h.1 l stored)
