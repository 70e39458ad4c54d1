-- ===== src/Storage/Sound.antt =====
-- The invariant between the stored values and the directory index, for keys that are clean relative
-- paths. Keys that are not for values of the storage, such as those of its locks, are left out.
use mathlib.Core.Path.{subst}
use caddy_storage_redis.Prelude.{Bytes, List, [], ◌∷◌, true, none, ◌≡◌, ◌≢◌, sym, inl, inr}
use caddy_storage_redis.Go.FilePath.{path_of}
use caddy_storage_redis.Go.FilePath.Segments.{IsPath, IsSegment, path_of-injective}
use caddy_storage_redis.Platform.{Platform}
use caddy_storage_redis.Platform.Redis.{Contents, Empty}
use caddy_storage_redis.Directory.Index.{folder, Indexed, Linked, NoDangling, OnChain}

-- A name in a directory: that of a key, or that of a directory.
pub data IsName : Bytes → Type 0 where
  file : {m : Bytes} → IsSegment m → IsName m
  directory : {m : Bytes} (b : Bytes) → IsSegment b → m ≡ folder b → IsName m

module _ (P : Platform) (V : Contents P) where
  pub record IsSound (w : P.World) : Type 0 where
    pub linked : Linked P V w
    pub no_dangling : NoDangling P V w
    -- every value of the storage is listed all the way up
    pub values :
        (b a : Bytes) (rest : List Bytes)
        → IsPath (b ∷ a ∷ rest)
        → V.is_value (path_of (b ∷ a ∷ rest)) ≡ true
        → V.string_at w (path_of (b ∷ a ∷ rest)) ≢ none
        → Indexed P V w b (a ∷ rest)
    -- every listed key has a value
    pub listed :
        (b a : Bytes) (rest : List Bytes)
        → IsPath (b ∷ a ∷ rest)
        → V.member w (path_of (a ∷ rest)) b ≡ true
        → V.string_at w (path_of (b ∷ a ∷ rest)) ≢ none
    pub names :
        (a m : Bytes) (rest : List Bytes)
        → IsPath (a ∷ rest)
        → V.member w (path_of (a ∷ rest)) m ≡ true
        → IsName m

  -- A key, as its segments, is listed up to the top.
  abbrev pub IndexedKey : P.World → List Bytes → Type 0
  IndexedKey w [] = Unit {0}
  IndexedKey w (b ∷ rest) = Indexed P V w b rest

  -- A link of a chain is the first one, or its name is that of a directory that lists something.
  pub data Link (u : P.World) (name : Bytes) (rest : List Bytes) (c : Bytes) (ys : List Bytes)
      (m : Bytes) : Type 0 where
    first : rest ≡ c ∷ ys → m ≡ name → Link u name rest c ys m
    above :
        (x : Bytes)
        → IsSegment x
        → m ≡ folder x
        → ¬ Empty P V u (path_of (x ∷ c ∷ ys))
        → Link u name rest c ys m

  pub OnChain-Link :
      (u : P.World) (name : Bytes) (rest : List Bytes) (c : Bytes) (ys : List Bytes) (m : Bytes)
      → IsPath rest
      → IsPath (c ∷ ys)
      → Indexed P V u name rest
      → OnChain name rest (path_of (c ∷ ys)) m
      → Link u name rest c ys m
  OnChain-Link u name [] c ys m h hc i k = absurd k
  OnChain-Link u name (a ∷ rest) c ys m h hc i (inl here) =
      first (sym (path_of-injective c a ys rest hc h here.0)) here.1
  OnChain-Link u name (a ∷ rest) c ys m h hc i (inr up) =
      raise a rest name (i.0) h.0 (OnChain-Link u (folder a) rest c ys m h.1 hc i.1 up)
    where
      raise :
          (a : Bytes) (rest : List Bytes) (n : Bytes)
          → V.member u (path_of (a ∷ rest)) n ≡ true
          → IsSegment a
          → Link u (folder a) rest c ys m
          → Link u name (a ∷ rest) c ys m
      raise a rest n e g (first same name_is) =
          above a g name_is
            (λ emptied. cc (e, subst (λ p. Empty P V u (path_of (a ∷ p))) (sym same) emptied n))
      raise a rest n e g (above x gx mx filled) = above x gx mx filled
