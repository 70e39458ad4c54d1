-- ===== src/Directory/Index.antt =====
-- What it means that the directory index is sound, on the paths of the program's keys.
use caddy_storage_redis.Prelude.{
  Bytes, List, [], ◌∷◌, ◌++◌, Bool, true, false, if◌then◌else◌, ◌≡◌, ◌≢◌, ◌⊎◌, refl, sym, ap, ◌∙◌,
  arith,
}
use caddy_storage_redis.Go.Strings.{slash, trim_suffix, has_byte}
use caddy_storage_redis.Go.FilePath.{path_of, render}
use caddy_storage_redis.Go.FilePath.Segments.{IsPath, IsSegment, dir-path_of, base-path_of}
use caddy_storage_redis.Platform.{Platform}
use caddy_storage_redis.Platform.Redis.{Contents, Empty}
use caddy_storage_redis.Directory.{split_directory_key}

-- The name of a directory in the set of its parent.
abbrev pub folder : Bytes → Bytes
folder b = b ++ slash ∷ []

-- The name under which a key or a directory is listed.
abbrev pub entry : Bool → Bytes → Bytes
entry base_is_dir b = if base_is_dir then folder b else b

pub split_directory_key_lem :
    (b : Bytes) (rest : List Bytes) (base_is_dir : Bool)
    → IsPath (b ∷ rest)
    → split_directory_key (path_of (b ∷ rest)) base_is_dir
      ≡ (render false rest, entry base_is_dir b)
unfolding split_directory_key
split_directory_key_lem b rest base_is_dir h = rw (dir-path_of b rest h, base-path_of b rest h)

-- Listing gives back the name of a directory without its slash.
pub trim_suffix-folder : (b : Bytes) → trim_suffix slash (folder b) ≡ b
unfolding trim_suffix
trim_suffix-folder [] = refl
trim_suffix-folder (c ∷ []) = refl
trim_suffix-folder (c ∷ d ∷ b) = ap (◌∷◌ c) (trim_suffix-folder (d ∷ b))

pub folder-injective : (a b : Bytes) → folder a ≡ folder b → a ≡ b
folder-injective a b e =
    sym (trim_suffix-folder a) ∙ ap (trim_suffix slash) e ∙ trim_suffix-folder b

pub has_byte-folder : (b : Bytes) → has_byte slash (folder b) ≡ true
unfolding has_byte
has_byte-folder [] = refl
has_byte-folder (c ∷ b) = ground (arith, has_byte-folder b)

-- A segment is not the name of a directory.
pub folder-ne-segment : (b s : Bytes) → IsSegment s → folder b ≢ s
folder-ne-segment b s h e = cc (has_byte-folder b, h.no_slash, ap (has_byte slash) e)

module _ (P : Platform) (V : Contents P) where
  -- `name` is listed in the directory `parents`, and each of these in the one above it.
  abbrev pub Indexed : P.World → Bytes → List Bytes → Type 0
  Indexed w name [] = Unit {0}
  Indexed w name (a ∷ rest) =
      (V.member w (path_of (a ∷ rest)) name ≡ true) × Indexed w (folder a) rest

  -- A directory that lists anything is itself listed in the directory above it.
  pub record Linked (w : P.World) : Type 0 where
    pub up :
        (b a : Bytes) (rest : List Bytes) (m : Bytes)
        → IsPath (b ∷ a ∷ rest)
        → V.member w (path_of (b ∷ a ∷ rest)) m ≡ true
        → V.member w (path_of (a ∷ rest)) (folder b) ≡ true

  -- No directory is listed that lists nothing.
  pub record NoDangling (w : P.World) : Type 0 where
    pub filled :
        (b a : Bytes) (rest : List Bytes)
        → IsPath (b ∷ a ∷ rest)
        → V.member w (path_of (a ∷ rest)) (folder b) ≡ true
        → ¬ Empty P V w (path_of (b ∷ a ∷ rest))

  pub Linked-Indexed :
      (w : P.World)
      → Linked w
      → (rest : List Bytes) (a m : Bytes) → IsPath (a ∷ rest)
      → V.member w (path_of (a ∷ rest)) m ≡ true
      → Indexed w m (a ∷ rest)
  Linked-Indexed w l [] a m h e = (e, tt)
  Linked-Indexed w l (b ∷ rest) a m h e =
      (e, Linked-Indexed w l rest b (folder a) h.1 (l.up a b rest m h e))

  pub Indexed-grows :
      (w u : P.World)
      → ((j m : Bytes) → V.member w j m ≡ true → V.member u j m ≡ true)
      → (name : Bytes) (rest : List Bytes) → Indexed w name rest
      → Indexed u name rest
  Indexed-grows w u g name [] h = tt
  Indexed-grows w u g name (a ∷ rest) h = (g _ _ h.0, Indexed-grows w u g (folder a) rest h.1)

-- The member `m` of the set `j` is a link of the chain from `name` up through `parents`.
abbrev pub OnChain : Bytes → List Bytes → Bytes → Bytes → Type 0
OnChain name [] j m = ⊥
OnChain name (a ∷ rest) j m = ((j ≡ path_of (a ∷ rest)) × (m ≡ name)) ⊎ OnChain (folder a) rest j m
