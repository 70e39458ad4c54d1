-- ===== src/Go/FilePath.antt =====
-- Package `path`: slash-separated paths.
pub mod Segments
use caddy_storage_redis.Prelude.{
  ℕ, Bytes, List, [], ◌∷◌, ◌++◌, Bool, true, false, ◌&&◌, ◌||◌, ◌≡◌, refl, arith, ◌==◌,
  if◌then◌else◌, equal, is_empty, codes,
}
use mathlib.Core.List.{foldl}
use caddy_storage_redis.Go.Strings.{slash, split}

abbrev pub dot : Bytes
dot = codes "."

abbrev pub dot_dot : Bytes
dot_dot = codes ".."

-- A path from its segments, the last one first.
unfoldable pub path_of : List Bytes → Bytes
path_of [] = []
path_of (b ∷ []) = b
path_of (b ∷ a ∷ rest) = path_of (a ∷ rest) ++ (slash ∷ b)

abbrev pub is_rooted : Bytes → Bool
is_rooted [] = false
is_rooted (c ∷ s) = c == slash

-- What `Clean` does at "..": it drops the segment before it, if that can be dropped.
unfoldable pub go_up : Bool → List Bytes → List Bytes
unfolding equal
go_up rooted [] = if rooted then [] else dot_dot ∷ []
go_up rooted (a ∷ rest) = if equal a dot_dot then dot_dot ∷ a ∷ rest else rest

-- One segment of `Clean`, on the segments kept so far, the last one first.
unfoldable pub clean_segment : Bool → List Bytes → Bytes → List Bytes
unfolding equal go_up
clean_segment rooted kept s =
    if is_empty s || equal s dot
    then kept
    else if equal s dot_dot
    then go_up rooted kept
    else s ∷ kept

unfoldable pub render : Bool → List Bytes → Bytes
unfolding path_of
render true kept = slash ∷ path_of kept
render false [] = dot
render false (b ∷ rest) = path_of (b ∷ rest)

-- `path.Clean`
unfoldable pub clean : Bytes → Bytes
unfolding clean_segment render split
clean p = render (is_rooted p) (foldl (clean_segment (is_rooted p)) [] (split slash p))

-- The loop of `path.Join` that fills the buffer.
unfoldable pub join_onto : Bytes → List Bytes → Bytes
join_onto buf [] = buf
join_onto buf (e ∷ es) = join_onto (if is_empty buf then e else buf ++ (slash ∷ e)) es

-- `path.Join`
unfoldable pub join : List Bytes → Bytes
unfolding join_onto clean
join es = if is_empty (join_onto [] es) then [] else clean (join_onto [] es)

-- `path.Split`: up to and with the last slash, and what follows it.
unfoldable pub split_last : Bytes → Bytes × Bytes
split_last [] = ([], [])
split_last (c ∷ s) =
    let (d, f) = split_last s in
    if is_empty d then (if c == slash then (c ∷ [], f) else ([], c ∷ f)) else (c ∷ d, f)

-- `path.Dir`
unfoldable pub dir : Bytes → Bytes
unfolding split_last clean
dir p = clean (split_last p).0

-- The trailing slashes that `path.Base` strips.
unfoldable pub strip_slashes : Bytes → Bytes
strip_slashes [] = []
strip_slashes (c ∷ s) = elim (strip_slashes s) [
  | [] ↦ if c == slash then [] else c ∷ []
  | d ∷ t ↦ c ∷ d ∷ t
]

-- `path.Base`
unfoldable pub base : Bytes → Bytes
unfolding strip_slashes split_last
base p =
    if is_empty p
    then dot
    else let f = (split_last (strip_slashes p)).1 in if is_empty f then slash ∷ [] else f
