-- ===== src/Platform/Redis.antt =====
-- The documented behaviour of the Redis commands, on what a server holds: strings, and sorted sets
-- by their members. A command that fails is not constrained.
use caddy_storage_redis.Prelude.{
  ℕ, Bytes, List, Bool, true, false, ◌&&◌, ◌||◌, not, Option, none, some, ◌≡◌, ◌↔◌, equal, contains,
  if◌then◌else◌, ◌==◌, refl, ◌∙◌,
}
use caddy_storage_redis.Go.Errors.{Error, redis_nil, errors_is}
use caddy_storage_redis.Platform.{Platform, reply, ClientKind, UniversalOptions}

-- What is stored under a key, and which keys are for the values of the storage: others, such as
-- those of the locks of redislock, are listed in no directory. An empty sorted set does not exist.
pub record Contents (P : Platform) : Type 0 where
  pub is_value : Bytes → Bool
  pub string_at : P.World → Bytes → Option Bytes
  pub member : P.World → Bytes → Bytes → Bool

-- Two worlds hold the same under every key.
pub record Unchanged (P : Platform) (V : Contents P) (w u : P.World) : Type 0 where
  pub strings : (j : Bytes) → V.string_at u j ≡ V.string_at w j
  pub members : (j m : Bytes) → V.member u j m ≡ V.member w j m

pub record IsLawful (P : Platform) (V : Contents P) : Type 0 where
  -- a key holds a string or a sorted set, not both
  pub one_type : (w : P.World) (k v m : Bytes) → V.string_at w k ≡ some v → V.member w k m ≡ false
  pub get_found :
      (c : P.Client) (k v : Bytes) (w u : P.World)
      → P.get c k w ≡ ((some v, none), u)
      → (V.string_at w k ≡ some v) × Unchanged P V w u
  pub get_missing :
      (c : P.Client) (k : Bytes) (d : Option Bytes) (e : Error) (w u : P.World)
      → P.get c k w ≡ ((d, some e), u)
      → errors_is e redis_nil ≡ true
      → (V.string_at w k ≡ none) × Unchanged P V w u
  pub set_done :
      (c : P.Client) (k v : Bytes) (w u : P.World)
      → P.set c k v w ≡ (reply tt, u)
      → ((j : Bytes) → V.string_at u j ≡ (if equal k j then some v else V.string_at w j))
        × ((j m : Bytes) → V.member u j m ≡ (not (equal k j) && V.member w j m))
  pub del_done :
      (c : P.Client) (k : Bytes) (n : ℕ) (w u : P.World)
      → P.del c k w ≡ (reply n, u)
      → ((j : Bytes) → V.string_at u j ≡ (if equal k j then none else V.string_at w j))
        × ((j m : Bytes) → V.member u j m ≡ (not (equal k j) && V.member w j m))
  pub exists_done :
      (c : P.Client) (k : Bytes) (n : ℕ) (w u : P.World)
      → P.exists c k w ≡ (reply n, u)
      → Unchanged P V w u
        × ((n ≡ 0) ↔ ((V.string_at w k ≡ none) × ((m : Bytes) → V.member w k m ≡ false)))
  -- ZADD and ZREM fail at a string; the reply counts the members that were added, or removed
  pub zadd_done :
      (c : P.Client) (k : Bytes) (score : ℕ) (m : Bytes) (n : ℕ) (w u : P.World)
      → P.zadd c k score m w ≡ (reply n, u)
      → ((j : Bytes) → V.string_at u j ≡ V.string_at w j)
        × ((j x : Bytes) → V.member u j x ≡ (equal k j && equal m x || V.member w j x))
        × ((n == 0) ≡ V.member w k m)
  pub zrem_done :
      (c : P.Client) (k m : Bytes) (n : ℕ) (w u : P.World)
      → P.zrem c k m w ≡ (reply n, u)
      → (V.string_at w k ≡ none)
        × ((j : Bytes) → V.string_at u j ≡ V.string_at w j)
        × ((j x : Bytes) → V.member u j x ≡ (not (equal k j && equal m x) && V.member w j x))
  pub zrange_done :
      (c : P.Client) (k : Bytes) (ms : List Bytes) (w u : P.World)
      → P.zrange c k w ≡ (reply ms, u)
      → Unchanged P V w u × ((m : Bytes) → contains ms m ≡ V.member w k m)
  -- the clock, the random source and the clients do not write
  pub close_keeps : (c : P.Client) (w : P.World) → Unchanged P V w (P.close c w)
  pub new_client_keeps :
      (kind : ClientKind) (o : UniversalOptions) (w : P.World)
      → Unchanged P V w (P.new_client kind o w).1
  pub ping_keeps : (c : P.Client) (w : P.World) → Unchanged P V w (P.ping c w).1
  pub ping_shards_keeps : (c : P.Client) (w : P.World) → Unchanged P V w (P.ping_shards c w).1
  pub file_keeps : (f : Bytes) (w : P.World) → Unchanged P V w (P.read_file f w).1
  pub now_keeps : (w : P.World) → Unchanged P V w (P.now w).1
  pub random_keeps : (n : ℕ) (w : P.World) → Unchanged P V w (P.read_random n w).1

module _ (P : Platform) (V : Contents P) where
  pub Unchanged-refl : (w : P.World) → Unchanged P V w w
  Unchanged-refl w = record { strings = λ j. refl; members = λ j m. refl }

  pub Unchanged-trans :
      {w u v : P.World} → Unchanged P V w u → Unchanged P V u v → Unchanged P V w v
  Unchanged-trans h k = record {
    strings = λ j. k.strings j ∙ h.strings j;
    members = λ j m. k.members j m ∙ h.members j m;
  }

  -- One more member in one sorted set.
  abbrev pub HasAdded : Bytes → Bytes → P.World → P.World → Type 0
  HasAdded k m w u = (j x : Bytes) → V.member u j x ≡ (equal k j && equal m x || V.member w j x)

  -- One member less in one sorted set.
  abbrev pub HasRemoved : Bytes → Bytes → P.World → P.World → Type 0
  HasRemoved k m w u =
      (j x : Bytes) → V.member u j x ≡ (not (equal k j && equal m x) && V.member w j x)

  -- No member is in the sorted set.
  abbrev pub Empty : P.World → Bytes → Type 0
  Empty w k = (m : Bytes) → V.member w k m ≡ false
