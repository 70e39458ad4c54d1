-- ===== src/Tests/Memory.antt =====
-- A server that keeps its contents in memory, and obeys the laws that are asked of a server. A
-- client is open or closed; the commands of a closed one fail.
use mathlib.Core.Path.{subst}
use caddy_storage_redis.Prelude.{
  ℕ, Bytes, List, [], ◌∷◌, Bool, true, false, ◌&&◌, ◌||◌, not, Option, none, some, ◌≡◌, ◌↔◌, refl,
  sym, ap, ◌∙◌, arith, equal, equal_iff, contains, if◌then◌else◌, ◌==◌, codes, Bool-cases,
  Option-cases, inl, inr, zero, suc,
}
use caddy_storage_redis.Go.Errors.{Error, new_error, sentinel, redis_nil, errors_is}
use caddy_storage_redis.Platform.{Platform, Reply, reply, fail}
use caddy_storage_redis.Platform.Redis.{Contents, IsLawful, Unchanged, Unchanged-refl}

pub record Held : Type 0 where
  pub strings : Bytes → Option Bytes
  pub sets : Bytes → List Bytes

abbrev client_closed : Error
client_closed = new_error (codes "redis: client is closed")

abbrev wrong_type : Error
wrong_type = new_error (codes "WRONGTYPE Operation against a key holding the wrong kind of value")

abbrev pub nil_reply : Error
nil_reply = sentinel (codes "redis: nil") redis_nil

abbrev without : Bytes → List Bytes → List Bytes
without m [] = []
without m (x ∷ xs) = if equal m x then without m xs else x ∷ without m xs

abbrev at_key : {A : Type 0} → Bytes → A → (Bytes → A) → Bytes → A
at_key k a f j = if equal k j then a else f j

abbrev found : Option Bytes → Option Bytes × Option Error
found (some v) = (some v, none)
found none = (none, some nil_reply)

abbrev is_string : Option Bytes → Bool
is_string (some _) = true
is_string none = false

abbrev added : Bytes → Bytes → Held → Reply ℕ × Held
added k m w =
    if is_string (w.strings k)
    then (fail wrong_type, w)
    else if contains (w.sets k) m
    then (reply 0, w)
    else (reply 1, record w { sets = at_key k (m ∷ w.sets k) w.sets })

abbrev removed : Bytes → Bytes → Held → Reply ℕ × Held
removed k m w = if is_string (w.strings k) then (fail wrong_type, w) else (
  reply (if contains (w.sets k) m then 1 else 0),
  record w { sets = at_key k (without m (w.sets k)) w.sets },
)

abbrev erased : Bytes → Held → Held
erased k w = record { strings = at_key k none w.strings; sets = at_key k [] w.sets }

abbrev has_none : List Bytes → Bool
has_none [] = true
has_none (x ∷ xs) = false

abbrev count_of : Option Bytes → List Bytes → ℕ
count_of o xs = if is_string o then 1 else if has_none xs then 0 else 1

abbrev counted : Bytes → Held → ℕ
counted k w = count_of (w.strings k) (w.sets k)

abbrev pub zeros : ℕ → Bytes
zeros zero = []
zeros (suc n) = 0 ∷ zeros n

abbrev closed_or : {A : Type 0} → Bool → Held → Reply A × Held → Reply A × Held
closed_or is_open w r = if is_open then r else (fail client_closed, w)

abbrev pub memory : Platform
memory = record {
  World = Held;
  Client = Bool;
  new_client = λ kind o w. (true, w);
  ping = λ c w. (reply tt, w);
  ping_shards = λ c w. (reply tt, w);
  close = λ c w. w;
  get = λ c k w. if c then (found (w.strings k), w) else ((none, some client_closed), w);
  set = λ c k v w.
      closed_or c w
        (reply tt, record { strings = at_key k (some v) w.strings; sets = at_key k [] w.sets });
  del = λ c k w. closed_or c w (reply (counted k w), erased k w);
  exists = λ c k w. closed_or c w (reply (counted k w), w);
  zadd = λ c k score m w. closed_or c w (added k m w);
  zrem = λ c k m w. closed_or c w (removed k m w);
  zrange = λ c k w.
      if is_string (w.strings k) then (fail wrong_type, w) else closed_or c w (reply (w.sets k), w);
  scan = λ c cursor pattern n w. (fail client_closed, w);
  type_of = λ c k w. (if is_string (w.strings k) then codes "string" else codes "zset", w);
  now = λ w. (1000000000, w);
  read_random = λ n w. (reply (zeros n), w);
  read_file = λ f w. (fail (new_error (codes "no such file")), w);
  append_certs_from_pem = λ pem. true;
}

abbrev pub contents : Contents memory
contents = record {
  is_value = λ k. not (equal k (codes "caddy/locks/site"));
  string_at = λ w k. w.strings k;
  member = λ w k m. not (is_string (w.strings k)) && contains (w.sets k) m;
}

contains-without :
    (m x : Bytes) (xs : List Bytes) → contains (without m xs) x ≡ (not (equal m x) && contains xs x)
unfolding contains
contains-without m x [] = ground arith
contains-without m x (y ∷ ys) =
    ground (arith, contains-without m x ys, equal_iff m y, equal_iff y x, equal_iff m x)

same_contents : (w : Held) → Unchanged memory contents w w
same_contents w = Unchanged-refl memory contents w

found-some : (o : Option Bytes) (v : Bytes) → found o ≡ (some v, none) → o ≡ some v
found-some none v e = cc
found-some (some x) v e = ground arith

found-none : (o d : Option Bytes) (e : Error) → found o ≡ (d, some e) → o ≡ none
found-none none d e h = refl
found-none (some x) d e h = cc

get_found :
    (c : Bool) (k v : Bytes) (w u : Held)
    → memory.get c k w ≡ ((some v, none), u)
    → (w.strings k ≡ some v) × Unchanged memory contents w u
get_found true k v w u e = (
  found-some (w.strings k) v (ap (λ p. p.0) e),
  subst (Unchanged memory contents w) (ap (λ p. p.1) e) (same_contents w),
)
get_found false k v w u e = cc

get_missing :
    (c : Bool) (k : Bytes) (d : Option Bytes) (e : Error) (w u : Held)
    → memory.get c k w ≡ ((d, some e), u)
    → errors_is e redis_nil ≡ true
    → (w.strings k ≡ none) × Unchanged memory contents w u
get_missing true k d e w u h i = (
  found-none (w.strings k) d e (ap (λ p. p.0) h),
  subst (Unchanged memory contents w) (ap (λ p. p.1) h) (same_contents w),
)
get_missing false k d e w u h i =
    let closed : errors_is client_closed redis_nil ≡ false = refl in
    let same : some client_closed ≡ some e = ap (λ p. p.0.1) h in cc

set_done :
    (c : Bool) (k v : Bytes) (w u : Held)
    → memory.set c k v w ≡ (reply tt, u)
    → ((j : Bytes) → u.strings j ≡ (if equal k j then some v else w.strings j))
      × ((j m : Bytes) → contents.member u j m ≡ (not (equal k j) && contents.member w j m))
set_done true k v w u e = (
  (λ j. λ i. (sym e i).1.strings j),
  λ j m. (λ i. contents.member (sym e i).1 j m) ∙ ground arith,
)
set_done false k v w u e = cc

del_done :
    (c : Bool) (k : Bytes) (n : ℕ) (w u : Held)
    → memory.del c k w ≡ (reply n, u)
    → ((j : Bytes) → u.strings j ≡ (if equal k j then none else w.strings j))
      × ((j m : Bytes) → contents.member u j m ≡ (not (equal k j) && contents.member w j m))
unfolding contains
del_done true k n w u e = (
  (λ j. λ i. (sym e i).1.strings j),
  λ j m. (λ i. contents.member (sym e i).1 j m) ∙ ground arith,
)
del_done false k n w u e = cc

zadd_done :
    (c : Bool) (k : Bytes) (score : ℕ) (m : Bytes) (n : ℕ) (w u : Held)
    → memory.zadd c k score m w ≡ (reply n, u)
    → ((j : Bytes) → u.strings j ≡ w.strings j)
      × ((j x : Bytes) → contents.member u j x ≡ (equal k j && equal m x || contents.member w j x))
      × ((n == 0) ≡ contents.member w k m)
unfolding contains
zadd_done true k score m n w u e = elim (Option-cases (w.strings k)) [
  | inr (v, text) ↦ cc (rw text at e)
  | inl bare ↦ elim (Bool-cases (contains (w.sets k) m)) [
    | inl there ↦
        let r = rw (bare, there) at e in
        let same : w ≡ u = ap (λ p. p.1) r in
        (
          (λ j. λ i. (sym same i).strings j),
          (λ j x.
              (λ i. contents.member (sym same i) j x)
              ∙ ground (arith, equal_iff k j, equal_iff m x)),
          ground arith,
        )
    | inr missing ↦
        let r = rw (bare, missing) at e in
        let same = ap (λ p. p.1) r in
        (
          (λ j. λ i. (sym same i).strings j),
          (λ j x.
              (λ i. contents.member (sym same i) j x)
              ∙ ground (arith, equal_iff k j, equal_iff m x)),
          ground arith,
        )
  ]
]
zadd_done false k score m n w u e = cc

zrem_done :
    (c : Bool) (k m : Bytes) (n : ℕ) (w u : Held)
    → memory.zrem c k m w ≡ (reply n, u)
    → (w.strings k ≡ none)
      × ((j : Bytes) → u.strings j ≡ w.strings j)
      × ((j x : Bytes)
          → contents.member u j x ≡ (not (equal k j && equal m x) && contents.member w j x))
unfolding contains
zrem_done true k m n w u e = elim (Option-cases (w.strings k)) [
  | inr (v, text) ↦ cc (rw text at e)
  | inl bare ↦
      let same = ap (λ p. p.1) (rw bare at e) in
      (
        bare,
        (λ j. λ i. (sym same i).strings j),
        (λ j x.
            (λ i. contents.member (sym same i) j x)
            ∙ ground (arith, equal_iff k j, contains-without m x (w.sets k))),
      )
]
zrem_done false k m n w u e = cc

has_none-contains : (xs : List Bytes) → (has_none xs ≡ true) ↔ ((m : Bytes) → contains xs m ≡ false)
unfolding contains
has_none-contains [] = ground arith
has_none-contains (x ∷ xs) = (λ e. cc, λ none. absurd (ground (arith, none x, equal_iff x x)))

counted_lem :
    (o : Option Bytes) (xs : List Bytes)
    → (count_of o xs ≡ 0)
      ↔ ((o ≡ none) × ((m : Bytes) → (not (is_string o) && contains xs m) ≡ false))
counted_lem (some v) xs = (λ e. absurd (ground arith), λ p. cc (p.0))
counted_lem none [] = (λ e. (refl, (has_none-contains []).0 refl), λ p. refl)
counted_lem none (x ∷ xs) =
    (λ e. absurd (ground arith), λ p. cc ((has_none-contains (x ∷ xs)).1 (λ m. p.1 m)))

exists_done :
    (c : Bool) (k : Bytes) (n : ℕ) (w u : Held)
    → memory.exists c k w ≡ (reply n, u)
    → Unchanged memory contents w u
      × ((n ≡ 0) ↔ ((w.strings k ≡ none) × ((m : Bytes) → contents.member w k m ≡ false)))
exists_done true k n w u e = (
  subst (Unchanged memory contents w) (ap (λ p. p.1) e) (same_contents w),
  subst (λ x. (x ≡ 0) ↔ ((w.strings k ≡ none) × ((m : Bytes) → contents.member w k m ≡ false)))
      (replied (ap (λ p. p.0) e)) (counted_lem (w.strings k) (w.sets k)),
)
  where
    replied : {a b : ℕ} → reply a ≡ reply b → a ≡ b
    replied h = ground arith
exists_done false k n w u e = cc

zrange_done :
    (c : Bool) (k : Bytes) (ms : List Bytes) (w u : Held)
    → memory.zrange c k w ≡ (reply ms, u)
    → Unchanged memory contents w u × ((m : Bytes) → contains ms m ≡ contents.member w k m)
zrange_done true k ms w u e = elim (Option-cases (w.strings k)) [
  | inr (v, text) ↦ cc (rw text at e)
  | inl bare ↦
      let r = rw bare at e in
      (
        subst (Unchanged memory contents w) (ap (λ p. p.1) r) (same_contents w),
        λ m. rw bare (sym (ap (λ xs. contains xs m) (replied (ap (λ p. p.0) r)))),
      )
]
  where
    replied : {a b : List Bytes} → reply a ≡ reply b → a ≡ b
    replied h = ground arith
zrange_done false k ms w u e = elim (Option-cases (w.strings k)) [
  | inr (v, text) ↦ cc (rw text at e)
  | inl bare ↦ cc (rw bare at e)
]

pub memory-IsLawful : IsLawful memory contents
memory-IsLawful = record {
  one_type = λ w k v m e. ground arith;
  get_found = get_found;
  get_missing = get_missing;
  set_done = set_done;
  del_done = del_done;
  exists_done = exists_done;
  zadd_done = zadd_done;
  zrem_done = zrem_done;
  zrange_done = zrange_done;
  close_keeps = λ c w. same_contents w;
  new_client_keeps = λ kind o w. same_contents w;
  ping_keeps = λ c w. same_contents w;
  ping_shards_keeps = λ c w. same_contents w;
  file_keeps = λ f w. same_contents w;
  now_keeps = λ w. same_contents w;
  random_keeps = λ n w. same_contents w;
}
