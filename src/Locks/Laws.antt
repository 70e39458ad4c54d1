-- ===== src/Locks/Laws.antt =====
-- What `Lock` leaves, and that `Unlock` releases it.
use mathlib.Core.Path.{subst}
use caddy_storage_redis.Prelude.{
  Bytes, List, [], ◌∷◌, Option, none, some, if◌then◌else◌, ◌≡◌, ◌≢◌, inl, inr, refl, sym, ap, ◌∙◌,
  equal, equal_iff, Bool-cases, Option-cases, arith,
}
use caddy_storage_redis.Go.Errors.{Error, is_exactly, not_obtained}
use caddy_storage_redis.Exec.{Result, ok, err, out_of_fuel}
use caddy_storage_redis.Platform.{Platform}
use caddy_storage_redis.Client.{Machine, RedisStorage}
use caddy_storage_redis.Directory.{prefix_lock}
use caddy_storage_redis.Dict.{find, find-put, find-remove}
use caddy_storage_redis.Locks.{
  Redislock, HeldLock, Locking, try_obtain_lock, end_round, round, lock_loop, lock, released,
  release_held, unlock_key, unlock,
}

pair {ℓ κ} : {A : Type ℓ} {B : Type κ} {p : A × B} {a : A} → p.0 ≡ a → p ≡ (a, p.1)
pair {p = p} e = ap (λ z. (z, p.1)) e

module _ (P : Platform) (R : Redislock P) (rs : RedisStorage P) where
  abbrev Lock : Type 0
  Lock = HeldLock P R

  abbrev State : Type 0
  State = Locking P R

  -- A lock that has been obtained under a key stands in the map, whose other entries are as before.
  pub record IsHeld (key : Bytes) (before after : State) (held : Lock) : Type 0 where
    pub machine : Machine P
    pub obtained : (try_obtain_lock P R rs key machine).0 ≡ ok held
    pub stored : find key after.locks ≡ some held
    pub others : (k : Bytes) → k ≢ key → find k after.locks ≡ find k before.locks

  -- What a round or the whole of `Lock` comes to.
  abbrev pub Outcome : Bytes → State → Result (Unit {0}) × State → Type 0
  Outcome key before (ok _, after) = (held : Lock) × IsHeld key before after held
  Outcome key before (err e, after) = after.locks ≡ before.locks
  Outcome key before (out_of_fuel, after) = after.locks ≡ before.locks

  -- A round that does not end leaves the map too.
  abbrev Round : Bytes → State → Option (Result (Unit {0})) × State → Type 0
  Round key before (none, after) = after.locks ≡ before.locks
  Round key before (some r, after) = Outcome key before (r, after)

  end_round-Round :
      (key : Bytes) (s : State) (o : Result Lock × Machine P)
      → try_obtain_lock P R rs key s.machine ≡ o
      → Round key s (end_round P R key o s.locks)
  unfolding end_round
  end_round-Round key s (ok held, m) e = (
    held,
    record {
      machine = s.machine;
      obtained = ap (λ (x : Result Lock × Machine P). x.0) e;
      stored = ground (arith, find-put key key held s.locks, equal_iff key key);
      others = λ k other. ground (arith, find-put key k held s.locks, equal_iff key k, other);
    },
  )
  end_round-Round key s (err e, m) h = elim (Bool-cases (is_exactly e not_obtained)) [
    | inl taken ↦ rw (taken, end_round) refl
    | inr broken ↦ rw (broken, end_round) refl
  ]
  end_round-Round key s (out_of_fuel, m) e = refl

  -- A later outcome is one of the first state, whose map was the same.
  earlier :
      (key : Bytes) (s t : State) (r : Result (Unit {0}) × State)
      → t.locks ≡ s.locks
      → Outcome key t r
      → Outcome key s r
  earlier key s t (ok _, u) same (held, h) = (
    held,
    record {
      machine = h.machine;
      obtained = h.obtained;
      stored = h.stored;
      others = λ k other. h.others k other ∙ ap (find k) same;
    },
  )
  earlier key s t (err e, u) same h = h ∙ same
  earlier key s t (out_of_fuel, u) same h = h ∙ same

  round-Round : (key : Bytes) (s : State) → Round key s (round P R rs key s)
  round-Round key s = end_round-Round key s (try_obtain_lock P R rs key s.machine) refl

  -- An end of a round, as the outcome of the loop.
  ended :
      (key : Bytes) (s t : State) (r : Result (Unit {0}))
      → round P R rs key s ≡ (some r, t)
      → Outcome key s (r, t)
  ended key s t r e = subst (Round key s) e (round-Round key s)

  waited : (key : Bytes) (s t : State) → round P R rs key s ≡ (none, t) → t.locks ≡ s.locks
  waited key s t e = subst (Round key s) e (round-Round key s)

  lock_loop-Outcome :
      (key : Bytes) (waits : List (Option Error)) (s : State)
      → Outcome key s (lock_loop P R rs key waits s)
  unfolding lock_loop
  lock_loop-Outcome key [] s =
      let t = (round P R rs key s).1 in
      elim (Option-cases (round P R rs key s).0) [
        | inl wait ↦ rw (wait, lock_loop) (waited key s t (pair wait))
        | inr (r, done) ↦ rw (done, lock_loop) (ended key s t r (pair done))
      ]
  lock_loop-Outcome key (some e ∷ waits) s =
      let t = (round P R rs key s).1 in
      elim (Option-cases (round P R rs key s).0) [
        | inl wait ↦ rw (wait, lock_loop) (waited key s t (pair wait))
        | inr (r, done) ↦ rw (done, lock_loop) (ended key s t r (pair done))
      ]
  lock_loop-Outcome key (none ∷ waits) s =
      let t = (round P R rs key s).1 in
      elim (Option-cases (round P R rs key s).0) [
        | inl wait ↦
            rw (wait, lock_loop)
              (earlier key s t (lock_loop P R rs key waits t) (waited key s t (pair wait))
                (lock_loop-Outcome key waits t))
        | inr (r, done) ↦ rw (done, lock_loop) (ended key s t r (pair done))
      ]

  -- When `Lock` succeeds, the map of locks holds what an attempt has obtained under the key of the
  -- name; in every other case, and for every other key, the map is as it was.
  pub lock-Outcome :
      (name : Bytes) (waits : List (Option Error)) (s : State)
      → Outcome (prefix_lock rs.config name) s (lock P R rs name waits s)
  unfolding lock
  lock-Outcome name waits s = lock_loop-Outcome (prefix_lock rs.config name) waits s

  -- What `Unlock` does with a lock that stands in the map after `Lock`.
  pub record IsReleased (key : Bytes) (before after : State) (held : Lock)
      (out : Result (Unit {0}) × State) : Type 0 where
    pub result : out.0 ≡ released key (R.release held.lock (after.machine).world).0
    -- without a one-shot client nothing follows the release
    pub cached :
        held.fresh_client ≡ none
        → (out.1).machine
          ≡ record (after.machine) { world = (R.release held.lock (after.machine).world).1 }
    -- a one-shot client is closed in the world that the release leaves
    pub one_shot :
        (fresh : P.Client)
        → held.fresh_client ≡ some fresh
        → (out.1).machine ≡ record (after.machine) {
          world = P.close fresh (R.release held.lock (after.machine).world).1;
        }
    pub locks :
        (k : Bytes) → find k (out.1).locks ≡ (if equal key k then none else find k before.locks)

  unlock_key-IsReleased :
      (key : Bytes) (s t : State) (held : Lock)
      → IsHeld key s t held
      → IsReleased key s t held (unlock_key P R key t)
  unfolding unlock_key release_held
  unlock_key-IsReleased key s t held h =
      rw (h.stored, unlock_key)
        (record {
          result = refl;
          cached = λ none_kept. rw none_kept refl;
          one_shot = λ fresh kept. rw kept refl;
          locks = λ k. elim (Bool-cases (equal key k)) [
            | inl same ↦ find-remove key k t.locks ∙ rw same refl
            | inr other ↦
                find-remove key k t.locks
                ∙ rw other (h.others k (λ this. cc (other, (equal_iff key k).1 (sym this))))
          ];
        })

  -- The lock that `Unlock` releases after a successful `Lock` of the name is the one that was
  -- obtained; its one-shot client, if any, is closed after the release, whether that succeeds or
  -- not; and the map of locks is as before `Lock`, without an entry for the key.
  pub unlock-lock :
      (name : Bytes) (waits : List (Option Error)) (s t : State) (u : Unit {0})
      → lock P R rs name waits s ≡ (ok u, t)
      → let key = prefix_lock rs.config name in
        (held : Lock) × IsHeld key s t held × IsReleased key s t held (unlock P R rs name t)
  unfolding unlock
  unlock-lock name waits s t u e =
      let key = prefix_lock rs.config name in
      let (held, h) = subst (Outcome key s) e (lock-Outcome name waits s) in
      (held, h, unlock_key-IsReleased key s t held h)
