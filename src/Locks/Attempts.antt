-- ===== src/Locks/Attempts.antt =====
-- On which client a lock has been obtained.
use caddy_storage_redis.Prelude.{
  Bytes, true, Option, none, some, ◌≡◌, refl, ap, sym, ◌∙◌, Bool-cases, inl, inr,
}
use caddy_storage_redis.Go.Errors.{Error}
use caddy_storage_redis.Exec.{Result, ok, err, out_of_fuel}
use caddy_storage_redis.Platform.{Platform}
use caddy_storage_redis.Client.{Machine, RedisStorage, build_client}
use caddy_storage_redis.Reconnect.{is_client_closed_err, count_reconnect}
use caddy_storage_redis.Locks.{
  Redislock, HeldLock, obtain_on, on_fresh, retry_obtain, after_obtain, try_obtain_lock,
}

module _ (P : Platform) (R : Redislock P) (rs : RedisStorage P) (key : Bytes) where
  -- What stands behind a lock: the cached client gave the lease, or it is closed and a client that
  -- was built for it gave the lease, stays open and goes with the lock.
  pub data IsObtained (s : Machine P) (held : HeldLock P R) (t : Machine P) : Type 0 where
    cached :
        obtain_on P R rs.client key s ≡ (ok held.lock, t)
        → held.fresh_client ≡ none
        → IsObtained s held t
    one_shot :
        (e : Error) (u : Machine P) (fresh : P.Client) (v : Machine P)
        → obtain_on P R rs.client key s ≡ (err e, u)
        → is_client_closed_err e ≡ true
        → build_client P rs.config u ≡ (ok fresh, v)
        → obtain_on P R fresh key (count_reconnect P v) ≡ (ok held.lock, t)
        → held.fresh_client ≡ some fresh
        → IsObtained s held t

  abbrev Obtained : Type 0
  Obtained = Result (HeldLock P R) × Machine P

  -- A result that is a lock comes from its lease.
  of_lease :
      (lease : R.Lease) (c : Option P.Client) (held : HeldLock P R) (s t : Machine P)
      → ◌≡◌ {A = Obtained} (ok (record { lock = lease; fresh_client = c }), s) (ok held, t)
      → ◌≡◌ {A = Result R.Lease × Machine P} (ok lease, s) (ok held.lock, t)
        × (held.fresh_client ≡ c)
  of_lease lease c held s t e =
      let made : HeldLock P R = record { lock = lease; fresh_client = c } in
      let same : made ≡ held = cc e in
      let state : s ≡ t = cc e in
      (
        ap (λ (h : HeldLock P R). (ok h.lock, s)) same
            ∙ ap (λ (m : Machine P). (ok held.lock, m)) state,
        ap (λ (h : HeldLock P R). h.fresh_client) (sym same),
      )

  on_fresh_lem :
      (fresh : P.Client) (o : Result R.Lease × Machine P) (held : HeldLock P R) (t : Machine P)
      → on_fresh P R fresh o ≡ (ok held, t)
      → (o ≡ (ok held.lock, t)) × (held.fresh_client ≡ some fresh)
  unfolding on_fresh
  on_fresh_lem fresh (ok lease, s) held t e = of_lease lease (some fresh) held s t e
  on_fresh_lem fresh (err x, s) held t e = cc e
  on_fresh_lem fresh (out_of_fuel, s) held t e = cc e

  retry_obtain_lem :
      (e : Error) (o : Result P.Client × Machine P) (held : HeldLock P R) (t s u : Machine P)
      → obtain_on P R rs.client key s ≡ (err e, u)
      → is_client_closed_err e ≡ true
      → build_client P rs.config u ≡ o
      → retry_obtain P R key e o ≡ (ok held, t)
      → IsObtained s held t
  unfolding retry_obtain
  retry_obtain_lem e (ok fresh, v) held t s u first closed built h =
      let (second, kept) =
        on_fresh_lem fresh (obtain_on P R fresh key (count_reconnect P v)) held t h in
      one_shot e u fresh v first closed built second kept
  retry_obtain_lem e (err x, v) held t s u first closed built h = cc h
  retry_obtain_lem e (out_of_fuel, v) held t s u first closed built h = cc h

  after_obtain_lem :
      (o : Result R.Lease × Machine P) (held : HeldLock P R) (t s : Machine P)
      → obtain_on P R rs.client key s ≡ o
      → after_obtain P R rs key o ≡ (ok held, t)
      → IsObtained s held t
  unfolding after_obtain
  after_obtain_lem (ok lease, u) held t s first h =
      let (lease_is, kept) = of_lease lease none held u t h in cached (first ∙ lease_is) kept
  after_obtain_lem (err e, u) held t s first h = elim (Bool-cases (is_client_closed_err e)) [
    | inl closed ↦
        retry_obtain_lem e (build_client P rs.config u) held t s u first closed refl
          (rw (closed, after_obtain) at h)
    | inr open_still ↦ cc (rw (open_still, after_obtain) at h)
  ]
  after_obtain_lem (out_of_fuel, u) held t s first h = cc h

  -- A lock that tryObtainLock returns comes from one attempt on the cached client, or, if that is
  -- closed, from one more on a client that was built for it and that the lock keeps.
  pub try_obtain_lock-IsObtained :
      (s t : Machine P) (held : HeldLock P R)
      → try_obtain_lock P R rs key s ≡ (ok held, t)
      → IsObtained s held t
  unfolding try_obtain_lock
  try_obtain_lock-IsObtained s t held h =
      after_obtain_lem (obtain_on P R rs.client key s) held t s refl h
