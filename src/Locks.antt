-- ===== src/Locks.antt =====
-- storage.go: `Lock` with its retry and its refreshes, and `Unlock`. redislock is a parameter.
pub mod Laws
pub mod Attempts
use caddy_storage_redis.Prelude.{
  Bytes, List, [], ◌∷◌, ◌++◌, Bool, true, false, not, ◌&&◌, ◌||◌, Option, none, some, if◌then◌else◌,
  codes,
}
use caddy_storage_redis.Go.Errors.{Error, errorf, is_exactly, not_obtained}
use caddy_storage_redis.Exec.{Result, ok, err, out_of_fuel}
use caddy_storage_redis.Platform.{Platform, Reply, reply, fail}
use caddy_storage_redis.Client.{Machine, RedisStorage, build_client, close, call}
use caddy_storage_redis.Reconnect.{is_client_closed_err, reconnect_failed, count_reconnect}
use caddy_storage_redis.Directory.{prefix_lock}
use caddy_storage_redis.Dict.{find, put, remove}

-- redislock on a platform: to obtain a lease with the time to live of the program, to refresh it
-- and to release it.
pub record Redislock (P : Platform) : Type 1 where
  pub Lease : Type 0
  pub obtain : P.Client → Bytes → P.World → Reply Lease × P.World
  pub refresh : Lease → P.World → Option Error × P.World
  pub release : Lease → P.World → Option Error × P.World

-- Whether the refreshes of a lock go on after one of them.
unfoldable pub goes_on : Option Error → Bool
unfolding is_client_closed_err
goes_on none = true
goes_on (some e) = not (is_exactly e not_obtained) && not (is_client_closed_err e)

-- What `Unlock` makes of the error of `Release`.
unfoldable pub released : Bytes → Option Error → Result (Unit {0})
unfolding is_client_closed_err
released key none = ok tt
released key (some e) =
    if is_client_closed_err e
    then ok tt
    else err (errorf (codes "Unable to release lock for " ++ key) e)

module _ (P : Platform) (R : Redislock P) where
  -- `heldLock`; its refreshes go on until it is taken out of the map.
  pub record HeldLock : Type 0 where
    pub lock : R.Lease
    pub fresh_client : Option P.Client

  -- The machine, and `rs.locks`.
  pub record Locking : Type 0 where
    pub machine : Machine P
    pub locks : List (Bytes × HeldLock)

  abbrev Obtained : Type 0
  Obtained = Result HeldLock × Machine P

  -- `Obtain`, with the state after it.
  unfoldable pub obtain_on : P.Client → Bytes → Machine P → Result R.Lease × Machine P
  unfolding call
  obtain_on c key s = call P (R.obtain c key) s

  -- The second attempt, on the client that was built; it is closed again if it fails.
  unfoldable pub on_fresh : P.Client → Result R.Lease × Machine P → Obtained
  on_fresh fresh (ok lease, s) = (ok (record { lock = lease; fresh_client = some fresh }), s)
  on_fresh fresh (err e, s) = (err e, close P fresh s)
  on_fresh fresh (out_of_fuel, s) = (out_of_fuel, s)

  unfoldable pub retry_obtain : Bytes → Error → Result P.Client × Machine P → Obtained
  unfolding obtain_on on_fresh
  retry_obtain key e (ok fresh, s) = on_fresh fresh (obtain_on fresh key (count_reconnect P s))
  retry_obtain key e (err ferr, s) =
      (err (reconnect_failed (codes "redis storage: lock reconnect failed") ferr e), s)
  retry_obtain key e (out_of_fuel, s) = (out_of_fuel, s)

  unfoldable pub after_obtain : RedisStorage P → Bytes → Result R.Lease × Machine P → Obtained
  unfolding retry_obtain is_client_closed_err build_client
  after_obtain rs key (ok lease, s) = (ok (record { lock = lease; fresh_client = none }), s)
  after_obtain rs key (err e, s) =
      if is_client_closed_err e then retry_obtain key e (build_client P rs.config s) else (err e, s)
  after_obtain rs key (out_of_fuel, s) = (out_of_fuel, s)

  -- `tryObtainLock`
  unfoldable pub try_obtain_lock : RedisStorage P → Bytes → Machine P → Obtained
  unfolding after_obtain obtain_on
  try_obtain_lock rs key s = after_obtain rs key (obtain_on rs.client key s)

  -- One round of `Lock`: an end of the loop, or nothing if it has to wait.
  unfoldable pub end_round :
      Bytes → Obtained → List (Bytes × HeldLock) → Option (Result (Unit {0})) × Locking
  unfolding put
  end_round key (ok held, s) locks =
      (some (ok tt), record { machine = s; locks = put key held locks })
  end_round key (err e, s) locks = (
    if is_exactly e not_obtained
        then none
        else some (err (errorf (codes "Unable to obtain lock for " ++ key) e)),
    record { machine = s; locks = locks },
  )
  end_round key (out_of_fuel, s) locks = (some out_of_fuel, record { machine = s; locks = locks })

  abbrev pub round : RedisStorage P → Bytes → Locking → Option (Result (Unit {0})) × Locking
  round rs key s = end_round key (try_obtain_lock rs key s.machine) s.locks

  -- The loop of `Lock`, with the ends of its waits: the time is up, or the context has ended with an
  -- error. Without a further end of a wait it waits still.
  unfoldable pub lock_loop :
      RedisStorage P → Bytes → List (Option Error) → Locking → Result (Unit {0}) × Locking
  unfolding end_round try_obtain_lock
  lock_loop rs key [] s =
      let (ended, t) = round rs key s in elim ended [ some r ↦ (r, t) | none ↦ (out_of_fuel, t) ]
  lock_loop rs key (wait ∷ waits) s =
      let (ended, t) = round rs key s in
      elim ended [
        | some r ↦ (r, t)
        | none ↦ elim wait [ some e ↦ (err e, t) | none ↦ lock_loop rs key waits t ]
      ]

  -- `Lock`
  unfoldable pub lock :
      RedisStorage P → Bytes → List (Option Error) → Locking → Result (Unit {0}) × Locking
  unfolding lock_loop prefix_lock
  lock rs name waits s = lock_loop rs (prefix_lock rs.config name) waits s

  -- One turn of the goroutine that refreshes a lock.
  unfoldable pub refresh_lock : HeldLock → Machine P → Bool × Machine P
  unfolding goes_on
  refresh_lock held s =
      let (e, w) = R.refresh held.lock s.world in (goes_on e, record s { world = w })

  abbrev pub close_fresh : Option P.Client → Machine P → Machine P
  close_fresh none s = s
  close_fresh (some fresh) s = close P fresh s

  unfoldable pub release_held : Bytes → HeldLock → Machine P → Result (Unit {0}) × Machine P
  unfolding released
  release_held key held s =
      let (e, w) = R.release held.lock s.world in
      (released key e, close_fresh held.fresh_client (record s { world = w }))

  -- `LoadAndDelete`, and what is done with the lock.
  unfoldable pub unlock_key : Bytes → Locking → Result (Unit {0}) × Locking
  unfolding find remove release_held
  unlock_key key s = elim (find key s.locks) [
    | none ↦ (ok tt, s)
    | some held ↦
        let (r, t) = release_held key held s.machine in
        (r, record { machine = t; locks = remove key s.locks })
  ]

  -- `Unlock`
  unfoldable pub unlock : RedisStorage P → Bytes → Locking → Result (Unit {0}) × Locking
  unfolding unlock_key prefix_lock
  unlock rs name s = unlock_key (prefix_lock rs.config name) s
