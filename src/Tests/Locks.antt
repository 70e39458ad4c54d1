-- ===== src/Tests/Locks.antt =====
-- Runs of the locks, with leases that are given at once by a client that is open.
use caddy_storage_redis.Prelude.{
  Bytes, [], true, false, none, some, if◌then◌else◌, ◌≡◌, refl, codes, contains, equal,
}
use caddy_storage_redis.Go.Errors.{new_error}
use caddy_storage_redis.Go.Strings.{has_substring}
use caddy_storage_redis.Go.Strconv.{atoi}
use caddy_storage_redis.Go.FilePath.{join}
use caddy_storage_redis.Exec.{Result, ok, ◌>>=◌}
use caddy_storage_redis.Platform.{Platform, reply, fail}
use caddy_storage_redis.Client.{Machine, RedisStorage, build_client, call}
use caddy_storage_redis.Reconnect.{is_client_closed_err}
use caddy_storage_redis.Directory.{prefix_lock, prefix_key}
use caddy_storage_redis.Locks.{Redislock, HeldLock, Locking, try_obtain_lock, lock, unlock}
use caddy_storage_redis.Locks.Laws.{Outcome, IsHeld, IsReleased, lock-Outcome, unlock-lock}
use caddy_storage_redis.Locks.Attempts.{IsObtained, try_obtain_lock-IsObtained}
use caddy_storage_redis.Tests.Memory.{memory}
use caddy_storage_redis.Tests.Caddy.{start, secret}

-- A server on which a client that is closed leaves a trace.
abbrev closing : Platform
closing = record memory {
  close =
      λ c w. record w { strings = λ k. if equal (codes "closed") k then some [] else w.strings k };
}

abbrev leases : Redislock closing
leases = record {
  Lease = Bytes;
  obtain =
      λ c key w. (if c then reply key else fail (new_error (codes "redis: client is closed")), w);
  refresh = λ lease w. (none, w);
  release = λ lease w. (none, w);
}

abbrev cached_storage : RedisStorage closing
cached_storage = record { client = false; config = secret }

abbrev begun : Machine closing
begun = record { world = start.world; reconnect_count = 0 }

abbrev unlocked : Locking closing leases
unlocked = record { machine = begun; locks = [] }

abbrev name : Bytes
name = codes "site"

lock-Outcome_example :
    Outcome closing leases cached_storage
      (prefix_lock cached_storage.config name)
      unlocked
      (lock closing leases cached_storage name [] unlocked)
lock-Outcome_example = lock-Outcome closing leases cached_storage name [] unlocked

abbrev locked : Locking closing leases
locked = (lock closing leases cached_storage name [] unlocked).1

lock_succeeds : lock closing leases cached_storage name [] unlocked ≡ (ok tt, locked)
unfolding lock is_client_closed_err build_client call has_substring equal atoi contains ◌>>=◌
lock_succeeds = refl

unlock-lock_example :
    (held : HeldLock closing leases) × IsHeld closing leases cached_storage
      (prefix_lock cached_storage.config name)
      unlocked
      locked
      held
    × IsReleased closing leases cached_storage
        (prefix_lock cached_storage.config name)
        unlocked
        locked
        held
        (unlock closing leases cached_storage name locked)
unlock-lock_example =
    unlock-lock closing leases cached_storage name [] unlocked locked tt lock_succeeds

-- The one-shot client of the lock is closed after the release.
closes_fresh :
    ((unlock closing leases cached_storage name locked).1).machine.world.strings (codes "closed")
    ≡ some []
unfolding lock unlock is_client_closed_err build_client call has_substring equal atoi contains ◌>>=◌
    prefix_key join
closes_fresh = refl

abbrev attempt : Result (HeldLock closing leases) × Machine closing
attempt = try_obtain_lock closing leases cached_storage name begun

abbrev kept : HeldLock closing leases
kept = record { lock = name; fresh_client = some true }

obtained : attempt ≡ (ok kept, attempt.1)
unfolding try_obtain_lock is_client_closed_err build_client call has_substring equal atoi contains
    ◌>>=◌
obtained = refl

try_obtain_lock-IsObtained_example :
    IsObtained closing leases cached_storage name begun kept (attempt.1)
try_obtain_lock-IsObtained_example =
    try_obtain_lock-IsObtained closing leases cached_storage name begun (attempt.1) kept obtained
