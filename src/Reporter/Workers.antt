-- ===== src/Reporter/Workers.antt =====
-- certificate_reporter.go: the two workers of a state, its clients and its end as a step relation.
pub mod Held
pub mod Offered
pub mod Turns
pub mod Safe
use caddy_storage_redis.Prelude.{
  ℕ, ◌+◌, ◌-◌, ◌≤◌, Bytes, Bool, true, false, Option, none, some, ◌≡◌, ◌⊎◌,
}
use caddy_storage_redis.Go.Strconv.{ℤ}
use caddy_storage_redis.Health.{MismatchCandidate}
use caddy_storage_redis.Reporter.{CertificateWork, ReporterState, new_state, try_enqueue}
use caddy_storage_redis.Reporter.Acceptance.{Formats}
use caddy_storage_redis.Reporter.Deliver.{Answers}
use caddy_storage_redis.Reporter.Process.{Processed, process}
use caddy_storage_redis.Reporter.Loop.{take_work, finish_work, start, cancel, clear_work}

pub data Worker : Type 0 where
  first second : Worker

-- Where a worker's goroutine stands: not begun, before its test of the context, after it, with work
-- in hand, waiting, or ended.
pub data Stage : Type 0 where
  not_begun looking turning waiting ended : Stage
  working : Bytes → CertificateWork → Stage

-- The work in hand at a stage.
abbrev pub hand_of : Stage → Option (Bytes × CertificateWork)
hand_of not_begun = none
hand_of looking = none
hand_of turning = none
hand_of waiting = none
hand_of ended = none
hand_of (working host w) = some (host, w)

-- What follows a turn: work on what it has found, or a wait.
abbrev pub after_turn : Option (Bytes × CertificateWork) → Stage
after_turn none = waiting
after_turn (some (host, w)) = working host w

-- A state with its two workers.
pub record Pool : Type 0 where
  pub state : ReporterState
  pub first : Stage
  pub second : Stage

abbrev pub stage_of : Worker → Pool → Stage
stage_of first p = p.first
stage_of second p = p.second

abbrev pub move : Worker → Stage → ReporterState → Pool → Pool
move first t s p = record p { state = s; first = t }
move second t s p = record p { state = s; second = t }

abbrev pub on_state : ReporterState → Pool → Pool
on_state s p = record p { state = s }

-- The number of workers, on which every worker counts itself.
abbrev pub rise : ReporterState → ReporterState
rise s = record s { workers = s.workers + 1 }

abbrev pub leave : ReporterState → ReporterState
leave s = record s { workers = s.workers - 1 }

-- A signal is taken out of the channel.
abbrev pub drain : ReporterState → ReporterState
drain s = record s { wake = s.wake - 1 }

-- A worker for which `wg.Wait` does not wait: it has ended, or none has been started.
abbrev pub IsOut : Stage → ReporterState → Type 0
IsOut t s = (t ≡ ended) ⊎ ((t ≡ not_begun) × (s.started ≡ false))

module _ (J : Formats) (digest : MismatchCandidate → Bytes) where
  -- What can happen to a pool: `TryEnqueue` by anybody; the begin of a worker, its test of the
  -- context, its turn under the lock, the end of its `process`, the end of its wait by a signal or
  -- by its ticker, and its end; `start` of the state, and `stop` in two parts, the end of the context
  -- and, when the workers have ended, the clearing. A time is any time.
  pub data Step : Pool → Pool → Type 0 where
    enqueues :
        (free : Bool) (now : ℕ) (c : MismatchCandidate) (p : Pool)
        → Step p (on_state (try_enqueue digest free now c p.state).1 p)
    rises :
        (v : Worker) (p : Pool)
        → stage_of v p ≡ not_begun
        → (p.state).started ≡ true
        → Step p (move v looking (rise p.state) p)
    looks :
        (v : Worker) (p : Pool)
        → stage_of v p ≡ looking
        → (p.state).cancelled ≡ false
        → Step p (move v turning p.state p)
    takes :
        (v : Worker) (now : ℕ) (p : Pool)
        → stage_of v p ≡ turning
        → Step p (move v (after_turn (take_work now p.state).0) (take_work now p.state).1 p)
    finishes :
        (v : Worker) (now : ℕ) (host : Bytes) (w : CertificateWork) (r : Answers)
        (result : Processed) (p : Pool)
        → stage_of v p ≡ working host w
        → process J p.state r w ≡ some result
        → Step p
            (move v looking (finish_work now host result.work result.keeps result.tally p.state) p)
    wakes :
        (v : Worker) (p : Pool)
        → stage_of v p ≡ waiting
        → 1 ≤ (p.state).wake
        → Step p (move v looking (drain p.state) p)
    ticks : (v : Worker) (p : Pool) → stage_of v p ≡ waiting → Step p (move v looking p.state p)
    leaves :
        (v : Worker) (p : Pool)
        → (stage_of v p ≡ looking) ⊎ (stage_of v p ≡ waiting)
        → (p.state).cancelled ≡ true
        → Step p (move v ended (leave p.state) p)
    starts : (p : Pool) → Step p (on_state (start p.state).1 p)
    cancels : (p : Pool) → Step p (on_state (cancel p.state) p)
    clears :
        (p : Pool)
        → (p.state).cancelled ≡ true
        → IsOut p.first p.state
        → IsOut p.second p.state
        → Step p (on_state (clear_work p.state) p)

  -- A pool that a new state can become.
  pub data Reach : Pool → Type 0 where
    begins :
        (cluster : ℤ) (machine endpoint token : Bytes) (has_logger : Bool)
        → Reach (record {
          state = new_state cluster machine endpoint token has_logger;
          first = not_begun;
          second = not_begun;
        })
    then_step : (p q : Pool) → Reach p → Step p q → Reach q
