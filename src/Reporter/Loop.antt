-- ===== src/Reporter/Loop.antt =====
-- certificate_reporter.go: what a worker does with the queue, and the start, the stop and the
-- statistics of a state.
use caddy_storage_redis.Prelude.{
  ℕ, ◌+◌, ◌*◌, ◌%◌, ◌^◌, Bytes, List, [], ◌∷◌, Bool, true, false, not, ◌&&◌, ◌||◌, Option, none,
  some, if◌then◌else◌, length, ltb, leb,
}
use caddy_storage_redis.Dict.{find, put, remove, is_some}
use caddy_storage_redis.Reporter.{CertificateWork, Counters, ReporterState, prune, second, add_one}

-- Work that could be taken, before what has been found so far.
abbrev pub is_due : ℕ → CertificateWork → Bool
is_due now w = not w.busy && leb w.due now

abbrev pub is_before : CertificateWork → Option (Bytes × CertificateWork) → Bool
is_before w none = true
is_before w (some (host, v)) = ltb w.due v.due

-- The loop of `run` over the work.
unfoldable pub select :
    ℕ
    → Option (Bytes × CertificateWork)
    → List (Bytes × CertificateWork)
    → Option (Bytes × CertificateWork)
select now selected [] = selected
select now selected ((host, w) ∷ m) =
    select now (if is_due now w && is_before w selected then some (host, w) else selected) m

-- The diagnostic of a minute, with its two counts.
unfoldable pub diagnose : ℕ → ReporterState → ReporterState × Option (ℕ × ℕ)
diagnose now s =
    let c = s.counters in
    if s.has_logger
      && leb (s.last_diagnostic + 60 * second) now
      && (ltb 0 c.dropped || ltb 0 c.failures)
    then (record s { last_diagnostic = now }, some (c.dropped, c.failures))
    else (s, none)

abbrev pub set_busy : Bool → CertificateWork → CertificateWork
set_busy b w = record w { busy = b }

-- The selected work is marked in the map.
abbrev pub mark : Option (Bytes × CertificateWork) → ReporterState → ReporterState
mark none s = s
mark (some (host, w)) s = record s { work = put host (set_busy true w) s.work }

-- One turn of `run` under the lock: the work that is taken, and the diagnostic.
unfoldable pub take_work :
    ℕ → ReporterState → Option (Bytes × CertificateWork) × ReporterState × Option (ℕ × ℕ)
unfolding prune select diagnose put
take_work now s =
    let t = prune now s in
    let selected = select now none t.work in
    let (u, diagnostic) = diagnose now (mark selected t) in (selected, u, diagnostic)

-- The work is an object that the map holds: what is done to it shows there, if it still stands
-- there.
abbrev pub write_back : Bytes → CertificateWork → ReporterState → ReporterState
write_back host w s =
    if is_some (find host s.work) then record s { work = put host w s.work } else s

-- What `process` has counted; only failures can be two.
pub record Tally : Type 0 where
  pub delivered : Bool
  pub accepted : Bool
  pub failures : ℕ

abbrev pub add_if : Bool → ℕ → ℕ
add_if b n = if b then add_one n else n

abbrev pub count : Tally → Counters → Counters
count t c = record c {
  delivered = add_if t.delivered c.delivered;
  accepted = add_if t.accepted c.accepted;
  failures = (c.failures + t.failures) % 2 ^ 64;
}

-- `run`, after `process` has answered for the work; what it has counted is added here
unfoldable pub finish_work :
    ℕ → Bytes → CertificateWork → Bool → Tally → ReporterState → ReporterState
unfolding find put remove
finish_work now host w keeps tally s =
    let t = write_back host (set_busy false w) (record s { counters = count tally s.counters }) in
    if not keeps || s.cancelled || leb w.expires now
    then record t { work = remove (w.candidate).hostname t.work }
    else t

-- `start`; the two workers count themselves when they run
unfoldable pub start : ReporterState → Bool × ReporterState
start s = if s.started || s.cancelled then (false, s) else (true, record s { started = true })

-- `cancel`, which `stop` begins with
abbrev pub cancel : ReporterState → ReporterState
cancel s = record s { cancelled = true }

-- `stop`, after the workers have ended
abbrev pub clear_work : ReporterState → ReporterState
clear_work s = record s { work = []; dedupe = [] }

-- `CertificateReporterStats`
pub record CertificateReporterStats : Type 0 where
  pub active : ℕ
  pub dedupe : ℕ
  pub workers : ℕ
  pub counters : Counters

-- `snapshot`
unfoldable pub snapshot : ReporterState → CertificateReporterStats
snapshot s = record {
  active = length s.work;
  dedupe = length s.dedupe;
  workers = s.workers;
  counters = s.counters;
}
