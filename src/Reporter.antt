-- ===== src/Reporter.antt =====
-- certificate_reporter.go: the work of a reporter, and the queue that it stands in. A time is a
-- count of nanoseconds from the first instant of Go's `time.Time`, so that the zero time is 0.
pub mod Loop
pub mod Identifier
pub mod Acceptance
pub mod Deliver
pub mod Process
pub mod Ends
pub mod Work
pub mod Followed
pub mod Queue
pub mod Uuid
pub mod Earliest
pub mod Handed
pub mod Workers
use caddy_storage_redis.Prelude.{
  ℕ, ◌+◌, ◌*◌, ◌%◌, ◌^◌, Bytes, List, [], ◌∷◌, Bool, true, false, not, ◌&&◌, ◌||◌, Option, none,
  some, if◌then◌else◌, equal, length, ltb, leb, ◌==◌,
}
use caddy_storage_redis.Go.Strconv.{ℤ}
use caddy_storage_redis.Dict.{find, put, remove, keep, is_some}
use caddy_storage_redis.Health.{
  MismatchCandidate, valid_health_hostname, valid_health_issuer, lower_hex,
}

abbrev pub certificate_queue_capacity : ℕ
certificate_queue_capacity = 256

abbrev pub certificate_dedupe_capacity : ℕ
certificate_dedupe_capacity = 1024

abbrev pub second : ℕ
second = 1000000000

-- Five minutes.
abbrev pub certificate_lifetime : ℕ
certificate_lifetime = 300 * second

-- `certificateEvent`; the two times are those that are formatted as RFC 3339.
pub record CertificateEvent : Type 0 where
  pub version : ℕ
  pub kind : Bytes
  pub event_id : Bytes
  pub proxy_server_id : ℤ
  pub machine_id : Bytes
  pub hostname : Bytes
  pub issuer : Bytes
  pub observed_at : Bytes
  pub tls_checked_at : Bytes
  pub tls_result : Bytes
  pub leaf_sha256 : Bytes
  pub certificate_spki_sha256 : Bytes
  pub key_spki_sha256 : Bytes
  pub report_id : Bytes
  pub verification_nonce : Bytes
  pub served_leaf_sha256 : Bytes

-- `certificateAcceptance`
pub record CertificateAcceptance : Type 0 where
  pub report_id : Bytes
  pub verification_nonce : Bytes
  pub check_after_seconds : ℤ
  pub expires_at : Bytes

-- `certificateWork`
pub record CertificateWork : Type 0 where
  pub candidate : MismatchCandidate
  pub birth : ℕ
  pub expires : ℕ
  pub due : ℕ
  pub last_observation : ℕ
  pub busy : Bool
  pub event : Option CertificateEvent
  pub attempts : ℕ
  pub acceptance : Option CertificateAcceptance

-- The counters of `certificateReporterState`, 64-bit words.
pub record Counters : Type 0 where
  pub dropped : ℕ
  pub delivered : ℕ
  pub accepted : ℕ
  pub failures : ℕ

-- `certificateReporterState`, less what it calls; `wake` is the number of signals in the channel,
-- `cancelled` that its context has ended.
pub record ReporterState : Type 0 where
  pub started : Bool
  pub cancelled : Bool
  pub wake : ℕ
  pub work : List (Bytes × CertificateWork)
  pub dedupe : List (Bytes × ℕ)
  pub cluster : ℤ
  pub machine : Bytes
  pub endpoint : Bytes
  pub token : Bytes
  pub has_logger : Bool
  pub last_diagnostic : ℕ
  pub counters : Counters
  pub workers : ℕ

-- `Add(1)` on an `atomic.Uint64`
abbrev pub add_one : ℕ → ℕ
add_one n = (n + 1) % 2 ^ 64

abbrev pub drop_one : ReporterState → ReporterState
drop_one s = record s { counters = record (s.counters) { dropped = add_one (s.counters).dropped } }

-- What `TryEnqueue` asks of a candidate.
unfoldable pub is_acceptable : MismatchCandidate → Bool
unfolding valid_health_hostname valid_health_issuer lower_hex equal
is_acceptable c =
    valid_health_hostname c.hostname
    && valid_health_issuer c.issuer_key
    && lower_hex c.leaf_sha256 64
    && lower_hex c.certificate_spki_sha256 64
    && lower_hex c.key_spki_sha256 64
    && not (equal c.certificate_spki_sha256 c.key_spki_sha256)

abbrev pub without_paths : MismatchCandidate → MismatchCandidate
without_paths c = record c { certificate_path = []; key_path = [] }

abbrev pub is_live : ℕ → Bytes → ℕ → Bool
is_live now k expiry = ltb now expiry

abbrev pub is_wanted : ℕ → Bytes → CertificateWork → Bool
is_wanted now host w = w.busy || ltb now w.expires

-- `prune`
unfoldable pub prune : ℕ → ReporterState → ReporterState
unfolding keep
prune now s = record s { dedupe = keep (is_live now) s.dedupe; work = keep (is_wanted now) s.work }

-- The loop that looks for the entry that expires first, from what it has found so far.
unfoldable pub oldest_of : Bytes × ℕ → List (Bytes × ℕ) → Bytes × ℕ
oldest_of (oldest, earliest) [] = (oldest, earliest)
oldest_of (oldest, earliest) ((k, expiry) ∷ m) =
    oldest_of (if earliest == 0 || ltb expiry earliest then (k, expiry) else (oldest, earliest)) m

-- Room for one more entry.
unfoldable pub make_room : List (Bytes × ℕ) → List (Bytes × ℕ)
unfolding oldest_of remove
make_room m =
    if leb certificate_dedupe_capacity (length m) then remove (oldest_of ([], 0) m).0 m else m

abbrev pub new_work : ℕ → MismatchCandidate → CertificateWork
new_work now c = record {
  candidate = c;
  birth = now;
  expires = now + certificate_lifetime;
  due = now;
  last_observation = 0;
  busy = false;
  event = none;
  attempts = 0;
  acceptance = none;
}

-- `now.Before` on what the map holds for a key, the zero time if nothing
abbrev pub is_recent : ℕ → Option ℕ → Bool
is_recent now none = false
is_recent now (some expiry) = ltb now expiry

-- After the candidate has been checked, under the key of its digest.
unfoldable pub enqueue_digest : ℕ → Bytes → MismatchCandidate → ReporterState → Bool × ReporterState
unfolding prune find put make_room
enqueue_digest now digest c s =
    let t = prune now s in
    if is_some (find c.hostname t.work)
      || is_recent now (find digest t.dedupe)
      || leb certificate_queue_capacity (length t.work)
    then (false, drop_one t)
    else (
      true,
      record t {
        dedupe = put digest (now + certificate_lifetime) (make_room t.dedupe);
        work = put c.hostname (new_work now c) t.work;
        wake = if ltb t.wake 2 then t.wake + 1 else t.wake;
      },
    )

-- `TryEnqueue`: whether the lock is free, the time, and the SHA-256 of the encoded candidate
unfoldable pub try_enqueue :
    (MismatchCandidate → Bytes)
    → Bool
    → ℕ
    → MismatchCandidate
    → ReporterState
    → Bool × ReporterState
unfolding is_acceptable enqueue_digest
try_enqueue digest free now c s =
    if not free || s.cancelled || not (is_acceptable c)
    then (false, drop_one s)
    else enqueue_digest now (digest (without_paths c)) (without_paths c) s

-- `newCertificateReporterState`
abbrev pub new_state : ℤ → Bytes → Bytes → Bytes → Bool → ReporterState
new_state cluster machine endpoint token has_logger = record {
  started = false;
  cancelled = false;
  wake = 0;
  work = [];
  dedupe = [];
  cluster = cluster;
  machine = machine;
  endpoint = endpoint;
  token = token;
  has_logger = has_logger;
  last_diagnostic = 0;
  counters = record { dropped = 0; delivered = 0; accepted = 0; failures = 0 };
  workers = 0;
}
