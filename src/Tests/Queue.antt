-- ===== src/Tests/Queue.antt =====
-- Runs of the reporter's queue and of its workers.
use caddy_storage_redis.Prelude.{
  ℕ, zero, suc, ◌<◌, Bytes, [], ◌∷◌, true, false, Option, none, some, ◌≡◌, ◌≢◌, refl, All, arith,
  codes, equal,
}
use caddy_storage_redis.Go.Strconv.{pos}
use caddy_storage_redis.Dict.{find}
use caddy_storage_redis.Health.{
  MismatchCandidate, valid_health_hostname, valid_health_issuer, lower_hex,
}
use caddy_storage_redis.Reporter.{
  CertificateWork, ReporterState, is_acceptable, new_state, new_work, without_paths, try_enqueue,
}
use caddy_storage_redis.Reporter.Identifier.{certificate_uuid, valid_certificate_uuid}
use caddy_storage_redis.Reporter.Acceptance.{Formats, failure}
use caddy_storage_redis.Reporter.Deliver.{Answers, no_response}
use caddy_storage_redis.Reporter.Process.{Processed, process}
use caddy_storage_redis.Reporter.Loop.{take_work}
use caddy_storage_redis.Reporter.Work.{IsWork, Follows}
use caddy_storage_redis.Reporter.Followed.{process-Follows}
use caddy_storage_redis.Reporter.Ends.{process-ends}
use caddy_storage_redis.Reporter.Queue.{IsQueue, try_enqueue-IsQueue}
use caddy_storage_redis.Reporter.Earliest.{IsDueBy, take_work-IsDueBy}
use caddy_storage_redis.Reporter.Uuid.{valid_certificate_uuid-certificate_uuid}
use caddy_storage_redis.Reporter.Workers.{not_begun, Pool, on_state, begins, then_step, enqueues}
use caddy_storage_redis.Reporter.Workers.Safe.{IsPool, Reach-IsPool}
use caddy_storage_redis.Tests.Health.{host}

-- A fingerprint of one digit.
abbrev digits_of : ℕ → ℕ → Bytes
digits_of c zero = []
digits_of c (suc n) = c ∷ digits_of c n

abbrev pub candidate : MismatchCandidate
candidate = record {
  hostname = host;
  issuer_key = codes "ca";
  certificate_path = codes "c";
  key_path = codes "k";
  leaf_sha256 = digits_of b'0' 64;
  certificate_spki_sha256 = digits_of b'1' 64;
  key_spki_sha256 = digits_of b'2' 64;
}

candidate-is_acceptable : is_acceptable candidate ≡ true
unfolding is_acceptable lower_hex valid_health_hostname valid_health_issuer equal
candidate-is_acceptable = refl

abbrev digest : MismatchCandidate → Bytes
digest c = c.hostname

abbrev idle : ReporterState
idle = new_state (pos 7) (codes "m") (codes "https://a.example/") (codes "t") true

idle-IsQueue : IsQueue idle
idle-IsQueue = record {
  work_map = tt;
  dedupe_map = tt;
  work_size = omega arith;
  dedupe_size = omega arith;
  entries = tt;
}

try_enqueue-IsQueue_example : IsQueue (try_enqueue digest true 1000 candidate idle).1
try_enqueue-IsQueue_example = try_enqueue-IsQueue digest true 1000 candidate idle idle-IsQueue

-- Formats that read nothing.
abbrev blank : Formats
blank = record {
  Decoder = Unit {0};
  new_decoder = λ b. tt;
  token = λ d. (failure, d);
  more = λ d. false;
  decode_text = λ v d. none;
  decode_int = λ v d. none;
  parse_rfc3339 = λ t. none;
  format_rfc3339 = λ t. [];
}

-- The host is ill, and the server is not reached.
abbrev answers : Answers
answers = record {
  expired = false;
  probe = record { result = codes "tls_alert"; checked_at = 5000000000; served_leaf_sha256 = [] };
  expired_after_probe = false;
  random = some (digits_of 9 16);
  encode = λ e. some e.hostname;
  new_request = λ url. true;
  response = no_response;
  received_at = 6000000000;
  jitter = some 500;
  now = 7000000000;
}

abbrev work : CertificateWork
work = new_work 1000 (without_paths candidate)

work-IsWork : IsWork work
unfolding is_acceptable
work-IsWork = record {
  acceptable = candidate-is_acceptable;
  lifetime = omega arith;
  tries = omega arith;
  event = λ e n. cc n;
}

abbrev or_else : Processed → Option Processed → Processed
or_else p none = p
or_else p (some q) = q

abbrev nothing : Processed
nothing = record {
  work = work;
  keeps = false;
  request = none;
  tally = record { delivered = false; accepted = false; failures = 0 };
}

abbrev result : Processed
result = or_else nothing (process blank idle answers work)

process-ends_example : process blank idle answers work ≢ none
process-ends_example = process-ends blank idle answers work

process_result : process blank idle answers work ≡ some result
unfolding process
process_result = refl

process-Follows_example : Follows work result
process-Follows_example = process-Follows blank idle answers work result work-IsWork process_result

abbrev queued : ReporterState
queued = record idle { work = (host, work) ∷ [] }

take_work-IsDueBy_example : IsDueBy 1000 (take_work 2000 queued).0
unfolding find equal
take_work-IsDueBy_example =
    take_work-IsDueBy 2000 queued host work (refl, tt) refl refl (omega arith) (omega arith)

random_bytes-All : (n : ℕ) → All (λ c. c < 256) (digits_of 9 n)
random_bytes-All zero = tt
random_bytes-All (suc n) = (omega arith, random_bytes-All n)

valid_certificate_uuid-certificate_uuid_example :
    valid_certificate_uuid (certificate_uuid (digits_of 9 16)) ≡ true
valid_certificate_uuid-certificate_uuid_example =
    valid_certificate_uuid-certificate_uuid (digits_of 9 16) refl (random_bytes-All 16)

abbrev new_pool : Pool
new_pool = record { state = idle; first = not_begun; second = not_begun }

abbrev offered : Pool
offered = on_state (try_enqueue digest true 1000 candidate idle).1 new_pool

Reach-IsPool_example : IsPool offered
Reach-IsPool_example = Reach-IsPool blank digest offered (
    then_step new_pool offered
      (begins (pos 7) (codes "m") (codes "https://a.example/") (codes "t") true)
      (enqueues true 1000 candidate new_pool))
