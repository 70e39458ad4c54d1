-- ===== src/Probe/Sink.antt =====
-- certificate_probe.go: `ConfirmingSink` and its probes as a step relation.
use caddy_storage_redis.Prelude.{
  Bytes, List, [], ◌∷◌, ◌++◌, Bool, true, false, not, ◌&&◌, ◌||◌, Option, none, some, ◌≡◌,
  if◌then◌else◌, length, leb,
}
use caddy_storage_redis.Dict.{find, put, remove, is_some}
use caddy_storage_redis.Health.{MismatchCandidate, valid_health_hostname}

-- `ConfirmingSink`; its context has ended, or not
pub record ConfirmingSink : Type 0 where
  pub in_flight : List (Bytes × Bool)
  pub has_sink : Bool
  pub closed : Bool
  pub cancelled : Bool

-- `NewConfirmingSink`
abbrev pub new_confirming_sink : Bool → ConfirmingSink
new_confirming_sink has_sink = record {
  in_flight = [];
  has_sink = has_sink;
  closed = false;
  cancelled = false;
}

-- The conditions on which an offer is refused.
unfoldable pub is_refused : MismatchCandidate → ConfirmingSink → Bool
unfolding find valid_health_hostname
is_refused c s =
    s.closed
    || s.cancelled
    || not s.has_sink
    || is_some (find c.hostname s.in_flight)
    || leb 16 (length s.in_flight)
    || not (valid_health_hostname c.hostname)

-- `TryEnqueue`, with the lock or without it: whether the candidate is taken on.
unfoldable pub admits : Bool → MismatchCandidate → ConfirmingSink → Bool
unfolding is_refused
admits free c s = free && not (is_refused c s)

-- The guard of a candidate that is taken on.
unfoldable pub guard : MismatchCandidate → ConfirmingSink → ConfirmingSink
unfolding put
guard c s = record s { in_flight = put c.hostname true s.in_flight }

-- The deferred end of a probe, under the lock: its guard is lifted.
unfoldable pub lift_guard : MismatchCandidate → ConfirmingSink → ConfirmingSink
unfolding remove
lift_guard c s = record s { in_flight = remove c.hostname s.in_flight }

-- `Close`, before it waits for the probes
unfoldable pub close : ConfirmingSink → ConfirmingSink
close s = record s { closed = true; cancelled = true }

-- Where a probe's goroutine stands: before the test of the context, between this test and the offer
-- to the sink behind, or before its deferred end.
pub data Stage : Type 0 where
  probing cleared finishing : Stage

-- What the answer of `Confirm` and the test of the context after it lead to.
unfoldable pub checked : Bool → ConfirmingSink → Stage
checked confirmed s = if confirmed && not s.cancelled then cleared else finishing

pub record SinkProbe : Type 0 where
  pub candidate : MismatchCandidate
  pub stage : Stage

abbrev pub probe_at : Stage → MismatchCandidate → SinkProbe
probe_at stage c = record { candidate = c; stage = stage }

-- A sink with the candidate that the holder of its lock has found acceptable, its probes, the last
-- one first, and what it has handed on.
pub record Running : Type 0 where
  pub sink : ConfirmingSink
  pub offered : Option MismatchCandidate
  pub probes : List SinkProbe
  pub handed : List MismatchCandidate

abbrev taken_on : Bool → MismatchCandidate → Option MismatchCandidate → Option MismatchCandidate
taken_on admitted c offered = if admitted then some c else offered

-- What can happen. The lock is held from the test of an offer until its guard is set; what needs the
-- lock waits until nothing is offered. The context that the sink was made with may end at any time.
pub data Step : Running → Running → Type 0 where
  offers :
      (free : Bool) (c : MismatchCandidate) (s : Running)
      → (free ≡ true → s.offered ≡ none)
      → Step s (record s { offered = taken_on (admits free c s.sink) c s.offered })
  starts :
      (c : MismatchCandidate) (s : Running)
      → s.offered ≡ some c
      → Step s (record s {
        sink = guard c s.sink;
        offered = none;
        probes = probe_at probing c ∷ s.probes;
      })
  checks :
      (confirmed : Bool) (c : MismatchCandidate) (before after : List SinkProbe) (s : Running)
      → s.probes ≡ before ++ (probe_at probing c ∷ after)
      → Step s (record s { probes = before ++ (probe_at (checked confirmed s.sink) c ∷ after) })
  hands :
      (c : MismatchCandidate) (before after : List SinkProbe) (s : Running)
      → s.probes ≡ before ++ (probe_at cleared c ∷ after)
      → Step s
          (record s { probes = before ++ (probe_at finishing c ∷ after); handed = c ∷ s.handed })
  lifts :
      (c : MismatchCandidate) (before after : List SinkProbe) (s : Running)
      → s.probes ≡ before ++ (probe_at finishing c ∷ after)
      → s.offered ≡ none
      → Step s (record s { sink = lift_guard c s.sink; probes = before ++ after })
  closes : (s : Running) → s.offered ≡ none → Step s (record s { sink = close s.sink })
  ends : (s : Running) → Step s (record s { sink = record (s.sink) { cancelled = true } })

-- A new sink, on which nothing has happened yet.
abbrev pub fresh_sink : Bool → Running
fresh_sink has_sink = record {
  sink = new_confirming_sink has_sink;
  offered = none;
  probes = [];
  handed = [];
}

pub data Reach : Running → Type 0 where
  begins : (has_sink : Bool) → Reach (fresh_sink has_sink)
  then_step : (s t : Running) → Reach s → Step s t → Reach t
