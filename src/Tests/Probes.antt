-- ===== src/Tests/Probes.antt =====
-- Runs of the confirming sink.
use caddy_storage_redis.Prelude.{[], ◌∷◌, true, some, refl, equal}
use caddy_storage_redis.Probe.Sink.{
  guard, checked, close, probing, cleared, finishing, probe_at, Running, fresh_sink, Reach, begins,
  then_step, offers, starts, checks, closes, hands, lift_guard, lifts, admits,
}
use caddy_storage_redis.Probe.Safe.{IsRunning, Reach-IsRunning}
use caddy_storage_redis.Probe.Over.{IsOver, StaysQuiet, Later, now, and_then, Later-IsOver}
use caddy_storage_redis.Tests.Queue.{candidate}

abbrev empty : Running
empty = fresh_sink true

abbrev taken_on : Running
taken_on = record empty { offered = some candidate }

abbrev probed : Running
probed = record empty {
  sink = guard candidate (empty.sink);
  probes = probe_at probing candidate ∷ [];
}

probed-Reach : Reach probed
unfolding admits equal
probed-Reach =
    then_step taken_on probed
      (then_step empty taken_on (begins true) (offers true candidate empty (λ e. refl)))
      (starts candidate taken_on refl)

Reach-IsRunning_example : IsRunning probed
Reach-IsRunning_example = Reach-IsRunning probed probed-Reach

-- A probe that is confirmed and passes its test, before the sink is closed.
abbrev confirmed : Running
confirmed = record probed { probes = probe_at cleared candidate ∷ [] }

abbrev shut : Running
shut = record confirmed { sink = close (confirmed.sink) }

abbrev handed_on : Running
handed_on = record shut { probes = probe_at finishing candidate ∷ []; handed = candidate ∷ [] }

-- The candidate is handed on after the close, and then the guard is lifted.
abbrev lifted : Running
lifted = record handed_on { sink = lift_guard candidate (shut.sink); probes = [] }

shut-Reach : Reach shut
unfolding checked guard
shut-Reach =
    then_step confirmed shut
      (then_step probed confirmed probed-Reach (checks true candidate [] [] probed refl))
      (closes confirmed refl)

lifted-Later : Later shut lifted
lifted-Later =
    and_then shut handed_on lifted
      (and_then shut shut handed_on (now shut) (hands candidate [] [] shut refl))
      (lifts candidate [] [] handed_on refl refl)

Later-IsOver_example : IsOver shut lifted × StaysQuiet shut lifted
unfolding close
Later-IsOver_example = Later-IsOver shut lifted refl lifted-Later
