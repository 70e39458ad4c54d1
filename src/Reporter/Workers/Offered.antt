-- ===== src/Reporter/Workers/Offered.antt =====
-- What is offered to the queue leaves the busy work as it was.
use caddy_storage_redis.Prelude.{
  ℕ, Bytes, List, Bool, not, ◌||◌, none, ◌≡◌, refl, arith, Bool-cases, inl, inr, leb, length,
}
use caddy_storage_redis.Dict.{find, is_some}
use caddy_storage_redis.Health.{MismatchCandidate}
use caddy_storage_redis.Reporter.{
  CertificateWork, ReporterState, prune, new_work, without_paths, is_recent, is_acceptable,
  enqueue_digest, try_enqueue,
}
use caddy_storage_redis.Reporter.Loop.{diagnose}
use caddy_storage_redis.Reporter.Queue.{IsQueue}
use caddy_storage_redis.Reporter.Workers.Held.{SameBusy, keep-SameBusy, put-SameBusy}

pub same-SameBusy : (m : List (Bytes × CertificateWork)) → SameBusy m m
same-SameBusy m = record { stays = λ h w f b. f; was = λ h w f b. f }

pub enqueue_digest-SameBusy :
    (now : ℕ) (digest : Bytes) (c : MismatchCandidate) (s : ReporterState)
    → IsQueue s
    → SameBusy s.work (enqueue_digest now digest c s).1.work
unfolding enqueue_digest prune
enqueue_digest-SameBusy now digest c s q =
    let t = prune now s in
    let kept = keep-SameBusy now s.work q.work_map in
    elim (Bool-cases (
      is_some (find c.hostname t.work)
      || is_recent now (find digest t.dedupe)
      || leb 256 (length t.work))) [
        | inl refused ↦ rw (refused, enqueue_digest) kept
        | inr taken ↦
            let fresh : find c.hostname t.work ≡ none = ground (arith, taken) in
            let added = put-SameBusy c.hostname (new_work now c) t.work fresh refl in
            rw (taken, enqueue_digest)
              (record {
                stays = λ h w f b. added.stays h w (kept.stays h w f b) b;
                was = λ h w f b. kept.was h w (added.was h w f b) b;
              })
      ]

pub try_enqueue-SameBusy :
    (digest : MismatchCandidate → Bytes) (free : Bool) (now : ℕ) (c : MismatchCandidate)
    (s : ReporterState)
    → IsQueue s
    → SameBusy s.work (try_enqueue digest free now c s).1.work
unfolding try_enqueue
try_enqueue-SameBusy digest free now c s q =
    elim (Bool-cases (not free || s.cancelled || not (is_acceptable c))) [
      | inl refused ↦ rw (refused, try_enqueue) (same-SameBusy s.work)
      | inr taken ↦
          rw (taken, try_enqueue)
            (enqueue_digest-SameBusy now (digest (without_paths c)) (without_paths c) s q)
    ]

-- What a diagnostic leaves of the queue.
pub diagnose-work : (now : ℕ) (s : ReporterState) → (diagnose now s).0.work ≡ s.work
unfolding diagnose
diagnose-work now s = ground arith

pub diagnose-dedupe : (now : ℕ) (s : ReporterState) → (diagnose now s).0.dedupe ≡ s.dedupe
unfolding diagnose
diagnose-dedupe now s = ground arith
