-- ===== src/Reporter/Workers/Safe.antt =====
-- Every reachable pool is within its bounds, holds sound work only, and gives no work to both
-- workers.
use mathlib.Core.Path.{subst}
use caddy_storage_redis.Prelude.{
  ℕ, Bytes, [], true, ◌||◌, none, some, ◌≡◌, ap, refl, sym, arith, Bool-cases, inl, inr, ◌⊎◌,
}
use caddy_storage_redis.Dict.{find, IsMap, Each, find-Each}
use caddy_storage_redis.Health.{MismatchCandidate}
use caddy_storage_redis.Reporter.{CertificateWork, ReporterState}
use caddy_storage_redis.Reporter.Acceptance.{Formats}
use caddy_storage_redis.Reporter.Deliver.{Answers}
use caddy_storage_redis.Reporter.Process.{Processed, process}
use caddy_storage_redis.Reporter.Loop.{finish_work, start, cancel, clear_work, set_busy, take_work}
use caddy_storage_redis.Reporter.Work.{IsWork}
use caddy_storage_redis.Reporter.Followed.{process-Follows}
use caddy_storage_redis.Reporter.Queue.{IsQueue, IsEntry, same-IsQueue, try_enqueue-IsQueue}
use caddy_storage_redis.Reporter.Workers.{
  Worker, first, second, Stage, looking, turning, waiting, ended, hand_of, after_turn, Pool,
  stage_of, move, rise, leave, drain, IsOut, Step, enqueues, rises, looks, takes, finishes, wakes,
  ticks, leaves, starts, cancels, clears, Reach, begins, then_step,
}
use caddy_storage_redis.Reporter.Workers.Held.{Hand, host_of, IsHeld, swap-IsHeld, same-IsHeld}
use caddy_storage_redis.Reporter.Workers.Offered.{try_enqueue-SameBusy}
use caddy_storage_redis.Reporter.Workers.Turns.{take_work-IsPool, finish_work-IsPool}

pub record IsPool (p : Pool) : Type 0 where
  pub queue : IsQueue p.state
  pub held : IsHeld (p.state).work (hand_of p.first) (hand_of p.second)

start-IsQueue : (s : ReporterState) → IsQueue s → IsQueue (start s).1
unfolding start
start-IsQueue s q = elim (Bool-cases (s.started || s.cancelled)) [
  | inl runs ↦ rw (runs, start) q
  | inr fresh ↦ rw (fresh, start) (same-IsQueue s _ refl refl q)
]

start-work : (s : ReporterState) → (start s).1.work ≡ s.work
unfolding start
start-work s = elim (Bool-cases (s.started || s.cancelled)) [
  | inl runs ↦ rw (runs, start) refl
  | inr fresh ↦ rw (fresh, start) refl
]

empty-IsHeld : (a b : Hand) → a ≡ none → b ≡ none → IsHeld [] a b
unfolding find
empty-IsHeld a b x y = record {
  one = λ host w e. cc (x, e);
  two = λ host w e. cc (y, e);
  apart = λ host p q. cc (ap host_of x, p);
  only = λ host w f busy. cc f;
}

empty-IsQueue : (s : ReporterState) → s.work ≡ [] → s.dedupe ≡ [] → IsQueue s
empty-IsQueue s w d = record {
  work_map = subst IsMap (sym w) tt;
  dedupe_map = subst IsMap (sym d) tt;
  work_size = rw w (omega arith);
  dedupe_size = rw d (omega arith);
  entries = subst (Each IsEntry) (sym w) tt;
}

unmarked-IsWork : (w : CertificateWork) → IsWork (set_busy true w) → IsWork w
unmarked-IsWork w i = record {
  acceptable = i.acceptable;
  lifetime = i.lifetime;
  tries = i.tries;
  event = i.event;
}

module _ (J : Formats) (digest : MismatchCandidate → Bytes) where
  finishes-IsPool :
      (now : ℕ) (host : Bytes) (w : CertificateWork) (r : Answers) (result : Processed)
      (s : ReporterState) (b : Hand)
      → IsQueue s
      → IsHeld s.work (some (host, w)) b
      → process J s r w ≡ some result
      → let t = finish_work now host result.work result.keeps result.tally s in
        IsQueue t × IsHeld t.work none b
  finishes-IsPool now host w r result s b q h e =
      let entry = find-Each IsEntry host (set_busy true w) s.work q.entries (h.one host w refl) in
      let f = process-Follows J s r w result (unmarked-IsWork w entry.sound) e in
      finish_work-IsPool now host w result.work result.keeps result.tally s b q h f.candidate
        f.sound

  -- A worker that goes on without work in hand.
  moved-IsPool :
      (v : Worker) (t : Stage) (s : ReporterState) (p : Pool)
      → s.work ≡ (p.state).work
      → s.dedupe ≡ (p.state).dedupe
      → hand_of (stage_of v p) ≡ hand_of t
      → IsPool p
      → IsPool (move v t s p)
  moved-IsPool first t s p work dedupe hand i = record {
    queue = same-IsQueue p.state s (sym work) (sym dedupe) i.queue;
    held =
        subst (λ m. IsHeld m (hand_of t) (hand_of p.second)) (sym work)
          (subst (λ h. IsHeld (p.state).work h (hand_of p.second)) hand i.held);
  }
  moved-IsPool second t s p work dedupe hand i = record {
    queue = same-IsQueue p.state s (sym work) (sym dedupe) i.queue;
    held =
        subst (λ m. IsHeld m (hand_of p.first) (hand_of t)) (sym work)
          (subst (λ h. IsHeld (p.state).work (hand_of p.first) h) hand i.held);
  }

  after_turn-hand : (o : Hand) → o ≡ hand_of (after_turn o)
  after_turn-hand none = refl
  after_turn-hand (some (host, w)) = refl

  takes-IsPool :
      (v : Worker) (now : ℕ) (p : Pool)
      → stage_of v p ≡ turning
      → IsPool p
      → IsPool (move v (after_turn (take_work now p.state).0) (take_work now p.state).1 p)
  takes-IsPool first now p turn i =
      let o = hand_of p.second in
      let (queue, held) =
        take_work-IsPool now p.state o i.queue
          (subst (λ a. IsHeld (p.state).work a o) (ap hand_of turn) i.held) in
      record {
        queue = queue;
        held = subst (λ a. IsHeld (take_work now p.state).1.work a o) (after_turn-hand _) held;
      }
  takes-IsPool second now p turn i =
      let o = hand_of p.first in
      let (queue, held) =
        take_work-IsPool now p.state o i.queue
          (subst (λ a. IsHeld (p.state).work a o) (ap hand_of turn) (swap-IsHeld _ _ _ i.held)) in
      record {
        queue = queue;
        held =
            swap-IsHeld _ _ _
              (subst (λ a. IsHeld (take_work now p.state).1.work a o) (after_turn-hand _) held);
      }

  -- What is in hand where there is nothing to wait for.
  IsOut-hand : (t : Stage) (s : ReporterState) → IsOut t s → hand_of t ≡ none
  IsOut-hand t s (inl over) = ap hand_of over
  IsOut-hand t s (inr (idle, _)) = ap hand_of idle

  left : (t : Stage) → (t ≡ looking) ⊎ (t ≡ waiting) → hand_of t ≡ none
  left t (inl e) = ap hand_of e
  left t (inr e) = ap hand_of e

  step-IsPool : (p q : Pool) → IsPool p → Step J digest p q → IsPool q
  step-IsPool p q i (enqueues free now c _) = record {
    queue = try_enqueue-IsQueue digest free now c p.state i.queue;
    held =
        same-IsHeld _ _ (hand_of p.first) (hand_of p.second)
          (try_enqueue-SameBusy digest free now c p.state i.queue) i.held;
  }
  step-IsPool p q i (rises v _ here on) =
      moved-IsPool v looking (rise p.state) p refl refl (ap hand_of here) i
  step-IsPool p q i (looks v _ here live) =
      moved-IsPool v turning p.state p refl refl (ap hand_of here) i
  step-IsPool p q i (takes v now _ here) = takes-IsPool v now p here i
  step-IsPool p q i (finishes first now host w r result _ mine e) =
      let o = hand_of p.second in
      let (queue, held) =
        finishes-IsPool now host w r result p.state o i.queue
          (subst (λ a. IsHeld (p.state).work a o) (ap hand_of mine) i.held) e in
      record { queue = queue; held = held }
  step-IsPool p q i (finishes second now host w r result _ mine e) =
      let o = hand_of p.first in
      let (queue, held) =
        finishes-IsPool now host w r result p.state o i.queue
          (subst (λ a. IsHeld (p.state).work a o) (ap hand_of mine) (swap-IsHeld _ _ _ i.held)) e in
      record { queue = queue; held = swap-IsHeld _ _ _ held }
  step-IsPool p q i (wakes v _ here signal) =
      moved-IsPool v looking (drain p.state) p refl refl (ap hand_of here) i
  step-IsPool p q i (ticks v _ here) =
      moved-IsPool v looking p.state p refl refl (ap hand_of here) i
  step-IsPool p q i (leaves v _ here off) =
      moved-IsPool v ended (leave p.state) p refl refl (left (stage_of v p) here) i
  step-IsPool p q i (starts _) = record {
    queue = start-IsQueue p.state i.queue;
    held =
        subst (λ m. IsHeld m (hand_of p.first) (hand_of p.second)) (sym (start-work p.state))
          i.held;
  }
  step-IsPool p q i (cancels _) = record {
    queue = same-IsQueue p.state (cancel p.state) refl refl i.queue;
    held = i.held;
  }
  step-IsPool p q i (clears _ off one two) = record {
    queue = empty-IsQueue (clear_work p.state) refl refl;
    held = empty-IsHeld _ _ (IsOut-hand p.first p.state one) (IsOut-hand p.second p.state two);
  }

  -- Whatever is offered, answered and timed, in every order: the queue of a reporter holds at most
  -- 256 hosts and 1024 digests, each once; its work is sound; and what is marked as busy is what
  -- its workers have in hand, which is never the same work.
  pub Reach-IsPool : (p : Pool) → Reach J digest p → IsPool p
  Reach-IsPool p (begins cluster machine endpoint token has_logger) = record {
    queue = empty-IsQueue _ refl refl;
    held = empty-IsHeld none none refl refl;
  }
  Reach-IsPool p (then_step before _ r s) = step-IsPool before p (Reach-IsPool before r) s
