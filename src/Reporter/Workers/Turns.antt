-- ===== src/Reporter/Workers/Turns.antt =====
-- A worker's turn keeps the queue sound, and the busy work is what is in hand.
use mathlib.Core.Path.{subst}
use caddy_storage_redis.Prelude.{
  ℕ, Bytes, Bool, true, false, not, ◌||◌, none, some, ◌≡◌, ap, refl, sym, ◌∙◌, equal_iff, arith,
  Bool-cases, inl, inr, leb,
}
use caddy_storage_redis.Dict.{
  find, put, remove, is_some, put-IsMap, remove-IsMap, put-Each, remove-Each, find-Each, remove-put,
  find-put, find-remove, length-put, length-remove,
}
use caddy_storage_redis.Health.{MismatchCandidate}
use caddy_storage_redis.Reporter.{CertificateWork, ReporterState, prune}
use caddy_storage_redis.Reporter.Loop.{
  Tally, take_work, finish_work, set_busy, select, mark, diagnose,
}
use caddy_storage_redis.Reporter.Work.{IsWork}
use caddy_storage_redis.Reporter.Queue.{IsQueue, IsEntry, prune-IsQueue, same-IsQueue}
use caddy_storage_redis.Reporter.Workers.Held.{
  Hand, IsHeld, same-IsHeld, keep-SameBusy, take-IsHeld, finish-IsHeld, select-IsDue,
}
use caddy_storage_redis.Reporter.Workers.Offered.{diagnose-work, diagnose-dedupe}

pub busy-IsEntry :
    (host : Bytes) (b : Bool) (w : CertificateWork) → IsEntry host w → IsEntry host (set_busy b w)
busy-IsEntry host b w i = record {
  name = i.name;
  sound = record {
    acceptable = (i.sound).acceptable;
    lifetime = (i.sound).lifetime;
    tries = (i.sound).tries;
    event = (i.sound).event;
  };
  no_certificate_path = i.no_certificate_path;
  no_key_path = i.no_key_path;
}

-- An entry is replaced.
pub put-IsQueue :
    (s : ReporterState) (host : Bytes) (v w : CertificateWork)
    → IsQueue s
    → find host s.work ≡ some v
    → IsEntry host w
    → IsQueue (record s { work = put host w s.work })
put-IsQueue s host v w q there i = record {
  work_map = put-IsMap host w s.work q.work_map;
  dedupe_map = q.dedupe_map;
  work_size = ground (arith, length-put host w s.work, q.work_size, there);
  dedupe_size = q.dedupe_size;
  entries = put-Each IsEntry host w s.work i q.entries;
}

pub remove-IsQueue :
    (s : ReporterState) (host : Bytes)
    → IsQueue s
    → IsQueue (record s { work = remove host s.work })
remove-IsQueue s host q = record {
  work_map = remove-IsMap host s.work q.work_map;
  dedupe_map = q.dedupe_map;
  work_size = omega (arith, length-remove host s.work, q.work_size);
  dedupe_size = q.dedupe_size;
  entries = remove-Each IsEntry host s.work q.entries;
}

-- What is marked is what is taken.
marked :
    (now : ℕ) (t : ReporterState) (b : Hand) (selected : Hand)
    → IsQueue t
    → IsHeld t.work none b
    → select now none t.work ≡ selected
    → IsQueue (mark selected t) × IsHeld (mark selected t).work selected b
marked now t b none q h e = (q, h)
marked now t b (some (host, w)) q h e =
    let (there, due) = select-IsDue now t.work host w q.work_map e in
    let idle : w.busy ≡ false = ground (arith, due) in
    (
      put-IsQueue t host w (set_busy true w) q there
          (busy-IsEntry host true w (find-Each IsEntry host w t.work q.entries there)),
      take-IsHeld t.work host w b h there idle,
    )

pub take_work-IsPool :
    (now : ℕ) (s : ReporterState) (b : Hand)
    → IsQueue s
    → IsHeld s.work none b
    → let (selected, u, diagnostic) = take_work now s in IsQueue u × IsHeld u.work selected b
unfolding take_work prune
take_work-IsPool now s b q h =
    let t = prune now s in
    let selected = select now none t.work in
    let (mq, mh) =
      marked now t b selected (prune-IsQueue now s q)
        (same-IsHeld s.work t.work none b (keep-SameBusy now s.work q.work_map) h) refl in
    let m = mark selected t in
    (
      same-IsQueue m (diagnose now m).0 (sym (diagnose-work now m)) (sym (diagnose-dedupe now m))
          mq,
      subst (λ x. IsHeld x selected b) (sym (diagnose-work now m)) mh,
    )

-- What the end of a worker leaves of the work and of the digests.
pub finish_work-removes :
    (now : ℕ) (host : Bytes) (x v : CertificateWork) (keeps : Bool) (tally : Tally)
    (s : ReporterState)
    → find host s.work ≡ some x
    → (v.candidate).hostname ≡ host
    → not keeps || s.cancelled || leb v.expires now ≡ true
    → (finish_work now host v keeps tally s).work ≡ remove host s.work
unfolding finish_work
finish_work-removes now host x v keeps tally s there name over =
    rw (over, there, finish_work)
      (ap (λ k. remove k (put host (set_busy false v) s.work)) name
        ∙ remove-put host (set_busy false v) s.work)

pub finish_work-puts :
    (now : ℕ) (host : Bytes) (x v : CertificateWork) (keeps : Bool) (tally : Tally)
    (s : ReporterState)
    → find host s.work ≡ some x
    → not keeps || s.cancelled || leb v.expires now ≡ false
    → (finish_work now host v keeps tally s).work ≡ put host (set_busy false v) s.work
unfolding finish_work
finish_work-puts now host x v keeps tally s there kept = rw (kept, there, finish_work) refl

pub finish_work-dedupe :
    (now : ℕ) (host : Bytes) (v : CertificateWork) (keeps : Bool) (tally : Tally)
    (s : ReporterState)
    → (finish_work now host v keeps tally s).dedupe ≡ s.dedupe
unfolding finish_work
finish_work-dedupe now host v keeps tally s =
    elim (Bool-cases (not keeps || s.cancelled || leb v.expires now)) [
      | inl over ↦ elim (Bool-cases (is_some (find host s.work))) [
        | inl there ↦ rw (over, there, finish_work) refl
        | inr gone ↦ rw (over, gone, finish_work) refl
      ]
      | inr kept ↦ elim (Bool-cases (is_some (find host s.work))) [
        | inl there ↦ rw (kept, there, finish_work) refl
        | inr gone ↦ rw (kept, gone, finish_work) refl
      ]
    ]

-- A worker's end, which keeps its work or takes it out.
pub finish_work-IsPool :
    (now : ℕ) (host : Bytes) (w v : CertificateWork) (keeps : Bool) (tally : Tally)
    (s : ReporterState) (b : Hand)
    → IsQueue s
    → IsHeld s.work (some (host, w)) b
    → v.candidate ≡ w.candidate
    → (keeps ≡ true → IsWork v)
    → let t = finish_work now host v keeps tally s in IsQueue t × IsHeld t.work none b
finish_work-IsPool now host w v keeps tally s b q h same sound =
    let idle = set_busy false v in
    let there = h.one host w refl in
    let entry = find-Each IsEntry host (set_busy true w) s.work q.entries there in
    let name : (v.candidate).hostname ≡ host =
      ap (λ (c : MismatchCandidate). c.hostname) same ∙ entry.name in
    let t = finish_work now host v keeps tally s in
    let dedupe = sym (finish_work-dedupe now host v keeps tally s) in
    elim (Bool-cases (not keeps || s.cancelled || leb v.expires now)) [
      | inl over ↦
          let work = sym (finish_work-removes now host _ v keeps tally s there name over) in
          (
            same-IsQueue (record s { work = remove host s.work }) t work dedupe
                (remove-IsQueue s host q),
            subst (λ x. IsHeld x none b) work
                (finish-IsHeld s.work (remove host s.work) host w b
                  (λ k other. ground (arith, find-remove host k s.work, equal_iff host k, other))
                  (λ x f. ground (arith, find-remove host host s.work, equal_iff host host, f)) h),
          )
      | inr kept ↦
          let work = sym (finish_work-puts now host _ v keeps tally s there kept) in
          let sound_entry : IsEntry host idle = busy-IsEntry host false v (record {
            name = name;
            sound = sound (ground (arith, kept));
            no_certificate_path =
                ap (λ (c : MismatchCandidate). c.certificate_path) same ∙ entry.no_certificate_path;
            no_key_path = ap (λ (c : MismatchCandidate). c.key_path) same ∙ entry.no_key_path;
          }) in
          (
            same-IsQueue (record s { work = put host idle s.work }) t work dedupe
                (put-IsQueue s host (set_busy true w) idle q there sound_entry),
            subst (λ x. IsHeld x none b) work
                (finish-IsHeld s.work (put host idle s.work) host w b
                  (λ k other. ground (arith, find-put host k idle s.work, equal_iff host k, other))
                  (λ x f. ground (arith, find-put host host idle s.work, equal_iff host host, f))
                  h),
          )
    ]
