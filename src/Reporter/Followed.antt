-- ===== src/Reporter/Followed.antt =====
-- A worker's `process` keeps the work sound.
use mathlib.Core.Path.{subst}
use caddy_storage_redis.Prelude.{
  ℕ, ◌+◌, ◌*◌, ◌≤◌, ◌<◌, Bytes, true, false, not, ◌&&◌, some, ◌≡◌, ap, refl, ◌∙◌, equal, is_empty,
  arith, Bool-cases, Option-cases, inl, inr, ltb, leb,
}
use caddy_storage_redis.Dict.{is_some}
use caddy_storage_redis.Reporter.{
  CertificateAcceptance, CertificateEvent, CertificateWork, ReporterState, certificate_lifetime,
  is_acceptable, second,
}
use caddy_storage_redis.Reporter.Identifier.{certificate_uuid}
use caddy_storage_redis.Reporter.Acceptance.{Formats}
use caddy_storage_redis.Reporter.Deliver.{truncate, Answers, Delivery, tls_valid, deliver}
use caddy_storage_redis.Reporter.Process.{
  Processed, process, probe_work, report, attempt, settle, accept, try_again, contradicts,
  with_acceptance, first_acceptance, new_event,
}
use caddy_storage_redis.Reporter.Work.{IsEvent, IsWork, Follows}

IsWork-due : (w : CertificateWork) (t : ℕ) → IsWork w → IsWork (record w { due = t })
IsWork-due w t i = record {
  acceptable = i.acceptable;
  lifetime = i.lifetime;
  tries = i.tries;
  event = i.event;
}

-- Only the time of the next turn has changed.
due-Follows :
    (w : CertificateWork) (t : ℕ) (p : Processed)
    → IsWork w
    → p.work ≡ record w { due = t }
    → Follows w p
due-Follows w t p i e = record {
  sound = λ k. rw e (IsWork-due w t i);
  candidate = ap (λ (v : CertificateWork). v.candidate) e;
  birth = ap (λ (v : CertificateWork). v.birth) e;
  expires = rw e (omega arith);
  tries = rw e i.tries;
  acceptance = λ a h. ap (λ (v : CertificateWork). v.acceptance) e ∙ h;
}

-- The work is given up, or kept for something else.
end-Follows :
    (w : CertificateWork) (p : Processed)
    → w.attempts ≤ 3
    → p.work ≡ w
    → p.keeps ≡ false
    → Follows w p
end-Follows w p few e gone = record {
  sound = λ k. cc (gone, k);
  candidate = ap (λ (v : CertificateWork). v.candidate) e;
  birth = ap (λ (v : CertificateWork). v.birth) e;
  expires = rw e (omega arith);
  tries = rw e few;
  acceptance = λ a h. ap (λ (v : CertificateWork). v.acceptance) e ∙ h;
}

module _ (J : Formats) where
  new_event-IsEvent :
      (s : ReporterState) (r : Answers) (w : CertificateWork) (id : Bytes)
      → equal (r.probe).result tls_valid && not (is_some w.acceptance) ≡ false
      → IsEvent w.candidate w.acceptance (new_event J s w r.probe id)
  unfolding new_event
  new_event-IsEvent s r w id h = elim (Bool-cases (equal (r.probe).result tls_valid)) [
    | inl valid ↦ record {
      hostname = refl;
      issuer = refl;
      report_id = refl;
      nonce = refl;
      body = inr (record {
        kind = rw valid refl;
        result = valid;
        accepted = ground arith;
        leaf = rw valid refl;
        certificate = rw valid refl;
        key = rw valid refl;
      });
    }
    | inr ill ↦ record {
      hostname = refl;
      issuer = refl;
      report_id = refl;
      nonce = refl;
      body = inl (record {
        kind = rw ill refl;
        result = ill;
        leaf = rw ill refl;
        certificate = rw ill refl;
        key = rw ill refl;
        served = rw ill refl;
      });
    }
  ]

  -- The work of an attempt: it has an event that is its own.
  abbrev Tried : CertificateWork → CertificateEvent → Type 0
  Tried w e =
      (is_acceptable w.candidate ≡ true)
      × (w.expires ≤ w.birth + certificate_lifetime)
      × (w.attempts ≤ 3)
      × (w.event ≡ some e)
      × IsEvent w.candidate w.acceptance e

  IsWork-retried :
      (w : CertificateWork) (e : CertificateEvent) (t : ℕ)
      → Tried w e
      → w.attempts < 3
      → IsWork (record w { due = t })
  IsWork-retried w e t (acceptable, lifetime, tries, event, v) few = record {
    acceptable = acceptable;
    lifetime = lifetime;
    tries = tries;
    event = λ f h.
        let same : e ≡ f = cc (event, h) in (subst (IsEvent w.candidate w.acceptance) same v, few);
  }

  try_again-Follows :
      (r : Answers) (w : CertificateWork) (e : CertificateEvent) (d : Delivery)
      → Tried w e
      → Follows w (try_again r w d)
  unfolding try_again
  try_again-Follows r w e d t = elim (Bool-cases (d.retry && ltb w.attempts 3)) [
    | inr stop ↦ rw (stop, try_again) (end-Follows w _ (t.2) refl refl)
    | inl again ↦ elim (Option-cases r.jitter) [
      | inl none_left ↦ rw (again, none_left, try_again) (end-Follows w _ (t.2) refl refl)
      | inr (j, there) ↦
          rw (again, there, try_again)
            (record {
              sound = λ k. IsWork-retried w e _ t (ground arith);
              candidate = refl;
              birth = refl;
              expires = omega arith;
              tries = t.2;
              acceptance = λ a h. h;
            })
    ]
  ]

  -- An acceptance ends what is said of the event, and may only shorten the life.
  accept-Follows :
      (r : Answers) (w : CertificateWork) (e : CertificateEvent) (d : Delivery)
      (a : CertificateAcceptance)
      → Tried w e
      → Follows w (accept J r w d a)
  unfolding accept with_acceptance first_acceptance
  accept-Follows r w e d a t = elim (Bool-cases (contradicts a w.acceptance)) [
    | inl bad ↦ rw (bad, accept) (end-Follows w _ (t.2) refl refl)
    | inr good ↦ elim (Bool-cases (is_some w.acceptance)) [
      | inl had ↦
          rw (good, had, accept, with_acceptance)
            (record {
              sound = λ k. record {
                acceptable = t.0;
                lifetime = t.1;
                tries = t.2;
                event = λ f h. cc h;
              };
              candidate = refl;
              birth = refl;
              expires = omega arith;
              tries = t.2;
              acceptance = λ b h. h;
            })
      | inr new ↦
          rw (good, new, accept, with_acceptance, first_acceptance)
            (record {
              sound = λ k. record {
                acceptable = t.0;
                lifetime = ground (arith, t.1);
                tries = t.2;
                event = λ f h. cc h;
              };
              candidate = refl;
              birth = refl;
              expires = ground arith;
              tries = t.2;
              acceptance = λ b h. cc (new, ap is_some h);
            })
    ]
  ]

  settle-Follows :
      (r : Answers) (w : CertificateWork) (e : CertificateEvent) (d : Delivery) (p : Processed)
      → Tried w e
      → settle J r w (some d) ≡ some p
      → Follows w p
  unfolding settle
  settle-Follows r w e d p t h = elim (Option-cases d.acceptance) [
    | inl nothing ↦
        let same : try_again r w d ≡ p = cc (rw (nothing, settle) at h) in
        subst (Follows w) same (try_again-Follows r w e d t)
    | inr (a, there) ↦
        let same : accept J r w d a ≡ p = cc (rw (there, settle) at h) in
        subst (Follows w) same (accept-Follows r w e d a t)
  ]

  attempt-Follows :
      (s : ReporterState) (r : Answers) (w : CertificateWork) (e : CertificateEvent) (p : Processed)
      → is_acceptable w.candidate ≡ true
      → w.expires ≤ w.birth + certificate_lifetime
      → w.attempts < 3
      → IsEvent w.candidate w.acceptance e
      → attempt J s r w e ≡ some p
      → Follows w p
  unfolding attempt
  attempt-Follows s r w e p acceptable lifetime few v h =
      let tried = record w { event = some e; attempts = w.attempts + 1 } in
      elim (Option-cases (deliver J s r e)) [
        | inl out ↦ cc (rw (out, attempt, settle) at h)
        | inr (d, there) ↦
            let f =
              settle-Follows r tried e d p (acceptable, lifetime, omega (arith, few), refl, v)
                (rw (there, attempt) at h) in
            record {
              sound = f.sound;
              candidate = f.candidate;
              birth = f.birth;
              expires = f.expires;
              tries = f.tries;
              acceptance = f.acceptance;
            }
      ]

  report-Follows :
      (s : ReporterState) (r : Answers) (w : CertificateWork) (p : Processed)
      → IsWork w
      → report J s r w ≡ some p
      → Follows w p
  unfolding report
  report-Follows s r w p i e =
      let observed = truncate (r.probe).checked_at in
      elim (Bool-cases (equal (r.probe).result tls_valid && not (is_some w.acceptance))) [
        | inl healthy ↦
            end-Follows w p i.tries (cc (rw (healthy, report) at e))
              (cc (rw (healthy, report) at e))
        | inr ill ↦ elim (Bool-cases (leb observed w.last_observation)) [
          | inl early ↦ due-Follows w (r.now + second) p i (cc (rw (ill, early, report) at e))
          | inr later ↦ elim (Option-cases r.random) [
            | inl wrong ↦
                end-Follows w p i.tries (cc (rw (ill, later, wrong, report) at e))
                  (cc (rw (ill, later, wrong, report) at e))
            | inr (bytes, there) ↦
                let f =
                  attempt-Follows s r (record w { last_observation = observed; attempts = 0 })
                    (new_event J s w r.probe (certificate_uuid bytes)) p i.acceptable i.lifetime
                    (omega arith) (new_event-IsEvent s r w (certificate_uuid bytes) ill)
                    (rw (ill, later, there, report) at e) in
                record {
                  sound = f.sound;
                  candidate = f.candidate;
                  birth = f.birth;
                  expires = f.expires;
                  tries = f.tries;
                  acceptance = f.acceptance;
                }
          ]
        ]
      ]

  probe_work-Follows :
      (s : ReporterState) (r : Answers) (w : CertificateWork) (p : Processed)
      → IsWork w
      → probe_work J s r w ≡ some p
      → Follows w p
  unfolding probe_work
  probe_work-Follows s r w p i e = elim (Bool-cases r.expired_after_probe) [
    | inl late ↦
        end-Follows w p i.tries (cc (rw (late, probe_work) at e)) (cc (rw (late, probe_work) at e))
    | inr early ↦ elim (Bool-cases (is_empty (r.probe).result)) [
      | inr full ↦ report-Follows s r w p i (rw (early, full, probe_work) at e)
      | inl empty ↦ elim (Bool-cases (is_some w.acceptance)) [
        | inl had ↦
            due-Follows w (r.now + 30 * second) p i (cc (rw (early, empty, had, probe_work) at e))
        | inr new ↦
            end-Follows w p i.tries (cc (rw (early, empty, new, probe_work) at e))
              (cc (rw (early, empty, new, probe_work) at e))
      ]
    ]
  ]

  -- Work that `process` keeps is sound again: its evidence is acceptable, it lives no longer than
  -- five minutes, an event that waits is one of its own and has been tried at most twice. Whether
  -- it is kept or not, `process` changes neither the candidate nor the birth, never prolongs the
  -- life, tries an event at most three times, and never replaces an acceptance.
  pub process-Follows :
      (s : ReporterState) (r : Answers) (w : CertificateWork) (p : Processed)
      → IsWork w
      → process J s r w ≡ some p
      → Follows w p
  unfolding process
  process-Follows s r w p i e = elim (Bool-cases r.expired) [
    | inl late ↦
        end-Follows w p i.tries (cc (rw (late, process) at e)) (cc (rw (late, process) at e))
    | inr early ↦ elim (Option-cases w.event) [
      | inl new ↦ probe_work-Follows s r w p i (rw (early, new, process) at e)
      | inr (event, there) ↦
          let (v, few) = i.event event there in
          attempt-Follows s r w event p i.acceptable i.lifetime few v
            (rw (early, there, process) at e)
    ]
  ]
