-- ===== src/Reporter/Earliest.antt =====
-- A worker takes the work that is due first.
use caddy_storage_redis.Prelude.{
  ℕ, ◌≤◌, ◌<◌, Bytes, List, [], ◌∷◌, true, false, ◌&&◌, Option, none, some, ◌≡◌, ap, ◌∙◌, equal,
  arith, Bool-cases, inl, inr,
}
use caddy_storage_redis.Dict.{find, IsMap, find-keep}
use caddy_storage_redis.Reporter.{CertificateWork, ReporterState, is_wanted, prune}
use caddy_storage_redis.Reporter.Loop.{select, is_due, is_before, take_work}

-- Something has been taken that is due by a time.
abbrev pub IsDueBy : ℕ → Option (Bytes × CertificateWork) → Type 0
IsDueBy t none = ⊥
IsDueBy t (some (host, w)) = w.due ≤ t

-- The search never goes back behind what it has found.
select-keeps :
    (now t : ℕ) (so_far : Option (Bytes × CertificateWork)) (m : List (Bytes × CertificateWork))
    → IsDueBy t so_far
    → IsDueBy t (select now so_far m)
unfolding select
select-keeps now t so_far [] h = h
select-keeps now t none (_ ∷ m) h = elim h [ ]
select-keeps now t (some (i, v)) ((j, w) ∷ m) h =
    elim (Bool-cases (is_due now w && is_before w (some (i, v)))) [
      | inl sooner ↦ rw sooner (select-keeps now t (some (j, w)) m (ground (arith, h)))
      | inr later ↦ rw later (select-keeps now t (some (i, v)) m h)
    ]

-- An entry that is due bounds what is found.
select-IsDueBy :
    (now : ℕ) (so_far : Option (Bytes × CertificateWork)) (m : List (Bytes × CertificateWork))
    (host : Bytes) (w : CertificateWork)
    → find host m ≡ some w
    → is_due now w ≡ true
    → IsDueBy w.due (select now so_far m)
unfolding select find
select-IsDueBy now so_far [] host w there due = cc there
select-IsDueBy now none ((j, v) ∷ m) host w there due = elim (Bool-cases (equal j host)) [
  | inl same ↦
      let this : v ≡ w = ground (arith, there, same) in
      let is_now : is_due now v ≡ true = ap (is_due now) this ∙ due in
      rw is_now (
        select-keeps now w.due (some (j, v)) m
          (rw (ap (λ (x : CertificateWork). x.due) this) (omega arith)))
  | inr other ↦ elim (Bool-cases (is_due now v)) [
    | inl taken ↦ rw taken (select-IsDueBy now (some (j, v)) m host w (rw other at there) due)
    | inr passed ↦ rw passed (select-IsDueBy now none m host w (rw other at there) due)
  ]
]
select-IsDueBy now (some (i, u)) ((j, v) ∷ m) host w there due = elim (Bool-cases (equal j host)) [
  | inl same ↦
      let this : v ≡ w = ground (arith, there, same) in
      let is_now : is_due now v ≡ true = ap (is_due now) this ∙ due in
      let time : v.due ≡ w.due = ap (λ (x : CertificateWork). x.due) this in
      elim (Bool-cases (is_before v (some (i, u)))) [
        | inl sooner ↦
            rw (is_now, sooner) (select-keeps now w.due (some (j, v)) m (omega (arith, time)))
        | inr later ↦
            rw (is_now, later)
              (select-keeps now w.due (some (i, u)) m (ground (arith, time, later)))
      ]
  | inr other ↦ elim (Bool-cases (is_due now v && is_before v (some (i, u)))) [
    | inl taken ↦ rw taken (select-IsDueBy now (some (j, v)) m host w (rw other at there) due)
    | inr passed ↦ rw passed (select-IsDueBy now (some (i, u)) m host w (rw other at there) due)
  ]
]

-- Work that is idle, due and not expired is not passed over: a worker that looks for work at that
-- time takes some, and what it takes is due no later.
pub take_work-IsDueBy :
    (now : ℕ) (s : ReporterState) (host : Bytes) (w : CertificateWork)
    → IsMap s.work
    → find host s.work ≡ some w
    → w.busy ≡ false
    → w.due ≤ now
    → now < w.expires
    → IsDueBy w.due (take_work now s).0
unfolding take_work prune
take_work-IsDueBy now s host w unique there idle due alive =
    let wanted : is_wanted now host w ≡ true = ground (arith, alive) in
    select-IsDueBy now none (prune now s).work host w
      (find-keep (is_wanted now) host s.work unique ∙ ground (arith, there, wanted))
      (ground (arith, idle, due))
