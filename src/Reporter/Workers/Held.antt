-- ===== src/Reporter/Workers/Held.antt =====
-- The work that is marked as busy is the work that the workers have in hand.
use mathlib.Core.Path.{subst}
use caddy_storage_redis.Prelude.{
  ℕ, Bytes, List, [], ◌∷◌, true, false, ◌&&◌, Option, none, some, ◌≡◌, ◌≢◌, ◌⊎◌, ap, refl, sym, ◌∙◌,
  if◌then◌else◌, equal, equal_iff, arith, Bool-cases, Option-cases, inl, inr,
}
use caddy_storage_redis.Dict.{find, put, keep, IsMap, find-put, find-keep}
use caddy_storage_redis.Reporter.{CertificateWork, is_wanted}
use caddy_storage_redis.Reporter.Loop.{set_busy, select, is_due, is_before}

abbrev pub Hand : Type 0
Hand = Option (Bytes × CertificateWork)

abbrev pub host_of : Hand → Option Bytes
host_of none = none
host_of (some (host, w)) = some host

pub record IsHeld (m : List (Bytes × CertificateWork)) (a b : Hand) : Type 0 where
  pub one :
      (host : Bytes) (w : CertificateWork)
      → a ≡ some (host, w)
      → find host m ≡ some (set_busy true w)
  pub two :
      (host : Bytes) (w : CertificateWork)
      → b ≡ some (host, w)
      → find host m ≡ some (set_busy true w)
  pub apart : (host : Bytes) → host_of a ≡ some host → host_of b ≢ some host
  pub only :
      (host : Bytes) (w : CertificateWork)
      → find host m ≡ some w
      → w.busy ≡ true
      → (host_of a ≡ some host) ⊎ (host_of b ≡ some host)

pub swap-IsHeld : (m : List (Bytes × CertificateWork)) (a b : Hand) → IsHeld m a b → IsHeld m b a
swap-IsHeld m a b h = record {
  one = h.two;
  two = h.one;
  apart = λ host p q. h.apart host q p;
  only = λ host w f busy. elim (h.only host w f busy) [ inl p ↦ inr p | inr q ↦ inl q ];
}

-- The busy entries of two maps are the same.
pub record SameBusy (m n : List (Bytes × CertificateWork)) : Type 0 where
  pub stays :
      (host : Bytes) (w : CertificateWork)
      → find host m ≡ some w
      → w.busy ≡ true
      → find host n ≡ some w
  pub was :
      (host : Bytes) (w : CertificateWork)
      → find host n ≡ some w
      → w.busy ≡ true
      → find host m ≡ some w

pub same-IsHeld :
    (m n : List (Bytes × CertificateWork)) (a b : Hand) → SameBusy m n → IsHeld m a b → IsHeld n a b
same-IsHeld m n a b s h = record {
  one = λ host w e. s.stays host (set_busy true w) (h.one host w e) refl;
  two = λ host w e. s.stays host (set_busy true w) (h.two host w e) refl;
  apart = h.apart;
  only = λ host w f busy. h.only host w (s.was host w f busy) busy;
}

-- What is left of an entry by a loop of deletions.
abbrev left : ℕ → Bytes → Option CertificateWork → Option CertificateWork
left now host none = none
left now host (some v) = if is_wanted now host v then some v else none

left-stays :
    (now : ℕ) (host : Bytes) (w : CertificateWork) (o : Option CertificateWork)
    → o ≡ some w
    → w.busy ≡ true
    → left now host o ≡ some w
left-stays now host w none e busy = cc e
left-stays now host w (some v) e busy = ground (arith, e, busy)

left-was :
    (now : ℕ) (host : Bytes) (w : CertificateWork) (o : Option CertificateWork)
    → left now host o ≡ some w
    → o ≡ some w
left-was now host w none e = cc e
left-was now host w (some v) e = ground (arith, e)

find-left :
    (now : ℕ) (host : Bytes) (m : List (Bytes × CertificateWork))
    → IsMap m
    → find host (keep (is_wanted now) m) ≡ left now host (find host m)
find-left now host m i = find-keep (is_wanted now) host m i ∙ same (find host m)
  where
    same :
        (o : Option CertificateWork)
        → (elim o [ none ↦ none | some v ↦ if is_wanted now host v then some v else none ])
          ≡ left now host o
    same none = refl
    same (some v) = refl

pub keep-SameBusy :
    (now : ℕ) (m : List (Bytes × CertificateWork)) → IsMap m → SameBusy m (keep (is_wanted now) m)
keep-SameBusy now m i = record {
  stays = λ host w f busy. find-left now host m i ∙ left-stays now host w (find host m) f busy;
  was = λ host w f busy. left-was now host w (find host m) (sym (find-left now host m i) ∙ f);
}

-- Idle work is put under a new host.
pub put-SameBusy :
    (host : Bytes) (v : CertificateWork) (m : List (Bytes × CertificateWork))
    → find host m ≡ none
    → v.busy ≡ false
    → SameBusy m (put host v m)
put-SameBusy host v m missing idle = record {
  stays = λ k w f busy. ground (arith, find-put host k v m, equal_iff host k);
  was = λ k w f busy. ground (arith, find-put host k v m, equal_iff host k);
}

-- A worker takes idle work, which is marked.
pub take-IsHeld :
    (m : List (Bytes × CertificateWork)) (host : Bytes) (w : CertificateWork) (b : Hand)
    → IsHeld m none b
    → find host m ≡ some w
    → w.busy ≡ false
    → IsHeld (put host (set_busy true w) m) (some (host, w)) b
take-IsHeld m host w b h there idle =
    let marked = set_busy true w in
    record {
      one = λ k v e.
          let same : (host, w) ≡ (k, v) = cc e in
          subst
            (λ (x : Bytes × CertificateWork).
              find x.0 (put host marked m) ≡ some (set_busy true x.1))
            same (ground (arith, find-put host host marked m, equal_iff host host));
      two = λ k v e. elim (Bool-cases (equal host k)) [
        | inl same ↦
            let this = (equal_iff host k).0 same in
            cc (h.two k v e, there, idle, ap (λ i. find i m) this)
        | inr other ↦ find-put host k marked m ∙ rw other (h.two k v e)
      ];
      apart = λ k p q. elim (Option-cases b) [
        | inl nothing ↦ cc (q, ap host_of nothing)
        | inr ((j, v), e) ↦
            let this : host ≡ k = cc p in
            let that : j ≡ k = cc (q, ap host_of e) in
            cc (h.two j v e, there, idle, ap (λ i. find i m) this, ap (λ i. find i m) that)
      ];
      only = λ k v f busy. elim (Bool-cases (equal host k)) [
        | inl same ↦ inl (ap some ((equal_iff host k).0 same))
        | inr other ↦
            inr (elim (h.only k v (sym (find-put host k marked m ∙ rw other refl) ∙ f) busy) [
              | inl nothing ↦ cc nothing
              | inr q ↦ q
            ])
      ];
    }

-- A worker ends with its work, whose entry is idle or gone.
pub finish-IsHeld :
    (m n : List (Bytes × CertificateWork)) (host : Bytes) (w : CertificateWork) (b : Hand)
    → ((k : Bytes) → k ≢ host → find k n ≡ find k m)
    → ((v : CertificateWork) → find host n ≡ some v → v.busy ≡ false)
    → IsHeld m (some (host, w)) b
    → IsHeld n none b
finish-IsHeld m n host w b others idle h = record {
  one = λ k v e. cc e;
  two = λ k v e. others k (λ same. h.apart host refl (ap host_of e ∙ ap some same)) ∙ h.two k v e;
  apart = λ k p q. cc p;
  only = λ k v f busy. elim (Bool-cases (equal k host)) [
    | inl same ↦
        let this = (equal_iff k host).0 same in
        cc (idle v (ap (λ i. find i n) (sym this) ∙ f), busy)
    | inr other ↦
        let unlike : k ≢ host = λ this. cc (other, (equal_iff k host).1 this) in
        inr (elim (h.only k v (sym (others k unlike) ∙ f) busy) [
          | inl p ↦ let back : host ≡ k = cc p in elim (unlike (sym back)) [ ]
          | inr q ↦ q
        ])
  ];
}

-- What is selected is an entry, or what had been found before.
select-found :
    (now : ℕ) (so_far : Hand) (m : List (Bytes × CertificateWork)) (host : Bytes)
    (w : CertificateWork)
    → IsMap m
    → select now so_far m ≡ some (host, w)
    → (so_far ≡ some (host, w)) ⊎ ((find host m ≡ some w) × (is_due now w ≡ true))
unfolding select find
select-found now so_far [] host w i e = inl e
select-found now so_far ((j, v) ∷ m) host w i e =
    elim (Bool-cases (is_due now v && is_before v so_far)) [
      | inr later ↦ elim (select-found now so_far m host w i.1 (rw later at e)) [
        | inl before ↦ inl before
        | inr there ↦ inr (ground (arith, there.0, equal_iff j host, i.0), there.1)
      ]
      | inl sooner ↦ elim (select-found now (some (j, v)) m host w i.1 (rw sooner at e)) [
        | inl this ↦ inr (ground (arith, this, equal_iff j host), ground (arith, this))
        | inr there ↦ inr (ground (arith, there.0, equal_iff j host, i.0), there.1)
      ]
    ]

pub select-IsDue :
    (now : ℕ) (m : List (Bytes × CertificateWork)) (host : Bytes) (w : CertificateWork)
    → IsMap m
    → select now none m ≡ some (host, w)
    → (find host m ≡ some w) × (is_due now w ≡ true)
select-IsDue now m host w i e = elim (select-found now none m host w i e) [
  | inl impossible ↦ cc impossible
  | inr there ↦ there
]
