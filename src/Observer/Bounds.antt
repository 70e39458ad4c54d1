-- ===== src/Observer/Bounds.antt =====
-- The bounds of an observer, and that it reports an issuer once.
use caddy_storage_redis.Prelude.{
  ◌+◌, ◌≤◌, Bytes, List, [], ◌∷◌, Bool, true, false, not, ◌||◌, Option, none, some, ◌≡◌, ◌≢◌,
  if◌then◌else◌, equal_iff, length, leb, arith, refl, sym, ap, ◌∙◌, All, Option-cases, Bool-cases,
  inl, inr,
}
use caddy_storage_redis.Go.Strings.{slash, split}
use caddy_storage_redis.Dict.{find, put, is_some, IsMap, find-put, length-put, put-IsMap}
use caddy_storage_redis.Health.{MismatchCandidate, valid_health_hostname}
use caddy_storage_redis.Observer.{
  ObservedPair, CertificateObserver, new_certificate_observer, new_pair, Fingerprints, Kind, crt,
  key, update_pair, count_read, read_of, observe, observe_all,
}

-- What one handshake can hold: 16 reads are looked at, of four issuers.
pub record IsBounded (o : CertificateObserver) : Type 0 where
  pub reads : o.reads ≤ 16
  pub pairs : length o.pairs ≤ 4
  pub map : IsMap o.pairs

-- The pair of an issuer has been judged.
abbrev is_done : Option ObservedPair → Bool
is_done none = false
is_done (some p) = p.done

abbrev pub judged : CertificateObserver → Bytes → Bool
judged o issuer = is_done (find issuer o.pairs)

-- A candidate is that of an issuer whose pair was not judged before, and is now; a pair that was
-- judged stays so.
pub record Judges (o after : CertificateObserver) (found : Option MismatchCandidate) : Type 0 where
  pub stays : (issuer : Bytes) → judged o issuer ≡ true → judged after issuer ≡ true
  pub fresh : (c : MismatchCandidate) → found ≡ some c → judged o c.issuer_key ≡ false
  pub closes : (c : MismatchCandidate) → found ≡ some c → judged after c.issuer_key ≡ true

Judges-none : (o after : CertificateObserver) → o.pairs ≡ after.pairs → Judges o after none
Judges-none o after same = record {
  stays = λ issuer h. ap (λ ps. is_done (find issuer ps)) (sym same) ∙ h;
  fresh = λ c e. cc;
  closes = λ c e. cc;
}

put-IsBounded :
    (o : CertificateObserver) (issuer : Bytes) (q : ObservedPair)
    → IsBounded o
    → leb 16 o.reads ≡ false
    → (if is_some (find issuer o.pairs) then length o.pairs else length o.pairs + 1) ≤ 4
    → IsBounded (record o { reads = o.reads + 1; pairs = put issuer q o.pairs })
put-IsBounded o issuer q v room size = record {
  reads = ground arith;
  pairs = rw (length-put issuer q o.pairs) size;
  map = put-IsMap issuer q o.pairs v.map;
}

module _ (F : Fingerprints) where
  update_pair_lem :
      (hostname issuer : Bytes) (k : Kind) (plaintext : Bytes) (p q : ObservedPair)
      (found : Option MismatchCandidate)
      → update_pair F hostname issuer k plaintext p ≡ (q, found)
      → (p.done ≡ true → q.done ≡ true)
        × ((c : MismatchCandidate)
            → found ≡ some c
            → (p.done ≡ false) × (q.done ≡ true) × (c.issuer_key ≡ issuer))
  unfolding update_pair
  update_pair_lem hostname issuer crt plaintext p q found e = (ground arith, λ c f. ground arith)
  update_pair_lem hostname issuer key plaintext p q found e = (ground arith, λ c f. ground arith)

  -- The update of one pair, put back under its issuer.
  put-Judges :
      (o : CertificateObserver) (issuer : Bytes) (k : Kind) (plaintext : Bytes) (p : ObservedPair)
      → (found : Option ObservedPair) → find issuer o.pairs ≡ found
      → p.done ≡ is_done found
      → let (q, report) = update_pair F o.hostname issuer k plaintext p in
        Judges o (record o { reads = o.reads + 1; pairs = put issuer q o.pairs }) report
  put-Judges o issuer k plaintext p found e same =
      let (q, report) = update_pair F o.hostname issuer k plaintext p in
      let (keeps, reports) = update_pair_lem o.hostname issuer k plaintext p q report refl in
      record {
        stays = λ i h. ground (arith, find-put issuer i q o.pairs, equal_iff issuer i, keeps);
        fresh = λ c f.
            let (before, _, name) = reports c f in
            ap (λ i. judged o i) name ∙ (ap is_done e ∙ (sym same ∙ before));
        closes = λ c f.
            let (_, after, name) = reports c f in
            ground (arith, find-put issuer c.issuer_key q o.pairs, equal_iff issuer c.issuer_key);
      }

  count_read-Judges :
      (o : CertificateObserver) (issuer : Bytes) (k : Kind) (plaintext : Bytes)
      → let (after, found) = count_read F o issuer k plaintext in Judges o after found
  unfolding count_read
  count_read-Judges o issuer k plaintext = elim (Bool-cases (leb 16 o.reads)) [
    | inl full ↦ rw (full, count_read) (Judges-none o o refl)
    | inr room ↦ elim (Option-cases (find issuer o.pairs)) [
      | inr (p, there) ↦
          rw (room, there, count_read) (put-Judges o issuer k plaintext p (some p) there refl)
      | inl missing ↦ elim (Bool-cases (leb 4 (length o.pairs))) [
        | inl full ↦
            rw (room, missing, full, count_read)
              (Judges-none o (record o { reads = o.reads + 1 }) refl)
        | inr space ↦
            rw (room, missing, space, count_read)
              (put-Judges o issuer k plaintext new_pair none missing refl)
      ]
    ]
  ]

  count_read-IsBounded :
      (o : CertificateObserver) (issuer : Bytes) (k : Kind) (plaintext : Bytes)
      → IsBounded o
      → IsBounded (count_read F o issuer k plaintext).0
  unfolding count_read
  count_read-IsBounded o issuer k plaintext v = elim (Bool-cases (leb 16 o.reads)) [
    | inl full ↦ rw (full, count_read) v
    | inr room ↦ elim (Option-cases (find issuer o.pairs)) [
      | inr (p, there) ↦
          rw (room, there, count_read) (put-IsBounded o issuer _ v room (rw there (v.pairs)))
      | inl missing ↦ elim (Bool-cases (leb 4 (length o.pairs))) [
        | inl full ↦
            rw (room, missing, full, count_read)
              (record { reads = ground arith; pairs = v.pairs; map = v.map })
        | inr space ↦
            rw (room, missing, space, count_read)
              (put-IsBounded o issuer _ v room (rw missing (ground arith)))
      ]
    ]
  ]

  observe-Judges :
      (o : CertificateObserver) (storage_key plaintext : Bytes)
      → let (after, found) = observe F o storage_key plaintext in Judges o after found
  unfolding observe
  observe-Judges o storage_key plaintext =
      elim (Bool-cases (not o.has_sink || not (valid_health_hostname o.hostname))) [
        | inl off ↦ rw (off, observe) (Judges-none o o refl)
        | inr on ↦ elim (Option-cases (read_of o.hostname (split slash storage_key))) [
          | inl other ↦ rw (on, other, observe) (Judges-none o o refl)
          | inr ((issuer, k), read) ↦
              rw (on, read, observe) (count_read-Judges o issuer k plaintext)
        ]
      ]

  observe-IsBounded :
      (o : CertificateObserver) (storage_key plaintext : Bytes)
      → IsBounded o
      → IsBounded (observe F o storage_key plaintext).0
  unfolding observe
  observe-IsBounded o storage_key plaintext v =
      elim (Bool-cases (not o.has_sink || not (valid_health_hostname o.hostname))) [
        | inl off ↦ rw (off, observe) v
        | inr on ↦ elim (Option-cases (read_of o.hostname (split slash storage_key))) [
          | inl other ↦ rw (on, other, observe) v
          | inr ((issuer, k), read) ↦
              rw (on, read, observe) (count_read-IsBounded o issuer k plaintext v)
        ]
      ]

  -- No issuer stands twice, and none of them had been judged.
  abbrev pub AreFirst : CertificateObserver → List MismatchCandidate → Type 0
  AreFirst o [] = Unit {0}
  AreFirst o (c ∷ cs) =
      (judged o c.issuer_key ≡ false)
      × All (λ (d : MismatchCandidate). d.issuer_key ≢ c.issuer_key) cs
      × AreFirst o cs

  AreFirst-back :
      (o after : CertificateObserver) (cs : List MismatchCandidate)
      → ((issuer : Bytes) → judged o issuer ≡ true → judged after issuer ≡ true)
      → AreFirst after cs
      → AreFirst o cs
  AreFirst-back o after [] stays f = tt
  AreFirst-back o after (c ∷ cs) stays f =
      (ground (arith, stays c.issuer_key), f.1, AreFirst-back o after cs stays f.2)

  AreFirst-other :
      (after : CertificateObserver) (issuer : Bytes) (cs : List MismatchCandidate)
      → judged after issuer ≡ true
      → AreFirst after cs
      → All (λ (d : MismatchCandidate). d.issuer_key ≢ issuer) cs
  AreFirst-other after issuer [] closed f = tt
  AreFirst-other after issuer (c ∷ cs) closed f = (
    (λ same. cc (closed, f.0, ap (λ i. judged after i) same)),
    AreFirst-other after issuer cs closed f.2,
  )

  found-AreFirst :
      (o after : CertificateObserver) (found : Option MismatchCandidate)
      (cs : List MismatchCandidate)
      → Judges o after found
      → AreFirst after cs
      → AreFirst o (elim found [ none ↦ cs | some c ↦ c ∷ cs ])
  found-AreFirst o after none cs j f = AreFirst-back o after cs (j.stays) f
  found-AreFirst o after (some c) cs j f = (
    j.fresh c refl,
    AreFirst-other after c.issuer_key cs (j.closes c refl) f,
    AreFirst-back o after cs (j.stays) f,
  )

  observe_all-AreFirst :
      (o : CertificateObserver) (loads : List (Bytes × Bytes))
      → AreFirst o (observe_all F o loads).1
  unfolding observe_all
  observe_all-AreFirst o [] = tt
  observe_all-AreFirst o ((storage_key, plaintext) ∷ loads) =
      let (after, found) = observe F o storage_key plaintext in
      found-AreFirst o after found (observe_all F after loads).1
        (observe-Judges o storage_key plaintext) (observe_all-AreFirst after loads)

  observe_all-IsBounded :
      (o : CertificateObserver) (loads : List (Bytes × Bytes))
      → IsBounded o
      → IsBounded (observe_all F o loads).0
  unfolding observe_all
  observe_all-IsBounded o [] v = v
  observe_all-IsBounded o ((storage_key, plaintext) ∷ loads) v =
      observe_all-IsBounded (observe F o storage_key plaintext).0 loads
        (observe-IsBounded o storage_key plaintext v)

  -- Whatever is loaded in a handshake, its observer looks at no more than 16 reads and four
  -- issuers, and reports no issuer twice.
  pub observe_all-IsBounded-AreFirst :
      (hostname : Bytes) (has_sink : Bool) (loads : List (Bytes × Bytes))
      → let (o, cs) = observe_all F (new_certificate_observer hostname has_sink) loads in
        IsBounded o × AreFirst (new_certificate_observer hostname has_sink) cs
  observe_all-IsBounded-AreFirst hostname has_sink loads =
      let o = new_certificate_observer hostname has_sink in
      (
        observe_all-IsBounded o loads
            (record { reads = omega arith; pairs = omega arith; map = tt }),
        observe_all-AreFirst o loads,
      )
