-- ===== src/Probe/Safe.antt =====
-- A confirming sink runs at most 16 probes, each for a host of its own.
use mathlib.Core.Path.{subst}
use caddy_storage_redis.Prelude.{
  ◌+◌, ◌≤◌, Bytes, List, [], ◌∷◌, ◌++◌, Bool, true, false, not, ◌&&◌, ◌||◌, ◌≡◌, ◌≢◌, ap, refl, sym,
  All, length, leb, none, some, if◌then◌else◌, ◌∙◌, arith, Bool-cases, inl, inr, equal_iff,
}
use caddy_storage_redis.Dict.{
  find, put, remove, is_some, IsMap, find-put, find-remove, length-put, length-remove_once,
  put-IsMap, remove-IsMap,
}
use caddy_storage_redis.Health.{MismatchCandidate}
use caddy_storage_redis.Probe.Sink.{
  is_refused, admits, guard, lift_guard, close, Stage, probing, cleared, finishing, checked,
  SinkProbe, probe_at, Running, Step, offers, starts, checks, hands, lifts, closes, ends, Reach,
  begins, then_step,
}

-- No two candidates are of one host.
abbrev pub AreApart : List MismatchCandidate → Type 0
AreApart [] = Unit {0}
AreApart (c ∷ cs) = All (λ d. d.hostname ≢ c.hostname) cs × AreApart cs

-- A probe is guarded.
abbrev pub IsGuarded : List (Bytes × Bool) → MismatchCandidate → Type 0
IsGuarded m c = is_some (find c.hostname m) ≡ true

-- The candidates of the probes.
abbrev pub candidates : List SinkProbe → List MismatchCandidate
candidates [] = []
candidates (p ∷ probes) = p.candidate ∷ candidates probes

pub record IsRunning (r : Running) : Type 0 where
  pub map : IsMap (r.sink).in_flight
  pub size : length (r.sink).in_flight ≤ 16
  pub probes : length (candidates r.probes) ≡ length (r.sink).in_flight
  pub guarded : All (IsGuarded (r.sink).in_flight) (candidates r.probes)
  pub apart : AreApart (candidates r.probes)
  -- for what is offered there are room and no guard yet
  pub offered :
      (c : MismatchCandidate)
      → r.offered ≡ some c
      → (is_some (find c.hostname (r.sink).in_flight) ≡ false)
        × (leb 16 (length (r.sink).in_flight) ≡ false)

-- The guard of a new host leaves the others.
put-IsGuarded :
    (c : MismatchCandidate) (m : List (Bytes × Bool)) (cs : List MismatchCandidate)
    → is_some (find c.hostname m) ≡ false
    → All (IsGuarded m) cs
    → All (IsGuarded (put c.hostname true m)) cs × All (λ d. d.hostname ≢ c.hostname) cs
put-IsGuarded c m [] fresh g = (tt, tt)
put-IsGuarded c m (d ∷ cs) fresh g =
    let (others, apart) = put-IsGuarded c m cs fresh g.1 in
    (
      (ground (arith, find-put c.hostname d.hostname true m, g.0), others),
      ((λ same. cc (g.0, fresh, ap (λ h. is_some (find h m)) same)), apart),
    )

remove-IsGuarded :
    (c : MismatchCandidate) (m : List (Bytes × Bool)) (cs : List MismatchCandidate)
    → All (λ d. d.hostname ≢ c.hostname) cs
    → All (IsGuarded m) cs
    → All (IsGuarded (remove c.hostname m)) cs
remove-IsGuarded c m [] a g = tt
remove-IsGuarded c m (d ∷ cs) a g = (
  ground (arith, find-remove c.hostname d.hostname m, g.0, a.0, equal_iff c.hostname d.hostname),
  remove-IsGuarded c m cs a.1 g.1,
)

-- A list without one of its elements.
All-without {ℓ} :
    (P : MismatchCandidate → Type ℓ) (before after : List MismatchCandidate) (c : MismatchCandidate)
    → All P (before ++ (c ∷ after))
    → P c × All P (before ++ after)
All-without P [] after c a = a
All-without P (d ∷ before) after c a =
    let (this, rest) = All-without P before after c a.1 in (this, (a.0, rest))

AreApart-without :
    (before after : List MismatchCandidate) (c : MismatchCandidate)
    → AreApart (before ++ (c ∷ after))
    → AreApart (before ++ after) × All (λ d. d.hostname ≢ c.hostname) (before ++ after)
AreApart-without [] after c a = (a.1, a.0)
AreApart-without (d ∷ before) after c a =
    let (apart, others) = AreApart-without before after c a.1 in
    let (ne, rest) = All-without (λ x. x.hostname ≢ d.hostname) before after c a.0 in
    ((rest, apart), ((λ same. ne (sym same)), others))

length-without :
    (before after : List MismatchCandidate) (c : MismatchCandidate)
    → length (before ++ (c ∷ after)) ≡ length (before ++ after) + 1
length-without [] after c = omega arith
length-without (d ∷ before) after c = omega (arith, length-without before after c)

-- The candidates of a list with one probe singled out, which do not depend on its stage.
candidates-split :
    (before after : List SinkProbe) (p : SinkProbe)
    → candidates (before ++ (p ∷ after)) ≡ candidates before ++ (p.candidate ∷ candidates after)
candidates-split [] after p = refl
candidates-split (q ∷ before) after p =
    ap (λ cs. q.candidate ∷ cs) (candidates-split before after p)

candidates-append :
    (before after : List SinkProbe)
    → candidates (before ++ after) ≡ candidates before ++ candidates after
candidates-append [] after = refl
candidates-append (q ∷ before) after = ap (λ cs. q.candidate ∷ cs) (candidates-append before after)

candidates-moved :
    (before after : List SinkProbe) (c : MismatchCandidate) (from to : Stage)
    → candidates (before ++ (probe_at from c ∷ after))
      ≡ candidates (before ++ (probe_at to c ∷ after))
candidates-moved before after c from to =
    candidates-split before after (probe_at from c)
    ∙ sym (candidates-split before after (probe_at to c))

accepted_lem :
    (a b c d e f g : Bool)
    → (a && not (b || c || d || e || f || g)) ≡ true
    → (e ≡ false) × (f ≡ false)
accepted_lem a b c d e f g h = ground arith

offered-IsRunning :
    (free : Bool) (c : MismatchCandidate) (s : Running)
    → IsRunning s
    → IsRunning (record s { offered = if admits free c s.sink then some c else s.offered })
unfolding admits is_refused
offered-IsRunning free c s i =
    let k = s.sink in
    elim (Bool-cases (admits free c k)) [
      | inr off ↦ rw off (record {
        map = i.map;
        size = i.size;
        probes = i.probes;
        guarded = i.guarded;
        apart = i.apart;
        offered = i.offered;
      })
      | inl on ↦
          let (fresh, room) =
            accepted_lem free k.closed k.cancelled (not k.has_sink)
              (is_some (find c.hostname k.in_flight)) (leb 16 (length k.in_flight)) _ on in
          rw on (record {
            map = i.map;
            size = i.size;
            probes = i.probes;
            guarded = i.guarded;
            apart = i.apart;
            offered = λ d same. (cc, cc);
          })
    ]

started-IsRunning :
    (c : MismatchCandidate) (s : Running)
    → s.offered ≡ some c
    → IsRunning s
    → IsRunning
        (record s { sink = guard c s.sink; offered = none; probes = probe_at probing c ∷ s.probes })
unfolding guard
started-IsRunning c s this i =
    let k = s.sink in
    let (fresh, room) = i.offered c this in
    let (guarded, others) = put-IsGuarded c k.in_flight (candidates s.probes) fresh i.guarded in
    let size = length-put c.hostname true k.in_flight in
    record {
      map = put-IsMap c.hostname true k.in_flight i.map;
      size = ground (arith, size, fresh, room);
      probes = ground (arith, size, fresh, i.probes);
      guarded = (
        ground (
          arith,
          find-put c.hostname c.hostname true k.in_flight,
          equal_iff c.hostname c.hostname,
        ),
        guarded,
      );
      apart = (others, i.apart);
      offered = λ d never. cc;
    }

-- A probe that goes on to another stage.
moved-IsRunning :
    (s : Running) (handed : List MismatchCandidate) (probes : List SinkProbe)
    → candidates s.probes ≡ candidates probes
    → IsRunning s
    → IsRunning (record s { probes = probes; handed = handed })
moved-IsRunning s handed probes same i = record {
  map = i.map;
  size = i.size;
  probes = sym (ap length same) ∙ i.probes;
  guarded = subst (All (IsGuarded (s.sink).in_flight)) same i.guarded;
  apart = subst AreApart same i.apart;
  offered = i.offered;
}

lifted-IsRunning :
    (c : MismatchCandidate) (before after : List SinkProbe) (s : Running)
    → s.probes ≡ before ++ (probe_at finishing c ∷ after)
    → s.offered ≡ none
    → IsRunning s
    → IsRunning (record s { sink = lift_guard c s.sink; probes = before ++ after })
unfolding lift_guard
lifted-IsRunning c before after s e idle i =
    let m = (s.sink).in_flight in
    let front = candidates before in
    let back = candidates after in
    let split = ap candidates e ∙ candidates-split before after (probe_at finishing c) in
    let joined = sym (candidates-append before after) in
    let (apart, others) = AreApart-without front back c (subst AreApart split i.apart) in
    let (mine, guarded) =
      All-without (IsGuarded m) front back c (subst (All (IsGuarded m)) split i.guarded) in
    let less = length-remove_once c.hostname m i.map mine in
    record {
      map = remove-IsMap c.hostname m i.map;
      size = omega (arith, less, i.size);
      probes =
          omega
            (arith, less, i.probes, ap length split, ap length joined, length-without front back c);
      guarded =
          subst (All (IsGuarded (remove c.hostname m))) joined
            (remove-IsGuarded c m (front ++ back) others guarded);
      apart = subst AreApart joined apart;
      offered = λ d never. cc (idle, never);
    }

-- The end of a context, or of the sink, leaves the guards and the probes.
ended-IsRunning :
    (s : Running) (closed : Bool)
    → IsRunning s
    → IsRunning (record s { sink = record (s.sink) { closed = closed; cancelled = true } })
ended-IsRunning s closed i = record {
  map = i.map;
  size = i.size;
  probes = i.probes;
  guarded = i.guarded;
  apart = i.apart;
  offered = i.offered;
}

step-IsRunning : (s t : Running) → IsRunning s → Step s t → IsRunning t
unfolding close
step-IsRunning s t i (offers free c _ idle) = offered-IsRunning free c s i
step-IsRunning s t i (starts c _ this) = started-IsRunning c s this i
step-IsRunning s t i (checks confirmed c before after _ e) =
    moved-IsRunning s s.handed _
      (ap candidates e ∙ candidates-moved before after c probing (checked confirmed s.sink)) i
step-IsRunning s t i (hands c before after _ e) =
    moved-IsRunning s (c ∷ s.handed) _
      (ap candidates e ∙ candidates-moved before after c cleared finishing) i
step-IsRunning s t i (lifts c before after _ e idle) = lifted-IsRunning c before after s e idle i
step-IsRunning s t i (closes _ idle) = ended-IsRunning s true i
step-IsRunning s t i (ends _) = ended-IsRunning s (s.sink).closed i

-- Whatever is offered and found, in every order of the steps: a confirming sink runs at most 16
-- probes, as many as it has guards, each for a host of its own, which is guarded while its probe
-- runs; and what the holder of the lock has found acceptable has room and no guard yet.
pub Reach-IsRunning : (s : Running) → Reach s → IsRunning s
unfolding find
Reach-IsRunning s (begins has_sink) = record {
  map = tt;
  size = omega arith;
  probes = refl;
  guarded = tt;
  apart = tt;
  offered = λ c never. cc;
}
Reach-IsRunning s (then_step before _ r step) =
    step-IsRunning before s (Reach-IsRunning before r) step
