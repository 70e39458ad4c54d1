-- ===== src/Probe/Over.antt =====
-- certificate_probe.go: a confirming sink after the end of its context.
use caddy_storage_redis.Prelude.{
  ℕ, ◌+◌, ◌≤◌, List, [], ◌∷◌, ◌++◌, true, false, Option, none, some, ◌≡◌, ap, refl, ◌∙◌, length,
  arith,
}
use caddy_storage_redis.Health.{MismatchCandidate}
use caddy_storage_redis.Probe.Sink.{
  is_refused, admits, guard, lift_guard, close, Stage, probing, cleared, finishing, checked,
  SinkProbe, probe_at, Running, Step, offers, starts, checks, hands, lifts, closes, ends,
}

-- The probes that have passed their test of the context and not yet handed their candidate on.
abbrev count : Stage → ℕ
count probing = 0
count cleared = 1
count finishing = 0

abbrev pub cleared_count : List SinkProbe → ℕ
cleared_count [] = 0
cleared_count (p ∷ probes) = count p.stage + cleared_count probes

-- An offer that the holder of the lock has found acceptable.
abbrev pub pending : Option MismatchCandidate → ℕ
pending none = 0
pending (some _) = 1

-- What can follow a sink, by any number of steps.
pub data Later : Running → Running → Type 0 where
  now : (s : Running) → Later s s
  and_then : (s t u : Running) → Later s t → Step t u → Later s u

-- A later sink has ended; it has handed on no more than what had passed the test of the context, and
-- has begun no probe but that of an offer that had been found acceptable.
pub record IsOver (s t : Running) : Type 0 where
  pub over : (t.sink).cancelled ≡ true
  pub more : List MismatchCandidate
  pub handed : t.handed ≡ more ++ s.handed
  pub passed : length more + cleared_count t.probes ≤ cleared_count s.probes
  pub probes : length t.probes + pending t.offered ≤ length s.probes + pending s.offered

cleared_count-split :
    (before after : List SinkProbe) (p : SinkProbe)
    → cleared_count (before ++ (p ∷ after)) ≡ count p.stage + cleared_count (before ++ after)
cleared_count-split [] after p = refl
cleared_count-split (q ∷ before) after p = omega (arith, cleared_count-split before after p)

length-split :
    (before after : List SinkProbe) (p : SinkProbe)
    → length (before ++ (p ∷ after)) ≡ length (before ++ after) + 1
length-split [] after p = omega arith
length-split (q ∷ before) after p = omega (arith, length-split before after p)

step-IsOver : (s t u : Running) → IsOver s t → Step t u → IsOver s u
unfolding admits is_refused guard lift_guard close checked
step-IsOver s t u o (offers free c _ idle) =
    let off : admits free c t.sink ≡ false = ground (arith, o.over) in
    rw off (record {
      over = o.over;
      more = o.more;
      handed = o.handed;
      passed = o.passed;
      probes = o.probes;
    })
step-IsOver s t u o (starts c _ this) = record {
  over = o.over;
  more = o.more;
  handed = o.handed;
  passed = omega (arith, o.passed);
  probes = omega (arith, ap pending this, o.probes);
}
step-IsOver s t u o (checks confirmed c before after _ e) =
    let off : checked confirmed t.sink ≡ finishing = ground (arith, o.over) in
    record {
      over = o.over;
      more = o.more;
      handed = o.handed;
      passed = omega (
        arith,
        o.passed,
        ap cleared_count e,
        cleared_count-split before after (probe_at probing c),
        cleared_count-split before after (probe_at (checked confirmed t.sink) c),
        ap count off,
      );
      probes = omega (
        arith,
        o.probes,
        ap length e,
        length-split before after (probe_at probing c),
        length-split before after (probe_at (checked confirmed t.sink) c),
      );
    }
step-IsOver s t u o (hands c before after _ e) = record {
  over = o.over;
  more = c ∷ o.more;
  handed = ap (λ cs. c ∷ cs) o.handed;
  passed = omega (
    arith,
    o.passed,
    ap cleared_count e,
    cleared_count-split before after (probe_at cleared c),
    cleared_count-split before after (probe_at finishing c),
  );
  probes = omega (
    arith,
    o.probes,
    ap length e,
    length-split before after (probe_at cleared c),
    length-split before after (probe_at finishing c),
  );
}
step-IsOver s t u o (lifts c before after _ e idle) = record {
  over = o.over;
  more = o.more;
  handed = o.handed;
  passed = omega (
    arith,
    o.passed,
    ap cleared_count e,
    cleared_count-split before after (probe_at finishing c),
  );
  probes = omega (arith, o.probes, ap length e, length-split before after (probe_at finishing c));
}
step-IsOver s t u o (closes _ idle) = record {
  over = refl;
  more = o.more;
  handed = o.handed;
  passed = o.passed;
  probes = o.probes;
}
step-IsOver s t u o (ends _) = record {
  over = refl;
  more = o.more;
  handed = o.handed;
  passed = o.passed;
  probes = o.probes;
}

later-IsOver : (s t : Running) → (s.sink).cancelled ≡ true → Later s t → IsOver s t
later-IsOver s t off (now _) = record {
  over = off;
  more = [];
  handed = refl;
  passed = omega arith;
  probes = omega arith;
}
later-IsOver s t off (and_then _ u _ l step) = step-IsOver s u t (later-IsOver s u off l) step

-- With neither a probe nor an offer found acceptable, nothing is handed on and no probe begun.
abbrev pub StaysQuiet : Running → Running → Type 0
StaysQuiet s t =
    s.probes ≡ [] → s.offered ≡ none → (t.handed ≡ s.handed) × (t.probes ≡ []) × (t.offered ≡ none)

no_length {ℓ} : {A : Type ℓ} (xs : List A) → length xs ≤ 0 → xs ≡ []
no_length [] short = refl
no_length (x ∷ xs) short = absurd (omega arith)

no_pending : (o : Option MismatchCandidate) → pending o ≤ 0 → o ≡ none
no_pending none short = refl
no_pending (some c) short = absurd (omega arith)

IsOver-StaysQuiet : (s t : Running) → IsOver s t → StaysQuiet s t
IsOver-StaysQuiet s t o none_left idle =
    let few = ap length none_left in
    let nothing = no_length o.more (omega (arith, o.passed, ap cleared_count none_left)) in
    (
      o.handed ∙ ap (λ more. more ++ s.handed) nothing,
      no_length t.probes (omega (arith, o.probes, few, ap pending idle)),
      no_pending t.offered (omega (arith, o.probes, few, ap pending idle)),
    )

-- Once the context of a confirming sink has ended, as by `Close`, it stays ended; what is handed on
-- after is no more than the probes that had passed their test of the context by then; probes are
-- begun only for an offer that had been found acceptable by then; and with neither a probe nor such
-- an offer left, as when `Close` has returned, nothing is handed on and no probe is begun.
pub Later-IsOver :
    (s t : Running) → (s.sink).cancelled ≡ true → Later s t → IsOver s t × StaysQuiet s t
Later-IsOver s t off l = let over = later-IsOver s t off l in (over, IsOver-StaysQuiet s t over)
