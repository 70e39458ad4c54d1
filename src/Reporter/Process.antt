-- ===== src/Reporter/Process.antt =====
-- certificate_reporter.go: `process`.
use caddy_storage_redis.Prelude.{
  ℕ, ◌+◌, ◌*◌, Bytes, [], Bool, true, false, not, ◌&&◌, Option, none, some, if◌then◌else◌, equal,
  is_empty, codes, ltb, leb,
}
use caddy_storage_redis.Dict.{is_some}
use caddy_storage_redis.Reporter.{
  CertificateAcceptance, CertificateEvent, CertificateWork, ReporterState, second,
}
use caddy_storage_redis.Reporter.Identifier.{certificate_uuid}
use caddy_storage_redis.Reporter.Acceptance.{Formats}
use caddy_storage_redis.Reporter.Loop.{Tally}
use caddy_storage_redis.Reporter.Deliver.{
  CertificateProbeResult, tls_valid, Request, Answers, Delivery, no_tally, truncate, one_failure,
  deliver,
}

-- What `process` gives: the work as it has become, whether to keep it, the request that was sent,
-- and what was counted. `none` is that the fuel of the parser has run out.
pub record Processed : Type 0 where
  pub work : CertificateWork
  pub keeps : Bool
  pub request : Option Request
  pub tally : Tally

abbrev pub stay : CertificateWork → Bool → Processed
stay w keeps = record { work = w; keeps = keeps; request = none; tally = no_tally }

abbrev pub same_acceptance : CertificateAcceptance → CertificateAcceptance → Bool
same_acceptance a b =
    equal a.report_id b.report_id
    && equal a.verification_nonce b.verification_nonce
    && equal a.expires_at b.expires_at

abbrev pub id_of : Option CertificateAcceptance → Bytes
id_of none = []
id_of (some a) = a.report_id

abbrev pub nonce_of : Option CertificateAcceptance → Bytes
nonce_of none = []
nonce_of (some a) = a.verification_nonce

-- After a delivery without an acceptance: another attempt, after one to two seconds and then
-- after two to four.
unfoldable pub try_again : Answers → CertificateWork → Delivery → Processed
try_again r w d =
    let end : Processed = record {
      work = w;
      keeps = false;
      request = d.request;
      tally = d.tally;
    } in
    if d.retry && ltb w.attempts 3
    then elim r.jitter [
      | none ↦ end
      | some j ↦
          let due = r.now + (1000 + j) * 1000000 * w.attempts in
          record end { work = record w { due = due }; keeps = ltb due w.expires }
    ]
    else end

-- `time.Parse` gives the zero time with an error.
abbrev pub or_zero : Option ℕ → ℕ
or_zero none = 0
or_zero (some t) = t

unfoldable pub contradicts : CertificateAcceptance → Option CertificateAcceptance → Bool
unfolding equal
contradicts a none = false
contradicts a (some b) = not (same_acceptance a b)

module _ (J : Formats) where
  -- The event of a result of the probe.
  unfoldable pub new_event :
      ReporterState → CertificateWork → CertificateProbeResult → Bytes → CertificateEvent
  unfolding equal
  new_event s w p id =
      let c = w.candidate in
      let checked = J.format_rfc3339 (truncate p.checked_at) in
      let valid = equal p.result tls_valid in
      record {
        version = 1;
        kind = if valid then codes "verification" else codes "mismatch";
        event_id = id;
        proxy_server_id = s.cluster;
        machine_id = s.machine;
        hostname = c.hostname;
        issuer = c.issuer_key;
        observed_at = if is_some w.acceptance then checked else J.format_rfc3339 (truncate w.birth);
        tls_checked_at = checked;
        tls_result = p.result;
        leaf_sha256 = if valid then [] else c.leaf_sha256;
        certificate_spki_sha256 = if valid then [] else c.certificate_spki_sha256;
        key_spki_sha256 = if valid then [] else c.key_spki_sha256;
        report_id = id_of w.acceptance;
        verification_nonce = nonce_of w.acceptance;
        served_leaf_sha256 = if valid then p.served_leaf_sha256 else [];
      }

  -- The first acceptance is kept, and may shorten the life of the work.
  unfoldable pub first_acceptance : CertificateAcceptance → CertificateWork → CertificateWork
  first_acceptance a w =
      let expires = or_zero (J.parse_rfc3339 a.expires_at) in
      record w {
        acceptance = some a;
        expires = if ltb expires w.expires then expires else w.expires;
      }

  unfoldable pub with_acceptance : CertificateAcceptance → CertificateWork → CertificateWork
  unfolding first_acceptance
  with_acceptance a w = if is_some w.acceptance then w else first_acceptance a w

  unfoldable pub accept : Answers → CertificateWork → Delivery → CertificateAcceptance → Processed
  unfolding contradicts with_acceptance
  accept r w d a =
      let t = d.tally in
      if contradicts a w.acceptance
      then record {
        work = w;
        keeps = false;
        request = d.request;
        tally = record t { failures = t.failures + 1 };
      }
      else record {
        work = record (with_acceptance a w) { event = none; due = r.now + 30 * second };
        keeps = true;
        request = d.request;
        tally = record t { accepted = true };
      }

  unfoldable pub settle : Answers → CertificateWork → Option Delivery → Option Processed
  unfolding try_again accept
  settle r w none = none
  settle r w (some d) =
      some (elim d.acceptance [ none ↦ try_again r w d | some a ↦ accept r w d a ])

  -- One attempt to deliver the event of the work.
  unfoldable pub attempt :
      ReporterState → Answers → CertificateWork → CertificateEvent → Option Processed
  unfolding deliver settle
  attempt s r w event =
      let tried = record w { event = some event; attempts = w.attempts + 1 } in
      settle r tried (deliver J s r event)

  -- What the probe has found, if it is conclusive.
  unfoldable pub report : ReporterState → Answers → CertificateWork → Option Processed
  unfolding attempt new_event equal
  report s r w =
      let p = r.probe in
      let observed = truncate p.checked_at in
      if equal p.result tls_valid && not (is_some w.acceptance)
      then some (stay w false)
      else if leb observed w.last_observation
      then some (stay (record w { due = r.now + second }) true)
      else elim r.random [
        | none ↦ some (record (stay w false) { tally = one_failure })
        | some bytes ↦
            attempt s r (record w { last_observation = observed; attempts = 0 })
              (new_event s w p (certificate_uuid bytes))
      ]

  -- The probe of the host, when no event is left to be delivered.
  unfoldable pub probe_work : ReporterState → Answers → CertificateWork → Option Processed
  unfolding report
  probe_work s r w =
      if r.expired_after_probe
      then some (stay w false)
      else if is_empty (r.probe).result
      then some (
          if is_some w.acceptance
          then stay (record w { due = r.now + 30 * second }) true
          else stay w false)
      else report s r w

  -- `process`
  unfoldable pub process : ReporterState → Answers → CertificateWork → Option Processed
  unfolding probe_work attempt
  process s r w =
      if r.expired
      then some (stay w false)
      else elim w.event [ none ↦ probe_work s r w | some event ↦ attempt s r w event ]
