-- ===== src/Reporter/Ends.antt =====
-- The loop over the members of an acceptance ends within its fuel, so that a worker's `process`
-- ends.
use caddy_storage_redis.Prelude.{
  ℕ, zero, suc, ◌+◌, ◌<◌, Bytes, List, [], ◌∷◌, false, not, ◌||◌, ◌&&◌, ◌==◌, leb, is_empty, Option,
  none, some, ◌≡◌, ◌≢◌, sym, if◌then◌else◌, equal, equal_iff, codes, contains, arith, Bool-cases,
  Option-cases, inl, inr, ltb, length, take,
}
use caddy_storage_redis.Reporter.{
  CertificateAcceptance, CertificateEvent, CertificateWork, ReporterState,
}
use caddy_storage_redis.Reporter.Acceptance.{
  read_object, Formats, Token, delimiter, text, next_member, member, members, members_fuel,
  empty_acceptance, parse_certificate_acceptance,
}
use caddy_storage_redis.Dict.{is_some}
use caddy_storage_redis.Reporter.Identifier.{certificate_uuid}
use caddy_storage_redis.Reporter.Deliver.{
  truncate, tls_valid, Answers, Request, Response, no_response, response, deliver, receive,
  read_body,
}
use caddy_storage_redis.Reporter.Process.{process, probe_work, report, attempt, settle, new_event}

-- How many of the four keys have not been seen.
abbrev left : List Bytes → Bytes → ℕ
left seen key = if contains seen key then 0 else 1

abbrev unseen : List Bytes → ℕ
unseen seen =
    left seen (codes "report_id")
    + left seen (codes "verification_nonce")
    + left seen (codes "check_after_seconds")
    + left seen (codes "expires_at")

module _ (J : Formats) where
  member-is_known :
      (key : Bytes) (a : CertificateAcceptance) (d : J.Decoder) (seen : List Bytes)
      (r : CertificateAcceptance × J.Decoder)
      → member J key a d ≡ some r
      → contains seen key ≡ false
      → unseen (key ∷ seen) < unseen seen
  unfolding member contains
  member-is_known key a d seen r e fresh = ground (
    arith,
    equal_iff key (codes "report_id"),
    equal_iff key (codes "verification_nonce"),
    equal_iff key (codes "check_after_seconds"),
    equal_iff key (codes "expires_at"),
  )

  next_member-is_known :
      (seen : List Bytes) (a : CertificateAcceptance) (t : Token × J.Decoder) (key : Bytes)
      (b : CertificateAcceptance) (e : J.Decoder)
      → next_member J seen a t ≡ some (key, b, e)
      → unseen (key ∷ seen) < unseen seen
  unfolding next_member
  next_member-is_known seen a (text k, d) key b e h = elim (Bool-cases (contains seen k)) [
    | inl old ↦ cc (rw old at h)
    | inr new ↦ elim (Option-cases (member J k a d)) [
      | inl wrong ↦ cc (rw (new, wrong) at h)
      | inr (r, there) ↦
          let s = rw (new, there) at h in
          let same : k ≡ key = cc s in
          let less = member-is_known k a d seen r there new in rw (sym same) less
    ]
  ]
  next_member-is_known seen a (_, d) key b e h = cc h

  -- There is always fuel for one more key than are left.
  members-ends :
      (n : ℕ) (seen : List Bytes) (a : CertificateAcceptance) (d : J.Decoder)
      → unseen seen < n
      → members J n seen a d ≢ none
  unfolding members
  members-ends zero seen a d h e = omega (arith, h)
  members-ends (suc n) seen a d h e = elim (Bool-cases (J.more d)) [
    | inr over ↦ cc (rw over at e)
    | inl more ↦ elim (Option-cases (next_member J seen a (J.token d))) [
      | inl wrong ↦ cc (rw (more, wrong) at e)
      | inr ((key, b, rest), there) ↦
          let less = next_member-is_known seen a (J.token d) key b rest there in
          members-ends n (key ∷ seen) b rest (omega (arith, h, less)) (rw (more, there) at e)
    ]
  ]

  read_object-ends : (now : ℕ) (t : Token × J.Decoder) → read_object J now t ≢ none
  unfolding read_object
  read_object-ends now (delimiter c, d) e =
      let enough = members-ends members_fuel [] empty_acceptance d (ground arith) in
      elim (Bool-cases (c == b'{')) [
        | inr other ↦ cc (rw other at e)
        | inl opened ↦ elim (Option-cases (members J members_fuel [] empty_acceptance d)) [
          | inl out ↦ enough out
          | inr (r, there) ↦ cc (rw (opened, there) at e)
        ]
      ]
  read_object-ends now (_, d) e = cc e

  -- Whatever the text is, and whatever the decoder makes of it, parseCertificateAcceptance ends.
  pub parse_certificate_acceptance-ends :
      (payload : Bytes) (now : ℕ) → parse_certificate_acceptance J payload now ≢ none
  unfolding parse_certificate_acceptance
  parse_certificate_acceptance-ends payload now e =
      read_object-ends now (J.token (J.new_decoder payload)) e

  read_body-ends :
      (now : ℕ) (request : Option Request) (body : Option Bytes)
      → read_body J now request body ≢ none
  unfolding read_body
  read_body-ends now request none e = cc e
  read_body-ends now request (some body) e =
      elim (Bool-cases (ltb 8192 (length (take 8193 body)))) [
        | inl long ↦ cc (rw long at e)
        | inr short ↦ elim (Option-cases (parse_certificate_acceptance J (take 8193 body) now)) [
          | inl out ↦ parse_certificate_acceptance-ends (take 8193 body) now out
          | inr (r, there) ↦ cc (rw (short, there) at e)
        ]
      ]

  receive-ends :
      (now : ℕ) (request : Option Request) (r : Response) → receive J now request r ≢ none
  unfolding receive
  receive-ends now request no_response e = cc e
  receive-ends now request (response status body) e =
      ground (arith, read_body-ends now request body)

  deliver-ends :
      (s : ReporterState) (r : Answers) (event : CertificateEvent) → deliver J s r event ≢ none
  unfolding deliver
  deliver-ends s r event e = elim (Option-cases (r.encode event)) [
    | inl wrong ↦ cc (rw (wrong, deliver) at e)
    | inr (body, there) ↦
        elim (Bool-cases (ltb 8192 (length body) || not (r.new_request s.endpoint))) [
          | inl refused ↦ cc (rw (there, refused, deliver) at e)
          | inr sent ↦ receive-ends r.received_at _ r.response (rw (there, sent, deliver) at e)
        ]
  ]

  attempt-ends :
      (s : ReporterState) (r : Answers) (w : CertificateWork) (event : CertificateEvent)
      → attempt J s r w event ≢ none
  unfolding attempt settle
  attempt-ends s r w event e = elim (Option-cases (deliver J s r event)) [
    | inl out ↦ deliver-ends s r event out
    | inr (d, there) ↦ cc (rw (there, attempt, settle) at e)
  ]

  report-ends : (s : ReporterState) (r : Answers) (w : CertificateWork) → report J s r w ≢ none
  unfolding report
  report-ends s r w e =
      let observed = truncate (r.probe).checked_at in
      elim (Bool-cases (equal (r.probe).result tls_valid && not (is_some w.acceptance))) [
        | inl healthy ↦ cc (rw (healthy, report) at e)
        | inr ill ↦ elim (Bool-cases (leb observed w.last_observation)) [
          | inl early ↦ cc (rw (ill, early, report) at e)
          | inr later ↦ elim (Option-cases r.random) [
            | inl wrong ↦ cc (rw (ill, later, wrong, report) at e)
            | inr (bytes, there) ↦
                attempt-ends s r (record w { last_observation = observed; attempts = 0 })
                  (new_event J s w (r.probe) (certificate_uuid bytes))
                  (rw (ill, later, there, report) at e)
          ]
        ]
      ]

  probe_work-ends :
      (s : ReporterState) (r : Answers) (w : CertificateWork) → probe_work J s r w ≢ none
  unfolding probe_work
  probe_work-ends s r w e = elim (Bool-cases r.expired_after_probe) [
    | inl late ↦ cc (rw (late, probe_work) at e)
    | inr early ↦ elim (Bool-cases (is_empty (r.probe).result)) [
      | inl empty ↦ cc (rw (early, empty, probe_work) at e)
      | inr full ↦ report-ends s r w (rw (early, full, probe_work) at e)
    ]
  ]

  -- Whatever is answered to it, `process` ends: the parser of the acceptance has fuel enough.
  pub process-ends :
      (s : ReporterState) (r : Answers) (w : CertificateWork) → process J s r w ≢ none
  unfolding process
  process-ends s r w e = elim (Bool-cases r.expired) [
    | inl late ↦ cc (rw (late, process) at e)
    | inr early ↦ elim (Option-cases w.event) [
      | inl new ↦ probe_work-ends s r w (rw (early, new, process) at e)
      | inr (event, there) ↦ attempt-ends s r w event (rw (early, there, process) at e)
    ]
  ]
