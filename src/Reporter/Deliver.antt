-- ===== src/Reporter/Deliver.antt =====
-- certificate_reporter.go: `deliver`, and what is answered to a worker: by the probe, the clock, the
-- random source and the server.
use caddy_storage_redis.Prelude.{
  ℕ, ◌-◌, ◌%◌, Bytes, Bool, true, false, not, ◌||◌, Option, none, some, if◌then◌else◌, codes,
  length, take, ltb, ◌==◌,
}
use caddy_storage_redis.Go.Strconv.{ℤ}
use caddy_storage_redis.Reporter.{second, CertificateAcceptance, CertificateEvent, ReporterState}
use caddy_storage_redis.Reporter.Acceptance.{Formats, parse_certificate_acceptance}
use caddy_storage_redis.Reporter.Loop.{Tally}

-- `Truncate(time.Second)`
abbrev pub truncate : ℕ → ℕ
truncate t = t - t % second

-- `CertificateProbeResult`; the result is the string of a `CertificateTLSResult`.
pub record CertificateProbeResult : Type 0 where
  pub result : Bytes
  pub checked_at : ℕ
  pub served_leaf_sha256 : Bytes

abbrev pub tls_valid : Bytes
tls_valid = codes "valid"

-- What a request comes to: an error, or a status and a body, which may fail to be read.
pub data Response : Type 0 where
  no_response : Response
  response : ℕ → Option Bytes → Response

-- What is asked of the server.
pub record Request : Type 0 where
  pub url : Bytes
  pub server_id : ℤ
  pub key : Bytes
  pub body : Bytes

-- What is answered in one run of `process`, in the order in which it is asked.
pub record Answers : Type 0 where
  pub expired : Bool
  pub probe : CertificateProbeResult
  pub expired_after_probe : Bool
  pub random : Option Bytes
  pub encode : CertificateEvent → Option Bytes
  pub new_request : Bytes → Bool
  pub response : Response
  pub received_at : ℕ
  pub jitter : Option ℕ
  pub now : ℕ

abbrev pub no_tally : Tally
no_tally = record { delivered = false; accepted = false; failures = 0 }

abbrev pub one_failure : Tally
one_failure = record { delivered = false; accepted = false; failures = 1 }

abbrev pub one_delivery : Tally
one_delivery = record { delivered = true; accepted = false; failures = 0 }

-- What `deliver` gives: the acceptance, whether to try again, the request that was sent, and what
-- was counted.
pub record Delivery : Type 0 where
  pub acceptance : Option CertificateAcceptance
  pub retry : Bool
  pub request : Option Request
  pub tally : Tally

abbrev pub undelivered : Bool → Option Request → Delivery
undelivered retry request = record {
  acceptance = none;
  retry = retry;
  request = request;
  tally = one_failure;
}

unfoldable pub delivered_with : Option Request → Option CertificateAcceptance → Delivery
delivered_with request none = undelivered false request
delivered_with request (some a) = record {
  acceptance = some a;
  retry = false;
  request = request;
  tally = one_delivery;
}

module _ (J : Formats) where
  -- The body of an answer with status 202, of which 8193 bytes are read.
  unfoldable pub read_body : ℕ → Option Request → Option Bytes → Option Delivery
  unfolding delivered_with
  read_body now request none = some (undelivered true request)
  read_body now request (some body) =
      let payload = take 8193 body in
      if ltb 8192 (length payload)
      then some (undelivered false request)
      else elim (parse_certificate_acceptance J payload now) [
        | none ↦ none
        | some r ↦ some (delivered_with request r)
      ]

  -- What follows a request.
  unfoldable pub receive : ℕ → Option Request → Response → Option Delivery
  unfolding read_body
  receive now request no_response = some (undelivered true request)
  receive now request (response status body) =
      if status == 204
      then some
          (record { acceptance = none; retry = false; request = request; tally = one_delivery })
      else if status == 202
      then read_body now request body
      else some (undelivered (status == 429 || status == 503) request)

  -- `deliver`
  unfoldable pub deliver : ReporterState → Answers → CertificateEvent → Option Delivery
  unfolding receive
  deliver s r event = elim (r.encode event) [
    | none ↦ some (undelivered false none)
    | some body ↦
        if ltb 8192 (length body) || not (r.new_request s.endpoint)
        then some (undelivered false none)
        else receive r.received_at
            (some (record { url = s.endpoint; server_id = s.cluster; key = s.token; body = body }))
            r.response
  ]
