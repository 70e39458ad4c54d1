-- ===== src/Reporter/Work.antt =====
-- What holds of the work that a worker's `process` is given and leaves.
use caddy_storage_redis.Prelude.{
  ◌+◌, ◌≤◌, ◌<◌, [], true, false, Option, some, ◌≡◌, ◌⊎◌, equal, codes,
}
use caddy_storage_redis.Dict.{is_some}
use caddy_storage_redis.Health.{MismatchCandidate}
use caddy_storage_redis.Reporter.{
  CertificateAcceptance, CertificateEvent, CertificateWork, certificate_lifetime, is_acceptable,
}
use caddy_storage_redis.Reporter.Deliver.{tls_valid}
use caddy_storage_redis.Reporter.Process.{Processed, id_of, nonce_of}

-- An event that says the host is ill carries the evidence of the candidate.
pub record IsMismatch (c : MismatchCandidate) (e : CertificateEvent) : Type 0 where
  pub kind : e.kind ≡ codes "mismatch"
  pub result : equal e.tls_result tls_valid ≡ false
  pub leaf : e.leaf_sha256 ≡ c.leaf_sha256
  pub certificate : e.certificate_spki_sha256 ≡ c.certificate_spki_sha256
  pub key : e.key_spki_sha256 ≡ c.key_spki_sha256
  pub served : e.served_leaf_sha256 ≡ []

-- An event that says the host has recovered answers an acceptance.
pub record IsVerification (a : Option CertificateAcceptance) (e : CertificateEvent) : Type 0 where
  pub kind : e.kind ≡ codes "verification"
  pub result : equal e.tls_result tls_valid ≡ true
  pub accepted : is_some a ≡ true
  pub leaf : e.leaf_sha256 ≡ []
  pub certificate : e.certificate_spki_sha256 ≡ []
  pub key : e.key_spki_sha256 ≡ []

-- An event of a candidate, and of the acceptance that there was when it was made.
pub record IsEvent (c : MismatchCandidate) (a : Option CertificateAcceptance) (e : CertificateEvent)
    : Type 0 where
  pub hostname : e.hostname ≡ c.hostname
  pub issuer : e.issuer ≡ c.issuer_key
  pub report_id : e.report_id ≡ id_of a
  pub nonce : e.verification_nonce ≡ nonce_of a
  pub body : IsMismatch c e ⊎ IsVerification a e

-- Work as it stands in the queue.
pub record IsWork (w : CertificateWork) : Type 0 where
  pub acceptable : is_acceptable w.candidate ≡ true
  pub lifetime : w.expires ≤ w.birth + certificate_lifetime
  pub tries : w.attempts ≤ 3
  pub event :
      (e : CertificateEvent)
      → w.event ≡ some e
      → IsEvent w.candidate w.acceptance e × (w.attempts < 3)

-- What a run of `process` may do to work.
pub record Follows (w : CertificateWork) (p : Processed) : Type 0 where
  pub sound : p.keeps ≡ true → IsWork (p.work)
  pub candidate : (p.work).candidate ≡ w.candidate
  pub birth : (p.work).birth ≡ w.birth
  pub expires : (p.work).expires ≤ w.expires
  pub tries : (p.work).attempts ≤ 3
  pub acceptance :
      (a : CertificateAcceptance) → w.acceptance ≡ some a → (p.work).acceptance ≡ some a
