-- ===== src/Probe.antt =====
-- certificate_probe.go: the probe of a host over the local listener, and the sink that confirms a
-- candidate by a probe before it hands it on; handshake_context.go: how an observer comes into a
-- handshake.
pub mod Sink
pub mod Safe
pub mod Over
use caddy_storage_redis.Prelude.{
  ℕ, ◌+◌, Bytes, List, [], ◌∷◌, Bool, true, false, not, ◌&&◌, ◌||◌, Option, none, some,
  if◌then◌else◌, equal, codes, length, leb, ltb,
}
use caddy_storage_redis.Go.Hex.{encode_to_string}
use caddy_storage_redis.Go.Strconv.{ℤ, pos, negsuc, atoi}
use caddy_storage_redis.Dict.{find, put, remove, is_some}
use caddy_storage_redis.Health.{MismatchCandidate, valid_health_hostname}
use caddy_storage_redis.Observer.{CertificateObserver, new_certificate_observer}
use caddy_storage_redis.Reporter.Deliver.{CertificateProbeResult, tls_valid, truncate}

-- `net.SplitHostPort`, `net.ParseIP` with `IsLoopback`, and SHA-256
pub record Net : Type 0 where
  pub split_host_port : Bytes → Option (Bytes × Bytes)
  pub is_loopback : Bytes → Bool
  pub sha256 : Bytes → Bytes

abbrev pub tls_alert : Bytes
tls_alert = codes "tls_alert"

abbrev pub certificate_invalid : Bytes
certificate_invalid = codes "certificate_invalid"

-- `LocalCertificateProbe`, less its pool of roots, which only the dialer uses
pub record LocalCertificateProbe : Type 0 where
  pub address : Bytes
  pub client_auth : Bool

-- A connection, with the first peer certificate if there are one and a verified chain, or an error:
-- whether it is one of verification, and the operation of the network error in it, if any.
pub data Dialled : Type 0 where
  connected : Option Bytes → Dialled
  refused : Bool → Option Bytes → Dialled

-- What `Check` is answered: whether the context has ended before, the dialer, the clock, and whether
-- the context has ended after.
pub record ProbeAnswers : Type 0 where
  pub ended : Bool
  pub dialled : Dialled
  pub now : ℕ
  pub ended_after : Bool

abbrev pub is_port : ℤ × Bool → Bool
is_port (pos n, ok) = ok && ltb 0 n && leb n 65535
is_port (negsuc n, ok) = false

module _ (N : Net) where
  -- `validProbeAddress`
  unfoldable pub valid_probe_address : Bytes → Bool
  unfolding atoi
  valid_probe_address address = elim (N.split_host_port address) [
    | none ↦ false
    | some (host, port) ↦ N.is_loopback host && is_port (atoi port)
  ]

  abbrev pub result_of : Bytes → ℕ → Bytes → CertificateProbeResult
  result_of result checked_at served = record {
    result = result;
    checked_at = checked_at;
    served_leaf_sha256 = served;
  }

  -- What the dialer's answer means.
  unfoldable pub classify : ℕ → Bool → Dialled → CertificateProbeResult
  unfolding encode_to_string equal
  classify checked ended (connected none) = result_of [] checked []
  classify checked ended (connected (some raw)) =
      result_of tls_valid checked (encode_to_string (N.sha256 raw))
  classify checked ended (refused verification op) =
      if ended
      then result_of [] checked []
      else if verification
      then result_of certificate_invalid checked []
      else elim op [
        | none ↦ result_of [] checked []
        | some name ↦
            result_of (if equal name (codes "remote error") then tls_alert else []) checked []
      ]

  -- `Check`
  unfoldable pub check : LocalCertificateProbe → ProbeAnswers → Bytes → CertificateProbeResult
  unfolding valid_probe_address classify valid_health_hostname
  check p r hostname =
      if p.client_auth
        || not (valid_health_hostname hostname)
        || r.ended
        || not (valid_probe_address p.address)
      then result_of [] 0 []
      else classify (truncate r.now) r.ended_after r.dialled

  -- `Confirm`
  unfoldable pub confirm : LocalCertificateProbe → ProbeAnswers → Bytes → Bool
  unfolding check equal
  confirm p r hostname =
      let result = (check p r hostname).result in
      equal result tls_alert || equal result certificate_invalid

-- `HandshakeContext`: the observer of a handshake, if its context is given one
unfoldable pub handshake_context : Bool → Bytes → Option CertificateObserver
unfolding valid_health_hostname
handshake_context has_sink server_name =
    if not has_sink || not (valid_health_hostname server_name)
    then none
    else some (new_certificate_observer server_name has_sink)
