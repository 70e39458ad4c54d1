-- ===== src/Observer.antt =====
-- certificate_observer.go, `Observe`: the loads of one handshake, paired by issuer.
pub mod Bounds
pub mod Evidence
pub mod Certificate
pub mod PrivateKey
use caddy_storage_redis.Prelude.{
  ℕ, ◌+◌, Bytes, List, [], ◌∷◌, ◌++◌, Bool, true, false, not, ◌&&◌, ◌||◌, Option, none, some,
  if◌then◌else◌, equal, is_empty, codes, length, ltb, leb,
}
use caddy_storage_redis.Go.Strings.{slash, split, trim_prefix}
use caddy_storage_redis.Dict.{find, put}
use caddy_storage_redis.Health.{MismatchCandidate, valid_health_hostname, valid_health_issuer}

-- `observedPair`
pub record ObservedPair : Type 0 where
  pub cert_seen : Bool
  pub key_seen : Bool
  pub done : Bool
  pub leaf : Bytes
  pub cert : Bytes
  pub key : Bytes

-- `certificateObserver`; a sink that is nil, or none
pub record CertificateObserver : Type 0 where
  pub hostname : Bytes
  pub has_sink : Bool
  pub pairs : List (Bytes × ObservedPair)
  pub reads : ℕ

-- `newCertificateObserver`
abbrev pub new_certificate_observer : Bytes → Bool → CertificateObserver
new_certificate_observer hostname has_sink = record {
  hostname = hostname;
  has_sink = has_sink;
  pairs = [];
  reads = 0;
}

abbrev pub new_pair : ObservedPair
new_pair = record {
  cert_seen = false;
  key_seen = false;
  done = false;
  leaf = [];
  cert = [];
  key = [];
}

-- `certificateFingerprints` and `privateKeyFingerprint`
pub record Fingerprints : Type 0 where
  pub of_certificate : Bytes → Bytes → Bytes × Bytes
  pub of_private_key : Bytes → Bytes

pub data Kind : Type 0 where
  crt key : Kind

-- The kind of a name in the directory of the host.
unfoldable pub kind_of : Bytes → Bytes → Option Kind
kind_of hostname name =
    let ext = trim_prefix name hostname in
    if not (equal name (hostname ++ ext))
    then none
    else if equal ext (codes ".crt")
    then some crt
    else if equal ext (codes ".key")
    then some key
    else none

-- The issuer and the kind that a storage key of the host names, if it is one.
unfoldable pub read_of : Bytes → List Bytes → Option (Bytes × Kind)
unfolding kind_of
read_of hostname (root ∷ issuer ∷ host ∷ name ∷ []) =
    if equal root (codes "certificates") && valid_health_issuer issuer && equal host hostname
    then (elim (kind_of hostname name) [ none ↦ none | some k ↦ some (issuer, k) ])
    else none
read_of hostname _ = none

-- The paths of the two files that were read.
abbrev pub base_of : Bytes → Bytes → Bytes
base_of hostname issuer =
    codes "certificates/" ++ (issuer ++ (slash ∷ (hostname ++ (slash ∷ hostname))))

abbrev pub candidate_of : Bytes → Bytes → ObservedPair → MismatchCandidate
candidate_of hostname issuer p = record {
  hostname = hostname;
  issuer_key = issuer;
  certificate_path = base_of hostname issuer ++ codes ".crt";
  key_path = base_of hostname issuer ++ codes ".key";
  leaf_sha256 = p.leaf;
  certificate_spki_sha256 = p.cert;
  key_spki_sha256 = p.key;
}

module _ (F : Fingerprints) where
  -- One file of a pair; `none` if it has been seen.
  unfoldable pub see : Bytes → Kind → Bytes → ObservedPair → Option ObservedPair
  see hostname crt plaintext p =
      if p.cert_seen
      then none
      else let (leaf, cert) = F.of_certificate plaintext hostname in
        some (record p { cert_seen = true; leaf = leaf; cert = cert })
  see hostname key plaintext p =
      if p.key_seen
      then none
      else some (record p { key_seen = true; key = F.of_private_key plaintext })

  -- What is done with a pair after a file has been seen.
  unfoldable pub complete : Bytes → Bytes → ObservedPair → ObservedPair × Option MismatchCandidate
  complete hostname issuer p = if not p.cert_seen || not p.key_seen then (p, none) else (
    record p { done = true },
    if is_empty p.cert || is_empty p.key || equal p.cert p.key
        then none
        else some (candidate_of hostname issuer p),
  )

  update_pair :
      Bytes → Bytes → Kind → Bytes → ObservedPair → ObservedPair × Option MismatchCandidate
  unfolding see complete
  update_pair hostname issuer k plaintext p =
      if p.done then (p, none) else elim (see hostname k plaintext p) [
        | none ↦ (p, none)
        | some q ↦ complete hostname issuer q
      ]

  -- The pair of the issuer, a new one while there are fewer than four.
  abbrev pub pair_for : CertificateObserver → Bytes → Option ObservedPair
  pair_for o issuer = elim (find issuer o.pairs) [
    | some p ↦ some p
    | none ↦ if leb 4 (length o.pairs) then none else some new_pair
  ]

  -- What follows once a key is one of the host's, under the lock.
  unfoldable pub count_read :
      CertificateObserver → Bytes → Kind → Bytes → CertificateObserver × Option MismatchCandidate
  unfolding update_pair find put
  count_read o issuer k plaintext =
      if leb 16 o.reads
      then (o, none)
      else let counted = record o { reads = o.reads + 1 } in
        elim (pair_for counted issuer) [
          | none ↦ (counted, none)
          | some p ↦
              let (q, found) = update_pair o.hostname issuer k plaintext p in
              (record counted { pairs = put issuer q o.pairs }, found)
        ]

  -- `Observe`, with the candidate that is handed to the sink
  unfoldable pub observe :
      CertificateObserver → Bytes → Bytes → CertificateObserver × Option MismatchCandidate
  unfolding read_of count_read split
  observe o storage_key plaintext =
      if not o.has_sink || not (valid_health_hostname o.hostname)
      then (o, none)
      else elim (read_of o.hostname (split slash storage_key)) [
        | none ↦ (o, none)
        | some (issuer, k) ↦ count_read o issuer k plaintext
      ]

  -- `observeCertificateLoad`, with the observer of the context, if there is one
  unfoldable pub observe_certificate_load :
      Option CertificateObserver
      → Bytes
      → Bytes
      → Option CertificateObserver × Option MismatchCandidate
  unfolding observe
  observe_certificate_load none storage_key value = (none, none)
  observe_certificate_load (some o) storage_key value =
      let (after, found) = observe o storage_key value in (some after, found)

  -- The loads of a handshake, in their order.
  unfoldable pub observe_all :
      CertificateObserver → List (Bytes × Bytes) → CertificateObserver × List MismatchCandidate
  unfolding observe
  observe_all o [] = (o, [])
  observe_all o ((storage_key, plaintext) ∷ loads) =
      let (after, found) = observe o storage_key plaintext in
      let (end, more) = observe_all after loads in
      (end, elim found [ none ↦ more | some c ↦ c ∷ more ])
