-- ===== src/Observer/Evidence.antt =====
-- What an observer reports was loaded: the two keys, and the fingerprints of their contents.
use mathlib.Core.Path.{subst}
use mathlib.Core.List.{append_assoc}
use caddy_storage_redis.Prelude.{
  ◌+◌, Bytes, List, [], ◌∷◌, ◌++◌, Bool, true, false, not, ◌&&◌, ◌||◌, Option, none, some, ◌≡◌, ◌≢◌,
  equal, equal_iff, is_empty, length, leb, arith, refl, sym, ap, ◌∙◌, All, Option-cases, Bool-cases,
  inl, inr, codes, ◌⊎◌,
}
use caddy_storage_redis.Go.Strings.{slash, split, trim_prefix}
use caddy_storage_redis.Go.Strings.Joined.{joined, IsSplit, split-IsSplit}
use caddy_storage_redis.Dict.{find, put, find-put}
use caddy_storage_redis.Health.{MismatchCandidate, valid_health_hostname, valid_health_issuer}
use caddy_storage_redis.Observer.{
  ObservedPair, CertificateObserver, new_certificate_observer, new_pair, Fingerprints, Kind, crt,
  key, see, complete, update_pair, count_read, read_of, kind_of, base_of, candidate_of, observe,
  observe_all,
}

abbrev pub ext_of : Kind → Bytes
ext_of crt = codes ".crt"
ext_of key = codes ".key"

-- The path of a file of the pair.
abbrev pub path_for : Bytes → Bytes → Kind → Bytes
path_for hostname issuer k = base_of hostname issuer ++ ext_of k

kind_of_lem :
    (hostname name : Bytes) (k : Kind)
    → kind_of hostname name ≡ some k
    → name ≡ hostname ++ ext_of k
unfolding kind_of
kind_of_lem hostname name k h =
    let ext = trim_prefix name hostname in
    elim (Bool-cases (equal name (hostname ++ ext))) [
      | inr other ↦ cc (rw (other, kind_of) at h)
      | inl same ↦
          let r = rw (same, kind_of) at h in
          let text : name ≡ hostname ++ ext = (equal_iff name _).0 same in
          elim (Bool-cases (equal ext (codes ".crt"))) [
            | inl cert ↦
                text
                ∙ ap (◌++◌ hostname) ((equal_iff ext _).0 cert)
                ∙ ap (λ z. hostname ++ ext_of z) (some_kind (rw (cert, kind_of) at r))
            | inr more ↦ elim (Bool-cases (equal ext (codes ".key"))) [
              | inl priv ↦
                  text
                  ∙ ap (◌++◌ hostname) ((equal_iff ext _).0 priv)
                  ∙ ap (λ z. hostname ++ ext_of z) (some_kind (rw (more, priv, kind_of) at r))
              | inr neither ↦ cc (rw (more, neither, kind_of) at r)
            ]
          ]
    ]
  where
    some_kind : {a b : Kind} → some a ≡ some b → a ≡ b
    some_kind e = ground arith

-- A key that is read is the path of its issuer, its host and its kind.
read_of_lem :
    (hostname : Bytes) (parts : List Bytes) (issuer : Bytes) (k : Kind)
    → read_of hostname parts ≡ some (issuer, k)
    → (joined parts ≡ path_for hostname issuer k) × (valid_health_issuer issuer ≡ true)
unfolding read_of joined
read_of_lem hostname [] issuer k h = cc
read_of_lem hostname (a ∷ []) issuer k h = cc
read_of_lem hostname (a ∷ b ∷ []) issuer k h = cc
read_of_lem hostname (a ∷ b ∷ c ∷ []) issuer k h = cc
read_of_lem hostname (root ∷ i ∷ host ∷ name ∷ []) issuer k h =
    elim (Bool-cases
      (equal root (codes "certificates") && valid_health_issuer i && equal host hostname)) [
        | inr other ↦ cc (rw (other, read_of) at h)
        | inl same ↦ elim (Option-cases (kind_of hostname name)) [
          | inl none_such ↦ cc (rw (same, none_such, read_of) at h)
          | inr (found, named) ↦
              let r = rw (same, named, read_of) at h in
              let issuer_is : i ≡ issuer = ground arith in
              let kind_is : found ≡ k = ground arith in
              let root_is : root ≡ codes "certificates" = (equal_iff _ _).0 (ground arith) in
              let host_is : host ≡ hostname = (equal_iff _ _).0 (ground arith) in
              let name_is = kind_of_lem hostname name k (named ∙ ap some kind_is) in
              (
                rw (root_is, host_is, name_is, issuer_is) (simp append_assoc),
                ap valid_health_issuer (sym issuer_is) ∙ ground arith,
              )
        ]
      ]
read_of_lem hostname (a ∷ b ∷ c ∷ d ∷ e ∷ more) issuer k h = cc

-- A load with these contents is in the history.
abbrev pub Loaded : List (Bytes × Bytes) → Bytes → Bytes → Type 0
Loaded [] k text = ⊥
Loaded ((j, t) ∷ loads) k text = ((j ≡ k) × (t ≡ text)) ⊎ Loaded loads k text

module _ (F : Fingerprints) (history : List (Bytes × Bytes)) (hostname : Bytes) where
  -- What the certificate of a pair goes back to, and its key.
  abbrev pub CertFrom : Bytes → Bytes → Bytes → Type 0
  CertFrom path leaf cert =
      (text : Bytes) × Loaded history path text × (F.of_certificate text hostname ≡ (leaf, cert))

  abbrev pub KeyFrom : Bytes → Bytes → Type 0
  KeyFrom path k = (text : Bytes) × Loaded history path text × (F.of_private_key text ≡ k)

  pub record IsBacked (issuer : Bytes) (p : ObservedPair) : Type 0 where
    pub cert : p.cert_seen ≡ true → CertFrom (path_for hostname issuer crt) p.leaf p.cert
    pub key : p.key_seen ≡ true → KeyFrom (path_for hostname issuer key) p.key

  -- A candidate goes back to two loads, whose fingerprints differ.
  pub record IsEvidence (c : MismatchCandidate) : Type 0 where
    pub host : c.hostname ≡ hostname
    pub issuer : valid_health_issuer c.issuer_key ≡ true
    pub cert_path : c.certificate_path ≡ path_for hostname c.issuer_key crt
    pub key_path : c.key_path ≡ path_for hostname c.issuer_key key
    pub cert : CertFrom c.certificate_path c.leaf_sha256 c.certificate_spki_sha256
    pub key : KeyFrom c.key_path c.key_spki_sha256
    pub cert_known : is_empty c.certificate_spki_sha256 ≡ false
    pub key_known : is_empty c.key_spki_sha256 ≡ false
    pub differ : c.certificate_spki_sha256 ≢ c.key_spki_sha256

  see-IsBacked :
      (issuer : Bytes) (k : Kind) (text : Bytes) (p q : ObservedPair)
      → Loaded history (path_for hostname issuer k) text
      → IsBacked issuer p
      → see F hostname k text p ≡ some q
      → IsBacked issuer q
  unfolding see
  see-IsBacked issuer crt text p q l v e = elim (Bool-cases (p.cert_seen)) [
    | inl seen ↦ cc (rw (seen, see) at e)
    | inr fresh ↦
        let (leaf, cert) = F.of_certificate text hostname in
        let same : record p { cert_seen = true; leaf = leaf; cert = cert } ≡ q =
          cc (rw (fresh, see) at e) in
        subst (IsBacked issuer) same (record { cert = λ _. (text, l, refl); key = v.key })
  ]
  see-IsBacked issuer key text p q l v e = elim (Bool-cases (p.key_seen)) [
    | inl seen ↦ cc (rw (seen, see) at e)
    | inr fresh ↦
        let same : record p { key_seen = true; key = F.of_private_key text } ≡ q =
          cc (rw (fresh, see) at e) in
        subst (IsBacked issuer) same (record { cert = v.cert; key = λ _. (text, l, refl) })
  ]

  complete-IsEvidence :
      (issuer : Bytes) (p : ObservedPair) (c : MismatchCandidate)
      → valid_health_issuer issuer ≡ true
      → IsBacked issuer p
      → (complete F hostname issuer p).1 ≡ some c
      → IsEvidence c
  unfolding complete
  complete-IsEvidence issuer p c good v e = elim (Bool-cases (not p.cert_seen || not p.key_seen)) [
    | inl partial ↦ cc (rw (partial, complete) at e)
    | inr both ↦
        let r = rw (both, complete) at e in
        elim (Bool-cases (is_empty p.cert || is_empty p.key || equal p.cert p.key)) [
          | inl alike ↦ cc (rw (alike, complete) at r)
          | inr apart ↦
              let same : candidate_of hostname issuer p ≡ c = cc (rw (apart, complete) at r) in
              subst IsEvidence same (record {
                host = refl;
                issuer = good;
                cert_path = refl;
                key_path = refl;
                cert = v.cert (ground arith);
                key = v.key (ground arith);
                cert_known = ground arith;
                key_known = ground arith;
                differ = λ alike. ground (arith, (equal_iff p.cert p.key).1 alike);
              })
        ]
  ]

  complete-IsBacked :
      (issuer : Bytes) (p : ObservedPair)
      → IsBacked issuer p
      → IsBacked issuer (complete F hostname issuer p).0
  unfolding complete
  complete-IsBacked issuer p v = elim (Bool-cases (not p.cert_seen || not p.key_seen)) [
    | inl partial ↦ rw (partial, complete) v
    | inr both ↦ rw (both, complete) (record { cert = v.cert; key = v.key })
  ]

  -- An update of a pair leaves it backed, and what it reports is evidence.
  update_pair-IsBacked :
      (issuer : Bytes) (k : Kind) (text : Bytes) (p : ObservedPair)
      → valid_health_issuer issuer ≡ true
      → Loaded history (path_for hostname issuer k) text
      → IsBacked issuer p
      → IsBacked issuer (update_pair F hostname issuer k text p).0
        × ((c : MismatchCandidate)
            → (update_pair F hostname issuer k text p).1 ≡ some c
            → IsEvidence c)
  unfolding update_pair
  update_pair-IsBacked issuer k text p good l v = elim (Bool-cases (p.done)) [
    | inl over ↦
        let kept : update_pair F hostname issuer k text p ≡ (p, none) = simp over in
        rw kept (v, λ c e. cc)
    | inr going ↦ elim (Option-cases (see F hostname k text p)) [
      | inl again ↦
          let kept : update_pair F hostname issuer k text p ≡ (p, none) = simp (going, again) in
          rw kept (v, λ c e. cc)
      | inr (q, fresh) ↦
          let w = see-IsBacked issuer k text p q l v fresh in
          let done : update_pair F hostname issuer k text p ≡ complete F hostname issuer q =
            simp (going, fresh) in
          rw done (complete-IsBacked issuer q w, λ c e. complete-IsEvidence issuer q c good w e)
    ]
  ]

  -- The observer of this host, with every pair backed.
  pub record AllBacked (o : CertificateObserver) : Type 0 where
    pub host : o.hostname ≡ hostname
    pub backed :
        (issuer : Bytes) (p : ObservedPair) → find issuer o.pairs ≡ some p → IsBacked issuer p

  abbrev Reports : Option MismatchCandidate → Type 0
  Reports found = (c : MismatchCandidate) → found ≡ some c → IsEvidence c

  put-AllBacked :
      (o : CertificateObserver) (issuer : Bytes) (k : Kind) (text : Bytes) (p : ObservedPair)
      → valid_health_issuer issuer ≡ true
      → Loaded history (path_for hostname issuer k) text
      → AllBacked o
      → IsBacked issuer p
      → let (q, found) = update_pair F o.hostname issuer k text p in
        AllBacked (record o { reads = o.reads + 1; pairs = put issuer q o.pairs }) × Reports found
  put-AllBacked o issuer k text p good l v w =
      let (kept, reports) = update_pair-IsBacked issuer k text p good l w in
      let q = (update_pair F hostname issuer k text p).0 in
      rw (v.host) (
        record {
          host = refl;
          backed = λ i r e. elim (Bool-cases (equal issuer i)) [
            | inl same ↦
                let put_back : find i (put issuer q o.pairs) ≡ some q =
                  find-put issuer i q o.pairs ∙ rw same refl in
                let is_q : q ≡ r = cc (put_back, e) in
                subst (λ j. IsBacked j r) ((equal_iff issuer i).0 same)
                  (subst (IsBacked issuer) is_q kept)
            | inr other ↦ v.backed i r (sym (find-put issuer i q o.pairs ∙ rw other refl) ∙ e)
          ];
        },
        reports,
      )

  count_read-AllBacked :
      (o : CertificateObserver) (issuer : Bytes) (k : Kind) (text : Bytes)
      → valid_health_issuer issuer ≡ true
      → Loaded history (path_for hostname issuer k) text
      → AllBacked o
      → AllBacked (count_read F o issuer k text).0 × Reports (count_read F o issuer k text).1
  unfolding count_read
  count_read-AllBacked o issuer k text good l v = elim (Bool-cases (leb 16 o.reads)) [
    | inl full ↦ rw (full, count_read) (v, λ c e. cc)
    | inr room ↦
        let counted : AllBacked (record o { reads = o.reads + 1 }) = record {
          host = v.host;
          backed = v.backed;
        } in
        elim (Option-cases (find issuer o.pairs)) [
          | inr (p, there) ↦
              rw (room, there, count_read)
                (put-AllBacked o issuer k text p good l v (v.backed issuer p there))
          | inl missing ↦ elim (Bool-cases (leb 4 (length o.pairs))) [
            | inl full ↦ rw (room, missing, full, count_read) (counted, λ c e. cc)
            | inr space ↦
                rw (room, missing, space, count_read)
                  (put-AllBacked o issuer k text new_pair good l v
                    (record { cert = λ e. cc; key = λ e. cc }))
          ]
        ]
  ]

  observe-AllBacked :
      (o : CertificateObserver) (storage_key text : Bytes)
      → Loaded history storage_key text
      → AllBacked o
      → AllBacked (observe F o storage_key text).0 × Reports (observe F o storage_key text).1
  unfolding observe IsSplit
  observe-AllBacked o storage_key text l v =
      elim (Bool-cases (not o.has_sink || not (valid_health_hostname o.hostname))) [
        | inl off ↦ rw (off, observe) (v, λ c e. cc)
        | inr on ↦ elim (Option-cases (read_of o.hostname (split slash storage_key))) [
          | inl other ↦ rw (on, other, observe) (v, λ c e. cc)
          | inr ((issuer, k), read) ↦
              let (text_is, good) =
                read_of_lem o.hostname (split slash storage_key) issuer k read in
              let path_is : storage_key ≡ path_for hostname issuer k =
                sym (split-IsSplit storage_key).0
                ∙ text_is
                ∙ ap (λ h. path_for h issuer k) v.host in
              rw (on, read, observe)
                (count_read-AllBacked o issuer k text good
                  (subst (λ j. Loaded history j text) path_is l) v)
        ]
      ]

  -- The loads that are left are all in the history.
  abbrev AllLoaded : List (Bytes × Bytes) → Type 0
  AllLoaded = All (λ (e : Bytes × Bytes). Loaded history e.0 e.1)

  observe_all-AllBacked :
      (o : CertificateObserver) (loads : List (Bytes × Bytes))
      → AllLoaded loads
      → AllBacked o
      → All IsEvidence (observe_all F o loads).1
  unfolding observe_all
  observe_all-AllBacked o [] l v = tt
  observe_all-AllBacked o ((storage_key, text) ∷ loads) l v =
      let (after, found) = observe F o storage_key text in
      let (kept, reports) = observe-AllBacked o storage_key text l.0 v in
      onto-IsEvidence found (observe_all F after loads).1 reports
        (observe_all-AllBacked after loads l.1 kept)
    where
      onto-IsEvidence :
          (found : Option MismatchCandidate) (cs : List MismatchCandidate)
          → Reports found
          → All IsEvidence cs
          → All IsEvidence (elim found [ none ↦ cs | some c ↦ c ∷ cs ])
      onto-IsEvidence none cs r a = a
      onto-IsEvidence (some c) cs r a = (r c refl, a)

Loaded-grows :
    (y : Bytes × Bytes) (history loads : List (Bytes × Bytes))
    → All (λ (e : Bytes × Bytes). Loaded history e.0 e.1) loads
    → All (λ (e : Bytes × Bytes). Loaded (y ∷ history) e.0 e.1) loads
Loaded-grows y history [] a = tt
Loaded-grows y history (e ∷ loads) a = (inr (a.0), Loaded-grows y history loads a.1)

Loaded-self :
    (loads : List (Bytes × Bytes)) → All (λ (e : Bytes × Bytes). Loaded loads e.0 e.1) loads
Loaded-self [] = tt
Loaded-self (e ∷ loads) = (inl (refl, refl), Loaded-grows e loads loads (Loaded-self loads))

-- What the observer of a handshake reports of its loads: the host and an accepted issuer, the paths
-- of their certificate and key, both loaded in the handshake, with the fingerprints of what was
-- loaded under them, both known, and different.
pub observe_all-IsEvidence :
    (F : Fingerprints) (hostname : Bytes) (has_sink : Bool) (loads : List (Bytes × Bytes))
    → All
        (IsEvidence F loads hostname)
        (observe_all F (new_certificate_observer hostname has_sink) loads).1
unfolding find
observe_all-IsEvidence F hostname has_sink loads =
    observe_all-AllBacked F loads hostname (new_certificate_observer hostname has_sink) loads
      (Loaded-self loads) (record { host = refl; backed = λ issuer p e. cc })
