-- ===== src/Reconnect/Laws.antt =====
-- When an operation is retried, on which client, and what the retry leaves behind.
use caddy_storage_redis.Prelude.{
  Bytes, [], ◌∷◌, ◌++◌, true, false, ◌≡◌, refl, sym, ap, arith, codes, Bool-cases, inl, inr, ◌∙◌,
}
use caddy_storage_redis.Go.Strings.{has_substring, has_prefix}
use caddy_storage_redis.Go.Errors.{Error, errorf}
use caddy_storage_redis.Exec.{Result, ok, err, out_of_fuel, Exec}
use caddy_storage_redis.Platform.{Platform}
use caddy_storage_redis.Client.{Machine, RedisStorage, build_client, close}
use caddy_storage_redis.Reconnect.{
  is_client_closed_err, count_reconnect, retry_on, after_op, with_reconnect_on_closed,
}

has_prefix-append : (s t p : Bytes) → has_prefix s p ≡ true → has_prefix (s ++ t) p ≡ true
unfolding has_prefix
has_prefix-append s t [] h = refl
has_prefix-append [] t (p ∷ ps) h = cc
has_prefix-append (c ∷ s) t (p ∷ ps) h = ground (arith, has_prefix-append s t ps)

has_substring-append_left :
    (s t p : Bytes) → has_substring t p ≡ true → has_substring (s ++ t) p ≡ true
unfolding has_substring
has_substring-append_left [] t p h = h
has_substring-append_left (c ∷ s) t p h = ground (arith, has_substring-append_left s t p h)

has_substring-append_right :
    (s t p : Bytes) → has_substring s p ≡ true → has_substring (s ++ t) p ≡ true
unfolding has_substring
has_substring-append_right [] [] p h = h
has_substring-append_right [] (d ∷ t) p h = ground (arith, has_prefix-append [] (d ∷ t) p h)
has_substring-append_right (c ∷ s) t p h =
    ground (arith, has_substring-append_right s t p, has_prefix-append (c ∷ s) t p)

-- An error that is recognised as that of a closed client still is after it is wrapped with `%v`.
pub is_client_closed_err-errorf :
    (prefix : Bytes) (e : Error)
    → is_client_closed_err e ≡ true
    → is_client_closed_err (errorf prefix e) ≡ true
unfolding is_client_closed_err
is_client_closed_err-errorf prefix e h =
    let phrase = codes "client is closed" in
    has_substring-append_left prefix (codes ": " ++ e.text) phrase
      (has_substring-append_left (codes ": ") e.text phrase h)

module _ (P : Platform) {A : Type 0} (op : P.Client → Exec (Machine P) A)
    (rs : RedisStorage P) where
  -- What stands behind a success: the operation succeeded on the cached client, or it failed there
  -- because the client is closed and succeeded on a client that was built for it and then closed.
  pub data Attempts (s : Machine P) (a : A) (t : Machine P) : Type 0 where
    first : op rs.client s ≡ (ok a, t) → Attempts s a t
    second :
        (e : Error) (u : Machine P) (fresh : P.Client) (v z : Machine P)
        → op rs.client s ≡ (err e, u)
        → is_client_closed_err e ≡ true
        → build_client P rs.config u ≡ (ok fresh, v)
        → op fresh (count_reconnect P v) ≡ (ok a, z)
        → t ≡ close P fresh z
        → Attempts s a t

  retry_on-second :
      (s u : Machine P) (e : Error)
      → op rs.client s ≡ (err e, u)
      → is_client_closed_err e ≡ true
      → (b : Result P.Client × Machine P) → build_client P rs.config u ≡ b
      → {a : A} {t : Machine P} → retry_on P op e b ≡ (ok a, t)
      → Attempts s a t
  unfolding retry_on
  retry_on-second s u e failed closed (ok fresh, v) built h =
      let z = op fresh (count_reconnect P v) in
      second e u fresh v z.1 failed closed built (λ i. ((h i).0, z.1)) (sym (ap (λ p. p.1) h))
  retry_on-second s u e failed closed (err ferr, v) built h = cc
  retry_on-second s u e failed closed (out_of_fuel, v) built h = cc

  after_op-Attempts :
      (s : Machine P) (r : Result A × Machine P)
      → op rs.client s ≡ r
      → {a : A} {t : Machine P} → after_op P op rs r ≡ (ok a, t)
      → Attempts s a t
  unfolding after_op
  after_op-Attempts s (ok a, u) ran h = first (ran ∙ h)
  after_op-Attempts s (err e, u) ran h = elim (Bool-cases (is_client_closed_err e)) [
    | inl closed ↦ retry_on-second s u e ran closed _ refl (rw closed at h)
    | inr other ↦ cc (rw other at h)
  ]
  after_op-Attempts s (out_of_fuel, u) ran h = cc

  -- A success is that of the cached client, or that of one retry: the first attempt failed because
  -- the client is closed, and the second succeeded on a fresh client that was closed afterwards.
  pub with_reconnect_on_closed-Attempts :
      (s : Machine P) {a : A} {t : Machine P}
      → with_reconnect_on_closed P op rs s ≡ (ok a, t)
      → Attempts s a t
  unfolding with_reconnect_on_closed
  with_reconnect_on_closed-Attempts s h = after_op-Attempts s (op rs.client s) refl h

  pub with_reconnect_on_closed-ok :
      (s t : Machine P) (a : A)
      → op rs.client s ≡ (ok a, t)
      → with_reconnect_on_closed P op rs s ≡ (ok a, t)
  unfolding with_reconnect_on_closed after_op
  with_reconnect_on_closed-ok s t a ran = ap (after_op P op rs) ran

  -- An error that is not that of a closed client is returned, and nothing is retried.
  pub with_reconnect_on_closed-err :
      (s t : Machine P) (e : Error)
      → op rs.client s ≡ (err e, t)
      → is_client_closed_err e ≡ false
      → with_reconnect_on_closed P op rs s ≡ (err e, t)
  unfolding with_reconnect_on_closed after_op
  with_reconnect_on_closed-err s t e ran other = ap (after_op P op rs) ran ∙ rw other refl
