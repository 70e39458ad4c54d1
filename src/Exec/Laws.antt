-- ===== src/Exec/Laws.antt =====
-- Successful runs taken apart.
use caddy_storage_redis.Prelude.{◌≡◌, refl, arith}
use caddy_storage_redis.Go.Errors.{Error}
use caddy_storage_redis.Exec.{Result, ok, err, out_of_fuel, Exec, continue, annotate, ◌>>=◌}

-- A run of `m` from `s` that succeeds with `a` and ends in `t`.
abbrev pub Runs {ℓ} : {S A : Type ℓ} → Exec S A → S → A → S → Type ℓ
Runs m s a t = m s ≡ (ok a, t)

module _ {ℓ} {S A B : Type ℓ} where
  continue-ok :
      (r : Result A) (f : A → Exec S B) (u : S) {b : B} {t : S}
      → continue r f u ≡ (ok b, t)
      → (a : A) × (r ≡ ok a) × (f a u ≡ (ok b, t))
  continue-ok (ok a) f u h = (a, refl, h)
  continue-ok (err e) f u h = cc
  continue-ok out_of_fuel f u h = cc

  pub >>=-ok :
      (m : Exec S A) (f : A → Exec S B) (s : S) {b : B} {t : S}
      → Runs (m >>= f) s b t
      → (a : A) × (u : S) × Runs m s a u × Runs (f a) u b t
  unfolding ◌>>=◌
  >>=-ok m f s h =
      let (a, e, k) = continue-ok (m s).0 f (m s).1 h in (a, (m s).1, (λ i. (e i, (m s).1)), k)

module _ {ℓ} {S A : Type ℓ} where
  pub annotate-ok :
      (g : Error → Error) (m : Exec S A) (s : S) {a : A} {t : S}
      → Runs (annotate g m) s a t
      → Runs m s a t
  unfolding annotate
  annotate-ok g m s h = ground arith
