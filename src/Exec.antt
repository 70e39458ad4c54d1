-- ===== src/Exec.antt =====
-- The program's functions as actions on a state: what was written before an error stays written.
-- `out_of_fuel` stands for a run that has not ended within the fuel of a loop.
pub mod Laws
use caddy_storage_redis.Prelude.{Option, none, some}
use caddy_storage_redis.Go.Errors.{Error}

pub data Result {ℓ} (A : Type ℓ) : Type ℓ where
  ok : A → Result A
  err : Error → Result A
  out_of_fuel : Result A

abbrev pub Exec {ℓ} : Type ℓ → Type ℓ → Type ℓ
Exec S A = S → Result A × S

abbrev pub rewrap {ℓ} : {A : Type ℓ} → (Error → Error) → Result A → Result A
rewrap f (ok a) = ok a
rewrap f (err e) = err (f e)
rewrap f out_of_fuel = out_of_fuel

module _ {ℓ} {S A : Type ℓ} where
  unfoldable pub pure : A → Exec S A
  pure a s = (ok a, s)

  unfoldable pub raise : Error → Exec S A
  raise e s = (err e, s)

  unfoldable pub exhausted : Exec S A
  exhausted s = (out_of_fuel, s)

  unfoldable pub lift : Result A → Exec S A
  lift r s = (r, s)

  -- `if err != nil { return f(err) }`
  unfoldable pub annotate : (Error → Error) → Exec S A → Exec S A
  annotate f m s = let (r, s') = m s in (rewrap f r, s')

module _ {ℓ} {S A B : Type ℓ} where
  abbrev pub continue : Result A → (A → Exec S B) → Exec S B
  continue (ok a) f s = f a s
  continue (err e) f s = (err e, s)
  continue out_of_fuel f s = (out_of_fuel, s)

  infixl 10 ◌>>=◌ ◌>>◌
  -- opening this opens the actions above
  unfoldable pub ◌>>=◌ : Exec S A → (A → Exec S B) → Exec S B
  unfolding pure raise exhausted lift annotate
  ◌>>=◌ m f s = let (r, s') = m s in continue r f s'

  abbrev pub ◌>>◌ : Exec S A → Exec S B → Exec S B
  m >> n = m >>= λ _. n
