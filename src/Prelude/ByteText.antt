-- ===== src/Prelude/ByteText.antt =====
-- Go's strings and byte slices as lists of bytes, with the list operations of the native numbers.
use Prim.Native.Nat.{ℕ, zero, suc, ◌+◌}
use Prim.Native.Char.{code}
use Prim.Native.String.{String}
use mathlib.Core.Path.{◌≡◌}
use mathlib.Core.Logic.{◌↔◌}
use mathlib.Core.Bool.{Bool, true, false, ◌&&◌, ◌||◌}
use mathlib.Core.List.{List, [], ◌∷◌, ◌++◌}
use native.Mathlib.Omega.{arith}
use caddy_storage_redis.Prelude.Tests.{◌==◌}

abbrev pub Bytes : Type 0
Bytes = List ℕ

-- The bytes of an ASCII literal.
abbrev pub codes : String → Bytes
codes String.[] = []
codes (String.◌∷◌ c s) = code c ∷ codes s

module _ {ℓ} {A : Type ℓ} where
  abbrev pub length : List A → ℕ
  length [] = 0
  length (x ∷ xs) = suc (length xs)

  abbrev pub take : ℕ → List A → List A
  take zero xs = []
  take (suc n) [] = []
  take (suc n) (x ∷ xs) = x ∷ take n xs

  abbrev pub drop : ℕ → List A → List A
  drop zero xs = xs
  drop (suc n) [] = []
  drop (suc n) (x ∷ xs) = drop n xs

  pub length-append : (xs ys : List A) → length (xs ++ ys) ≡ length xs + length ys
  length-append [] ys = omega arith
  length-append (x ∷ xs) ys = omega (arith, length-append xs ys)

-- `==` on strings.
unfoldable pub equal : Bytes → Bytes → Bool
equal [] [] = true
equal (x ∷ xs) (y ∷ ys) = x == y && equal xs ys
equal _ _ = false

-- The test decides equality.
pub equal_iff : (s t : Bytes) → (equal s t ≡ true) ↔ (s ≡ t)
unfolding equal
equal_iff (c ∷ s) (d ∷ t) = ground (arith, equal_iff s t)
equal_iff _ _ = ground arith

-- `slices.Contains` on strings.
unfoldable pub contains : List Bytes → Bytes → Bool
unfolding equal
contains [] a = false
contains (x ∷ xs) a = equal x a || contains xs a

-- `s == ""`
abbrev pub is_empty : Bytes → Bool
is_empty [] = true
is_empty (c ∷ s) = false

-- Every element of a list has a property.
abbrev pub All {ℓ κ} : {A : Type ℓ} → (A → Type κ) → List A → Type κ
All P [] = Unit
All P (x ∷ xs) = P x × All P xs

pub All-append {ℓ κ} :
    {A : Type ℓ} (P : A → Type κ) (xs ys : List A) → All P xs → All P ys → All P (xs ++ ys)
All-append P [] ys hx hy = hy
All-append P (x ∷ xs) ys hx hy = (hx.0, All-append P xs ys hx.1 hy)
