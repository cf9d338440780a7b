-- ===== src/Common/Results.antt =====
-- What Python code raises, as a value: the outcome of code that returns an `A` or raises an `E`.
use mathlib.Core.Path.{◌≡◌, refl}

pub data Result {ℓ} (E A : Type ℓ) : Type ℓ where
  ok : A → Result E A
  err : E → Result E A

module _ {ℓ} {E A B : Type ℓ} where
  -- Go on with what was returned, unless the first part raised.
  infixl 5 ◌>>=◌
  abbrev pub ◌>>=◌ : Result E A → (A → Result E B) → Result E B
  first >>= next = elim first [ ok x ↦ next x | err raised ↦ err raised ]

  -- Both parts returned if the whole did.
  pub both_returned :
      (next : A → Result E B) {y : B} (first : Result E A)
      → (first >>= next) ≡ ok y
      → (x : A) × (first ≡ ok x) × (next x ≡ ok y)
  both_returned next (err raised) e = cc
  both_returned next (ok x) e = (x, refl, e)
