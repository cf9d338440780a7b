-- ===== src/Guardrails/First.antt =====
-- The loops of app/guardrails/ that return at the first element with an answer.
use atlas_gateway.Common.{
  Any, sym, inr, inl, ◌∙◌, refl, Option-cases, arith, [], ap, ◌∷◌, some, ◌++◌, ◌≡◌, none, List,
  Option, All, ◌↔◌,
}

-- Equations of pairs with the same second part, and of terms that are equal.
pub first_of_pair : {A W : Type 0} (a b : A) (w : W) → (◌≡◌ {A = A × W} (a, w) (b, w)) ↔ (a ≡ b)
first_of_pair {A = A} {W = W} a b w =
    ((λ e. ap (λ (x : A × W). x.0) e), λ e. ap {B = A × W} (λ x. (x, w)) e)

pub ends_same : {A : Type 0} {a a' : A} → a ≡ a' → (b : A) → (a ≡ b) ↔ (a' ≡ b)
ends_same e b = ((λ p. sym e ∙ p), λ p. e ∙ p)

module _ {A B : Type 0} (f : A → Option B) where
  unfoldable pub first_some : List A → Option B
  first_some [] = none
  first_some (x ∷ xs) = elim (f x) [ some y ↦ some y | none ↦ first_some xs ]

  -- `y` is the answer of an element before which no element has one.
  unfoldable pub IsFirst : List A → B → Type 0
  IsFirst xs y =
      (before : List A) × (x : A) × (after : List A) × (xs ≡ before ++ (x ∷ after))
      × All (λ z. f z ≡ none) before
      × (f x ≡ some y)

  first_some-IsFirst : (xs : List A) (y : B) → first_some xs ≡ some y → IsFirst xs y
  unfolding first_some IsFirst
  first_some-IsFirst [] y e = absurd (ground arith)
  first_some-IsFirst (x ∷ xs) y e = elim (Option-cases (f x)) [
    | inl p ↦
        let (before, x', after, split, no_answer, answer) =
          first_some-IsFirst xs y (ground arith) in
        (x ∷ before, x', after, ap (λ l. x ∷ l) split, (p, no_answer), answer)
    | inr (y', p) ↦ ([], x, xs, refl, tt, ground arith)
  ]

  at_split :
      (before : List A) (x : A) (after : List A) (y : B)
      → All (λ z. f z ≡ none) before
      → f x ≡ some y
      → first_some (before ++ (x ∷ after)) ≡ some y
  unfolding first_some
  at_split [] x after y no_answer e = ground arith
  at_split (b ∷ before) x after y (p, no_answer) e =
      ground (arith, at_split before x after y no_answer e)

  pub first_some_iff : (xs : List A) (y : B) → (first_some xs ≡ some y) ↔ IsFirst xs y
  unfolding IsFirst
  first_some_iff xs y = (
    first_some-IsFirst xs y,
    λ (before, x, after, split, no_answer, answer).
        ap first_some split ∙ at_split before x after y no_answer answer,
  )

  pub first_none_iff : (xs : List A) → (first_some xs ≡ none) ↔ All (λ z. f z ≡ none) xs
  unfolding first_some
  first_none_iff [] = ((λ e. tt), λ a. refl)
  first_none_iff (x ∷ xs) = ground (arith, first_none_iff xs)

  -- An answer is that of some element.
  pub first_some-Any : (xs : List A) (y : B) → first_some xs ≡ some y → Any (λ x. f x ≡ some y) xs
  unfolding first_some
  first_some-Any [] y e = absurd (ground arith)
  first_some-Any (x ∷ xs) y e = elim (Option-cases (f x)) [
    | inl p ↦ inr (first_some-Any xs y (ground arith))
    | inr (y', p) ↦ inl (ground arith)
  ]

pub map-Any {ℓ} :
    {A : Type ℓ} {P Q : A → Type 0} (f : (x : A) → P x → Q x) (xs : List A) → Any P xs → Any Q xs
map-Any f [] never = absurd never
map-Any f (x ∷ xs) (inl p) = inl (f x p)
map-Any f (x ∷ xs) (inr p) = inr (map-Any f xs p)
