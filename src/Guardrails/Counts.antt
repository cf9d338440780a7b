-- ===== src/Guardrails/Counts.antt =====
-- A dict from texts to numbers, as app/guardrails/ counts with: its keys in the order of insertion.
use atlas_gateway.Common.{
  =ₛ-refl, ap, [], if◌then◌else◌, false, arith, ◌∷◌, ◌=ₛ◌, ◌≡◌, ℕ, List, String, =ₛ_iff, ◌+◌,
}

abbrev pub Counts : Type 0
Counts = List (String × ℕ)

-- `d.get(key, 0)`.
unfoldable pub count_of : Counts → String → ℕ
count_of [] key = 0
count_of ((k, n) ∷ rest) key = if k =ₛ key then n else count_of rest key

-- `d[key] = d.get(key, 0) + n`.
unfoldable pub add_to : String → ℕ → Counts → Counts
add_to key n [] = (key, n) ∷ []
add_to key n ((k, m) ∷ rest) =
    let added = add_to key n rest in if k =ₛ key then (k, m + n) ∷ rest else (k, m) ∷ added

pub count_of-add_to_same :
    (key : String) (n : ℕ) (d : Counts) → count_of (add_to key n d) key ≡ count_of d key + n
unfolding count_of add_to
count_of-add_to_same key n [] = ground (arith, =ₛ-refl key)
count_of-add_to_same key n ((k, m) ∷ rest) = ground (arith, count_of-add_to_same key n rest)

pub count_of-add_to_other :
    (key other : String) (n : ℕ) (d : Counts)
    → (key =ₛ other) ≡ false
    → count_of (add_to key n d) other ≡ count_of d other
unfolding count_of add_to
count_of-add_to_other key other n [] h = ground arith
count_of-add_to_other key other n ((k, m) ∷ rest) h =
    ground (
      arith,
      =ₛ_iff k key,
      count_of-add_to_other key other n rest h,
      ap (λ (x : String). x =ₛ other),
    )
