-- ===== src/Guardrails/ToolSanitize/Hidden.antt =====
-- app/guardrails/tool_sanitize.py: the characters that the first step drops.
use atlas_gateway.Common.{
  Bool, refl, sym, ◌∙◌, subst, if◌then◌else◌, ap, inr, inl, Bool-cases, true, ◌≡◌, String,
}
use atlas_gateway.Guardrails.ToolSanitize.{kept, strip_hidden_chars, Unicode}
use Prim.Native.Char.{Char}
use Prim.Native.String.{[] as no_chars, ◌∷◌ as ◌∷ₛ◌}

module _ (uni : Unicode) where
  -- Every character has the property.
  unfoldable pub AllChars : (Char → Type 0) → String → Type 0
  AllChars P no_chars = Unit
  AllChars P (ch ∷ₛ rest) = P ch × AllChars P rest

  -- What the step keeps: no character of it is a hidden one.
  abbrev pub Visible : String → Type 0
  Visible text = AllChars (λ ch. kept uni ch ≡ true) text

  strip-Visible : (text : String) → Visible (strip_hidden_chars uni text)
  unfolding strip_hidden_chars AllChars
  strip-Visible no_chars = tt
  strip-Visible (ch ∷ₛ rest) =
      let after : Bool → String =
        λ b. if b then ch ∷ₛ strip_hidden_chars uni rest else strip_hidden_chars uni rest in
      elim (Bool-cases (kept uni ch)) [
        | inl is_kept ↦ subst (λ b. Visible (after b)) (sym is_kept) (is_kept, strip-Visible rest)
        | inr hidden ↦ subst (λ b. Visible (after b)) (sym hidden) (strip-Visible rest)
      ]

  strip_of-Visible : (text : String) → Visible text → strip_hidden_chars uni text ≡ text
  unfolding strip_hidden_chars AllChars
  strip_of-Visible no_chars all = refl
  strip_of-Visible (ch ∷ₛ rest) (is_kept, all) =
      ap (λ b. if b then ch ∷ₛ strip_hidden_chars uni rest else strip_hidden_chars uni rest) is_kept
      ∙ ap (λ t. ch ∷ₛ t) (strip_of-Visible rest all)

  -- The first step leaves no hidden character, changes nothing in a text that has none, and so
  -- changes nothing when it is done again.
  pub strip_hidden_chars-Visible :
      (text : String)
      → Visible (strip_hidden_chars uni text)
        × (Visible text → strip_hidden_chars uni text ≡ text)
        × (strip_hidden_chars uni (strip_hidden_chars uni text) ≡ strip_hidden_chars uni text)
  strip_hidden_chars-Visible text = (
    strip-Visible text,
    strip_of-Visible text,
    strip_of-Visible (strip_hidden_chars uni text) (strip-Visible text),
  )
