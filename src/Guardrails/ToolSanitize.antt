-- ===== src/Guardrails/ToolSanitize.antt =====
-- app/guardrails/tool_sanitize.py: a tool's output made safe to put into the context again.
pub mod Hidden
use Prim.Native.Char.{Char, code}
use Prim.Native.String.{[] as no_chars, ◌∷◌ as ◌∷ₛ◌}
use atlas_gateway.Common.{
  not, ◌||◌, ◌==◌, [], if◌then◌else◌, err, ok, ◌∷◌, Bool, String, List, Result, ◌++ₛ◌,
}

-- What the code takes of `unicodedata` and of `re`: whether the category of a character is Cf or Cc,
-- and the substitutions of the forged roles and of a label's pattern.
pub record Unicode : Type 0 where
  pub is_format_or_control : Char → Bool
  pub defang_roles : String → String
  pub bracket_trigger : String → String → String

-- `ch in _KEEP_CONTROL`: the tab, the newline and the carriage return.
unfoldable pub keep_control : Char → Bool
keep_control ch = (code ch == 9) || ((code ch == 10) || (code ch == 13))

-- The labels of `_INJECTION_RES`, in their order.
unfoldable pub labels : List String
labels = "ignore-previous-instructions" ∷ "override-system-prompt" ∷ "reveal-system-prompt" ∷ []

pub record SanitizedToolOutput : Type 0 where
  pub text : String
  pub fenced : Bool

-- `object` at the boundary: a text or another value.
pub data Output (X : Type 0) : Type 0 where
  text_output : String → Output X
  other_output : X → Output X

pub data Error (X : Type 0) : Type 0 where
  type_error : X → Error X

pub record ToolOutputSanitizer : Type 0 where
  pub fence : Bool

module _ (uni : Unicode) where
  -- Whether the loop of `_strip_hidden_chars` appends the character.
  unfoldable pub kept : Char → Bool
  unfolding keep_control
  kept ch = keep_control ch || not (uni.is_format_or_control ch)

  unfoldable pub strip_hidden_chars : String → String
  unfolding kept
  strip_hidden_chars no_chars = no_chars
  strip_hidden_chars (ch ∷ₛ rest) =
      let out = strip_hidden_chars rest in if kept ch then ch ∷ₛ out else out

  -- The loop of `_neutralize_injections`.
  unfoldable pub neutralize_with : List String → String → String
  neutralize_with [] text = text
  neutralize_with (label ∷ rest) text = neutralize_with rest (uni.bracket_trigger label text)

  unfoldable pub neutralize_injections : String → String
  unfolding neutralize_with labels
  neutralize_injections text = neutralize_with labels text

  unfoldable pub cleaned : String → String
  unfolding strip_hidden_chars neutralize_injections
  cleaned output = neutralize_injections (uni.defang_roles (strip_hidden_chars output))

  unfoldable pub fenced_text : Bool → String → String
  fenced_text fence text =
      if fence
      then "[BEGIN UNTRUSTED TOOL OUTPUT]\n" ++ₛ (text ++ₛ "\n[END UNTRUSTED TOOL OUTPUT]")
      else text

  unfoldable pub sanitize :
      {X : Type 0} → ToolOutputSanitizer → Output X → Result (Error X) SanitizedToolOutput
  unfolding cleaned fenced_text
  sanitize s (other_output x) = err (type_error x)
  sanitize s (text_output output) =
      ok (record { text = fenced_text s.fence (cleaned output); fenced = s.fence })

  unfoldable pub sanitize_tool_output : {X : Type 0} → Output X → Bool → Result (Error X) String
  unfolding sanitize
  sanitize_tool_output output fence = elim (sanitize (record { fence = fence }) output) [
    | ok sanitized ↦ ok sanitized.text
    | err e ↦ err e
  ]
