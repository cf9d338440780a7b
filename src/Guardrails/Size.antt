-- ===== src/Guardrails/Size.antt =====
-- app/guardrails/size.py: the cap on the characters of a request.
pub mod Cap
use Prim.Native.String.{count}
use atlas_gateway.Common.{
  ℕ, ◌+◌, String, ◌++ₛ◌, Bool, List, [], ◌∷◌, ltb, ◌==◌, if◌then◌else◌, Result, ok, err,
}
use atlas_gateway.Domain.Messages.{Message}
use atlas_gateway.Chat.Ports.{GuardrailContext}
use atlas_gateway.Guardrails.Chain.{Guardrail, Failure, rejection, pre}

pub record SizeGuardrail : Type 0 where
  pub max_chars : ℕ

pub data Error : Type 0 where
  value_error : Error

-- `__init__`, where `<= 0` is 0.
unfoldable pub init : ℕ → Result Error SizeGuardrail
init max_chars = if max_chars == 0 then err value_error else ok (record { max_chars = max_chars })

unfoldable pub total_chars : List Message → ℕ
total_chars [] = 0
total_chars (m ∷ ms) = count m.content + total_chars ms

-- `show` is the decimal text of a number.
module _ (show : ℕ → String) where
  unfoldable pub check :
      {W X : Type 0}
      → SizeGuardrail
      → GuardrailContext
      → W
      → Result (Failure X) GuardrailContext × W
  check g ctx w =
      if ltb g.max_chars (total_chars ctx.messages)
      then (
        err (
            rejection "size" pre (
              "input too large: "
              ++ₛ (show (total_chars ctx.messages)
                  ++ₛ (" chars exceeds cap of " ++ₛ show g.max_chars)))),
        w,
      )
      else (ok ctx, w)

  -- The check as a member of a chain.
  abbrev pub size : {W X : Type 0} → SizeGuardrail → Guardrail W X
  size g = record { name = "size"; check = check g }
