-- ===== src/Guardrails/Injection.antt =====
-- app/guardrails/injection.py: the patterns of prompt injection, and the rejection at the first match.
pub mod Screen
use atlas_gateway.Domain.Messages.{Message}
use atlas_gateway.Guardrails.Chain.{pre, rejection, Failure, Guardrail}
use atlas_gateway.Guardrails.First.{first_some}
use atlas_gateway.Chat.Ports.{GuardrailContext}
use atlas_gateway.Common.{
  err, none, ok, some, Result, if◌then◌else◌, [], Option, ◌∷◌, Bool, List, String, ◌++ₛ◌,
}

-- The labels of `_PATTERNS`, in their order.
unfoldable pub labels : List String
labels =
    "ignore-previous-instructions" ∷ "disregard-instructions" ∷ "override-system-prompt"
    ∷ "reveal-system-prompt" ∷ "developer-mode" ∷ "dan-jailbreak" ∷ "fake-role-injection" ∷ []

-- `search label text`: whether `pattern.search` of the label's pattern finds a match.
module _ (search : String → String → Bool) where
  -- The body of the inner loop.
  unfoldable pub hit : String → String → Option String
  hit text label = if search label text then some label else none

  -- The inner loop.
  unfoldable pub hit_in : Message → Option String
  unfolding hit labels first_some
  hit_in message = first_some (hit message.content) labels

  unfoldable pub matched_label : List Message → Option String
  unfolding hit_in first_some
  matched_label messages = first_some hit_in messages

  -- `check` after the screen.
  unfoldable pub decide :
      {X : Type 0} → GuardrailContext → Option String → Result (Failure X) GuardrailContext
  decide ctx none = ok ctx
  decide ctx (some label) =
      err (rejection "injection" pre ("prompt-injection pattern matched: " ++ₛ label))

  unfoldable pub check :
      {W X : Type 0} → GuardrailContext → W → Result (Failure X) GuardrailContext × W
  unfolding decide matched_label
  check ctx w = (decide ctx (matched_label ctx.messages), w)

  -- The check as a member of a chain.
  abbrev pub injection : {W X : Type 0} → Guardrail W X
  injection = record { name = "injection"; check = check }
