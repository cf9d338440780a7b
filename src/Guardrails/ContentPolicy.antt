-- ===== src/Guardrails/ContentPolicy.antt =====
-- app/guardrails/content_policy.py: the policy on the provider's output.
pub mod Violation
use atlas_gateway.Domain.Messages.{ChatResult}
use atlas_gateway.Guardrails.Chain.{post, rejection, Failure, Guardrail}
use atlas_gateway.Chat.Ports.{GuardrailContext}
use atlas_gateway.Guardrails.First.{first_some}
use atlas_gateway.Common.{
  none, ok, some, [], err, ◌∷◌, if◌then◌else◌, Result, Bool, Option, String, List, ◌++ₛ◌,
}

-- `ContentRule`; `search` is `pattern.search` as a test.
pub record ContentRule : Type 0 where
  pub label : String
  pub search : String → Bool

-- `DEFAULT_CONTENT_POLICY`; `search` has a test for each label's pattern.
unfoldable pub default_content_policy : (String → String → Bool) → List ContentRule
default_content_policy search =
    record { label = "leaked-system-prompt"; search = search "leaked-system-prompt" }
    ∷ record { label = "leaked-credentials"; search = search "leaked-credentials" }
    ∷ record { label = "self-harm-instructions"; search = search "self-harm-instructions" }
    ∷ record { label = "weapon-instructions"; search = search "weapon-instructions" }
    ∷ []

pub record ContentPolicyGuardrail : Type 0 where
  pub policy : List ContentRule

pub data Error : Type 0 where
  value_error : Error

unfoldable pub init : List ContentRule → Result Error ContentPolicyGuardrail
init [] = err value_error
init (rule ∷ rules) = ok (record { policy = rule ∷ rules })

-- The body of the loop of `_first_match`.
unfoldable pub violated : String → ContentRule → Option String
violated content rule = if rule.search content then some rule.label else none

unfoldable pub first_match : ContentPolicyGuardrail → String → Option String
unfolding violated first_some
first_match g content = first_some (violated content) g.policy

-- `check` after the screen.
unfoldable pub decide :
    {X : Type 0} → GuardrailContext → Option String → Result (Failure X) GuardrailContext
decide ctx none = ok ctx
decide ctx (some label) =
    err (rejection "content_policy" post ("output content-policy violation: " ++ₛ label))

unfoldable pub check_result :
    {X : Type 0}
    → ContentPolicyGuardrail
    → GuardrailContext
    → Option ChatResult
    → Result (Failure X) GuardrailContext
unfolding decide first_match
check_result g ctx none =
    err (rejection "content_policy" post "no provider result to screen (post-phase guardrail)")
check_result g ctx (some r) = decide ctx (first_match g r.content)

unfoldable pub check :
    {W X : Type 0}
    → ContentPolicyGuardrail
    → GuardrailContext
    → W
    → Result (Failure X) GuardrailContext × W
unfolding check_result
check g ctx w = (check_result g ctx ctx.result, w)

-- The check as a member of a chain.
abbrev pub content_policy : {W X : Type 0} → ContentPolicyGuardrail → Guardrail W X
content_policy g = record { name = "content_policy"; check = check g }
