-- ===== src/Guardrails/ContentPolicy/Violation.antt =====
-- app/guardrails/content_policy.py: the outputs that pass, and the rule that is named.
use mathlib.Core.Logic.Iff
use atlas_gateway.Guardrails.Chain.{Failure}
use atlas_gateway.Chat.Ports.{GuardrailContext}
use atlas_gateway.Common.{◌++ₛ◌, arith, some, Result, ◌≡◌}
use atlas_gateway.Guardrails.ContentPolicy.{decide}
use Prim.Native.String.{String}

reason_of :
    {X : Type 0} (ctx : GuardrailContext) (l label : String)
    → ◌≡◌ {A = Result (Failure X) GuardrailContext} (decide ctx (some l)) (decide ctx (some label))
    → ("output content-policy violation: " ++ₛ l) ≡ ("output content-policy violation: " ++ₛ label)
unfolding decide
reason_of ctx l label e = ground arith
