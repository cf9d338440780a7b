-- ===== src/Guardrails/InjectionClassifier.antt =====
-- app/guardrails/injection_classifier.py: the cheap model's verdict on what the patterns let through.
pub mod Escalation
use atlas_gateway.Domain.Messages.{Message}
use atlas_gateway.Guardrails.Injection.{matched_label}
use atlas_gateway.Chat.Ports.{GuardrailContext}
use atlas_gateway.Guardrails.Chain.{pre, rejection, Failure, Guardrail}
use atlas_gateway.Common.{
  false, some, true, none, ok, if◌then◌else◌, err, Action, Bool, Result, List, String, ◌++ₛ◌,
}

pub data ClassifierVerdict : Type 0 where
  injection benign : ClassifierVerdict

-- `verdict.value`.
unfoldable pub value : ClassifierVerdict → String
value injection = "injection"
value benign = "benign"

-- `ClassifierGatewayClient`: a call with the model, the tenant and the messages.
abbrev pub ClassifierGatewayClient : Type 0 → Type 0 → Type 0
ClassifierGatewayClient W X =
    String → String → List Message → Action W (Failure X) ClassifierVerdict

-- `AmbiguityDetector`.
abbrev pub AmbiguityDetector : Type 0
AmbiguityDetector = List Message → Bool

pub record InjectionClassifierGuardrail (W X : Type 0) : Type 0 where
  pub client : ClassifierGatewayClient W X
  pub detector : AmbiguityDetector
  pub model : String
  pub tenant_id : String

-- `_HeuristicAmbiguityDetector`, with the patterns of app/guardrails/injection.py.
unfoldable pub is_ambiguous : (String → String → Bool) → AmbiguityDetector
unfolding matched_label
is_ambiguous search messages = elim (matched_label search messages) [
  | none ↦ true
  | some label ↦ false
]

-- `__init__` with the default detector, model and tenant.
unfoldable pub init_default :
    {W X : Type 0}
    → (String → String → Bool)
    → ClassifierGatewayClient W X
    → InjectionClassifierGuardrail W X
unfolding is_ambiguous
init_default search client = record {
  client = client;
  detector = is_ambiguous search;
  model = "fast";
  tenant_id = "guardrails";
}

-- After the classifier's answer.
unfoldable pub after_verdict :
    {X : Type 0}
    → GuardrailContext
    → Result (Failure X) ClassifierVerdict
    → Result (Failure X) GuardrailContext
unfolding value
after_verdict ctx (err e) = err e
after_verdict ctx (ok benign) = ok ctx
after_verdict ctx (ok verdict) =
    err
      (rejection "injection_classifier" pre ("cheap-model classifier verdict: " ++ₛ value verdict))

module _ {W X : Type 0} where
  unfoldable pub check :
      InjectionClassifierGuardrail W X
      → GuardrailContext
      → W
      → Result (Failure X) GuardrailContext × W
  unfolding after_verdict
  check g ctx w =
      if g.detector ctx.messages
      then (let (verdict, w') = g.client g.model g.tenant_id ctx.messages w in
          (after_verdict ctx verdict, w'))
      else (ok ctx, w)

  -- The check as a member of a chain.
  abbrev pub injection_classifier : InjectionClassifierGuardrail W X → Guardrail W X
  injection_classifier g = record { name = "injection_classifier"; check = check g }
