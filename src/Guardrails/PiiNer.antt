-- ===== src/Guardrails/PiiNer.antt =====
-- app/guardrails/pii_ner.py: the extended patterns, whose findings change nothing of the request.
pub mod OffPath
use atlas_gateway.Domain.Messages.{Message}
use atlas_gateway.Guardrails.Chain.{pre, rejection, Failure, Guardrail}
use atlas_gateway.Chat.Ports.{GuardrailContext}
use atlas_gateway.Guardrails.Counts.{Counts}
use atlas_gateway.Guardrails.Pii.{reject, redact, redact_with, scan_with, summary, PiiMode}
use atlas_gateway.Common.{
  err, if◌then◌else◌, ok, true, Result, false, ◌∷◌, [], List, Bool, String, ℕ, ◌++ₛ◌,
}

pub record NerFindings : Type 0 where
  pub counts : Counts
  pub redacted_messages : List Message

-- `bool(self.counts)`.
unfoldable pub detected : NerFindings → Bool
detected findings = elim findings.counts [ [] ↦ false | c ∷ cs ↦ true ]

-- `PiiNerDetector.analyze`.
abbrev pub PiiNerDetector : Type 0
PiiNerDetector = List Message → NerFindings

-- The categories of `_NER_PATTERNS`, in their order.
unfoldable pub ner_categories : List String
ner_categories = "PERSON" ∷ "ADDRESS" ∷ "IBAN" ∷ "IP_ADDRESS" ∷ []

unfoldable pub ner_placeholder : String → String
ner_placeholder category = "[PII:" ++ₛ (category ++ₛ "]")

-- `subn category placeholder text` is `pattern.subn` of the category's pattern. The loops are
-- those of app/guardrails/pii.py.
module _ (subn : String → String → String → String × ℕ) where
  unfoldable pub redact_text : String → String × Counts
  unfolding redact_with ner_categories ner_placeholder
  redact_text text = redact_with subn ner_placeholder ner_categories text []

  -- `ExtendedPatternNer.analyze`.
  unfoldable pub analyze : PiiNerDetector
  unfolding redact_text scan_with
  analyze messages =
      let (redacted, totals) = scan_with redact_text messages [] in
      record { counts = totals; redacted_messages = redacted }

pub record PiiNerGuardrail : Type 0 where
  pub mode : PiiMode
  pub detector : PiiNerDetector

-- `check` after the analysis; `show` is the decimal text of a number.
unfoldable pub decide :
    {X : Type 0}
    → (ℕ → String)
    → PiiMode
    → GuardrailContext
    → NerFindings
    → Result (Failure X) GuardrailContext
unfolding detected summary
decide show redact ctx findings = ok ctx
decide show reject ctx findings =
    if detected findings
    then err (rejection "pii_ner" pre ("NER PII detected: " ++ₛ summary show findings.counts))
    else ok ctx

unfoldable pub check :
    {W X : Type 0}
    → (ℕ → String)
    → PiiNerGuardrail
    → GuardrailContext
    → W
    → Result (Failure X) GuardrailContext × W
unfolding decide
check show g ctx w = (decide show g.mode ctx (g.detector ctx.messages), w)

-- The check as a member of a chain.
abbrev pub pii_ner : {W X : Type 0} → (ℕ → String) → PiiNerGuardrail → Guardrail W X
pii_ner show g = record { name = "pii_ner"; check = check show g }
