-- ===== src/Guardrails/PiiNer/OffPath.antt =====
-- app/guardrails/pii_ner.py: the check never rewrites a request.
use atlas_gateway.Guardrails.First.{first_of_pair}
use atlas_gateway.Guardrails.Pii.{reject, redact}
use atlas_gateway.Guardrails.Counts.{Counts}
use atlas_gateway.Guardrails.Chain.{Failure}
use atlas_gateway.Guardrails.Pii.Redacted.{no_counts_iff, scan_with_iff, LeavesUnmatched, IsClean}
use atlas_gateway.Chat.Ports.{GuardrailContext}
use atlas_gateway.Domain.Messages.{Message}
use atlas_gateway.Guardrails.PiiNer.{
  ner_placeholder, redact_text, analyze, detected, decide, ner_categories, check,
}
use mathlib.Core.Logic.Iff
use atlas_gateway.Common.{
  refl, err, if◌then◌else◌, arith, Bool, true, ◌∷◌, ok, [], Result, false, ◌≡◌, List, ℕ, String,
  All, ◌↔◌,
}

-- A rejection under a condition.
passes_iff :
    {X : Type 0} (ctx : GuardrailContext) (e : Failure X) (found : Bool)
    → (◌≡◌ {A = Result (Failure X) GuardrailContext} (if found then err e else ok ctx) (ok ctx))
      ↔ (found ≡ false)
passes_iff ctx e true = ground arith
passes_iff ctx e false = ((λ e. refl), λ e. refl)

module _ (subn : String → String → String → String × ℕ) where
  -- No extended pattern matches in any message.
  unfoldable pub NoEntities : List Message → Type 0
  unfolding ner_categories
  NoEntities messages =
      All (λ message. IsClean subn ner_placeholder ner_categories message.content) messages

  analyze_iff :
      LeavesUnmatched subn
      → (messages : List Message) → (detected (analyze subn messages) ≡ false) ↔ NoEntities messages
  unfolding detected analyze redact_text NoEntities
  analyze_iff quiet messages = Iff.trans (nothing_counted _) (
      scan_with_iff (redact_text subn) (λ text. IsClean subn ner_placeholder ner_categories text)
        (λ text. no_counts_iff subn quiet ner_placeholder ner_categories text) messages)
    where
      nothing_counted :
          (counts : Counts) → ((elim counts [ [] ↦ false | c ∷ cs ↦ true ]) ≡ false) ↔ (counts ≡ [])
      nothing_counted [] = ((λ e. refl), λ e. refl)
      nothing_counted (c ∷ cs) = ground arith

  -- With the extended patterns, the mode that redacts lets every request pass unchanged, whatever is
  -- found in it, and the mode that rejects does so exactly if no pattern matches in any message, if
  -- `subn` returns a text without a match as it is.
  pub check-NoEntities :
      {W X : Type 0} (show : ℕ → String) (ctx : GuardrailContext) (w : W)
      → LeavesUnmatched subn
      → (◌≡◌ {A = Result (Failure X) GuardrailContext × W}
          (check show (record { mode = redact; detector = analyze subn }) ctx w)
          (ok ctx, w))
        × (◌≡◌ {A = Result (Failure X) GuardrailContext × W}
              (check show (record { mode = reject; detector = analyze subn }) ctx w)
              (ok ctx, w)
            ↔ NoEntities ctx.messages)
  unfolding check decide
  check-NoEntities show ctx w quiet = (
    refl,
    Iff.trans (first_of_pair _ _ w) (
        Iff.trans (passes_iff ctx _ (detected (analyze subn ctx.messages)))
          (analyze_iff quiet ctx.messages)),
  )
