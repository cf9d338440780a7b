-- ===== src/Guardrails/InjectionClassifier/Escalation.antt =====
-- app/guardrails/injection_classifier.py behind app/guardrails/injection.py in a chain.
use atlas_gateway.Guardrails.Injection.Screen.{
  matched_label-IsMatched, matched_label_iff, AllUnmatched, IsMatched,
}
use atlas_gateway.Guardrails.Chain as Chain
use atlas_gateway.Guardrails.Injection as Injection
use atlas_gateway.Guardrails.Chain.{pre, run}
use atlas_gateway.Guardrails.Chain.{Failure, Guardrail, Reply, counted, pass, rejection, other}
use atlas_gateway.Guardrails.Injection.{matched_label}
use atlas_gateway.Chat.Ports.{GuardrailContext}
use atlas_gateway.Guardrails.InjectionClassifier.{
  value, check, is_ambiguous, init_default, injection_classifier, benign, ClassifierVerdict,
  ClassifierGatewayClient, after_verdict,
}
use atlas_gateway.Common.{
  inr, inl, Option-cases, ◌⊎◌, ◌++ₛ◌, Option, subst, sym, ap, ◌∙◌, String, some, none, refl, arith,
  [], ◌∷◌, err, ◌↔◌, ok, ◌≡◌, List, Result, Bool,
}

-- The chain after the screen by patterns, if it found a label.
flagged :
    {W X : Type 0} (search : String → String → Bool) (ctx : GuardrailContext) (w : W)
    (rest : GuardrailContext → W → Reply W X) (found : Option String) (label : String)
    → found ≡ some label
    → ((Chain.after_check "injection" rest (Injection.decide search ctx found) w).world ≡ w)
      × ((Chain.after_check "injection" rest (Injection.decide search ctx found) w).outcome
          ≡ err (rejection "injection" pre ("prompt-injection pattern matched: " ++ₛ label)))
unfolding Chain.after_check Injection.decide
flagged search ctx w rest none label e = absurd (ground arith)
flagged search ctx w rest (some l) label e = (
  refl,
  ap (λ t. err (rejection "injection" pre ("prompt-injection pattern matched: " ++ₛ t))) cc,
)

-- What becomes of a request by the model's verdict: it passes as it is, is rejected with the
-- verdict, or the exception of the call is raised.
unfoldable pub Follows :
    {X : Type 0}
    → GuardrailContext
    → Result (Failure X) ClassifierVerdict
    → Result (Failure X) GuardrailContext
    → Type 0
Follows ctx (ok benign) outcome = outcome ≡ ok ctx
Follows ctx (ok ClassifierVerdict.injection) outcome =
    outcome ≡ err (rejection "injection_classifier" pre "cheap-model classifier verdict: injection")
Follows ctx (err e) outcome = outcome ≡ err e

-- The end of the chain after the verdict.
judged :
    {W X : Type 0} (ctx : GuardrailContext) (w : W) (verdict : Result (Failure X) ClassifierVerdict)
    → let reply =
        Chain.after_check "injection_classifier" (Chain.run []) (after_verdict ctx verdict) w in
      (reply.world ≡ w)
      × ((reply.outcome ≡ ok ctx) ↔ (verdict ≡ ok benign))
      × Follows ctx verdict reply.outcome
unfolding Chain.after_check Chain.run after_verdict Follows value
judged ctx w (ok benign) = (refl, ((λ e. refl), λ e. refl), refl)
judged ctx w (ok ClassifierVerdict.injection) =
    (refl, ((λ e. absurd (ground arith)), λ e. absurd (ground arith)), refl)
judged ctx w (err (rejection g p why)) =
    (refl, ((λ e. absurd (ground arith)), λ e. absurd (ground arith)), refl)
judged ctx w (err (other x)) =
    (refl, ((λ e. absurd (ground arith)), λ e. absurd (ground arith)), refl)

module _ {W X : Type 0} (search : String → String → Bool)
    (client : ClassifierGatewayClient W X) where
  -- The screen by patterns, then the classifier with its defaults.
  abbrev pub both_screens : List (Guardrail W X)
  both_screens = Injection.injection search ∷ injection_classifier (init_default search client) ∷ []

  asked :
      (ctx : GuardrailContext) (w : W)
      → matched_label search ctx.messages ≡ none
      → check (init_default search client) ctx w ≡ (
        after_verdict ctx (client "fast" "guardrails" ctx.messages w).0,
        (client "fast" "guardrails" ctx.messages w).1,
      )
  unfolding check init_default is_ambiguous
  asked ctx w e = rw (e, is_ambiguous) refl

  let_through :
      (ctx : GuardrailContext) (w : W)
      → matched_label search ctx.messages ≡ none
      → run both_screens ctx w
        ≡ counted
            (record { guardrail_name = "injection"; guardrail_outcome = pass })
            (Chain.after_check "injection_classifier"
              (run [])
              (after_verdict ctx (client "fast" "guardrails" ctx.messages w).0)
              (client "fast" "guardrails" ctx.messages w).1)
  unfolding run Chain.after_check Injection.check Injection.decide
  let_through ctx w e =
      ap
        (λ o.
          Chain.after_check "injection"
            (run (injection_classifier (init_default search client) ∷ []))
            (Injection.decide search ctx o) w)
        e
      ∙ ap
          (λ x.
            counted (record { guardrail_name = "injection"; guardrail_outcome = pass })
              (Chain.after_check "injection_classifier" (run []) x.0 x.1))
          (asked ctx w e)

  -- The screen by patterns, then the classifier. Either the pattern of a label matches in a message,
  -- and the request is rejected with such a label and the model is not asked, the state of the checks
  -- being what it was; or none matches in any message, and the request is put to the model once: it
  -- passes, unchanged, exactly if the verdict is benign, is rejected with the other verdict, and an
  -- exception of the model is raised.
  pub run-both_screens :
      (ctx : GuardrailContext) (w : W)
      → ((label : String) × IsMatched search ctx.messages label
          × ((run both_screens ctx w).world ≡ w)
          × ((run both_screens ctx w).outcome
              ≡ err (rejection "injection" pre ("prompt-injection pattern matched: " ++ₛ label))))
        ⊎ (AllUnmatched search ctx.messages
            × ((run both_screens ctx w).world ≡ (client "fast" "guardrails" ctx.messages w).1)
            × (((run both_screens ctx w).outcome ≡ ok ctx)
                ↔ ((client "fast" "guardrails" ctx.messages w).0 ≡ ok benign))
            × Follows ctx
                (client "fast" "guardrails" ctx.messages w).0
                (run both_screens ctx w).outcome)
  unfolding run Injection.check
  run-both_screens ctx w = elim (Option-cases (matched_label search ctx.messages)) [
    | inl e ↦
        let verdict = client "fast" "guardrails" ctx.messages w in
        let (state, passes, follows) =
          subst
            (λ reply.
              (reply.world ≡ verdict.1)
              × ((reply.outcome ≡ ok ctx) ↔ (verdict.0 ≡ ok benign))
              × Follows ctx verdict.0 reply.outcome)
            (sym (let_through ctx w e)) (judged ctx verdict.1 verdict.0) in
        inr ((matched_label_iff search ctx.messages).0 e, state, passes, follows)
    | inr (label, e) ↦
        let (state, rejects) =
          flagged search ctx w (run (injection_classifier (init_default search client) ∷ []))
            (matched_label search ctx.messages) label e in
        inl (label, matched_label-IsMatched search ctx.messages label e, state, rejects)
  ]
