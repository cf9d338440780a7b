-- ===== src/Guardrails/Citation/Grounded.antt =====
-- app/guardrails/citation.py: an answer that passes is grounded.
use atlas_gateway.Guardrails.Chain.{Failure}
use atlas_gateway.Domain.Messages.{ChatResult}
use atlas_gateway.Chat.Ports.{GuardrailContext}
use atlas_gateway.Guardrails.Citation.{
  check_cited, check_result, after_verify, split_sentences, citations, strip_citations,
  CitationCheck, after_sentence, CitationGuardrail, is_non_factual, check_sentences, check_sentence,
  CitationVerifier, check, supported, Patterns,
}
use atlas_gateway.Common.{
  ◌∙◌, if◌then◌else◌, sym, ap, none, refl, err, Option, inr, Result, inl, some, [], arith, All,
  Bool-cases, ok, ◌⊎◌, true, ◌∷◌, ◌≡◌, List, String,
}

-- The verifier has said, at some time, that the source supports the claim.
unfoldable pub Supports : {W X : Type 0} → CitationVerifier W X → String → String → Type 0
Supports {W = W} verify claim source_id =
    (w w' : W) × (result : CitationCheck) × (verify source_id claim w ≡ (ok result, w'))
    × (result.exists ≡ true)

-- One of the sources supports the claim.
unfoldable pub SomeSupports : {W X : Type 0} → CitationVerifier W X → String → List String → Type 0
unfolding Supports
SomeSupports verify claim [] = ⊥
SomeSupports verify claim (source_id ∷ rest) =
    Supports verify claim source_id ⊎ SomeSupports verify claim rest

module _ (re : Patterns) {W X : Type 0} where
  -- A sentence is boilerplate, or one of the sources that it cites supports it.
  unfoldable pub Grounded : CitationVerifier W X → String → Type 0
  unfolding SomeSupports
  Grounded verify sentence =
      (is_non_factual re sentence ≡ true)
      ⊎ SomeSupports verify (strip_citations re sentence) (citations re sentence)

  after_verify_cases :
      (rest : W → Result (Failure X) (Unit {0}) × W) (result : Result (Failure X) CitationCheck)
      (w w' : W)
      → after_verify re rest result w ≡ (ok tt, w')
      → ((c : CitationCheck) × (result ≡ ok c) × (c.exists ≡ true)) ⊎ (rest w ≡ (ok tt, w'))
  unfolding after_verify
  after_verify_cases rest (err x) w w' e = absurd (ground arith)
  after_verify_cases rest (ok c) w w' e = elim (Bool-cases c.exists) [
    | inl supports ↦ inl (c, refl, supports)
    | inr not_this ↦ inr (ap (λ b. if b then (ok tt, w) else rest w) (sym not_this) ∙ e)
  ]

  supported-SomeSupports :
      (verify : CitationVerifier W X) (claim : String) (ids : List String) (w w' : W)
      → supported re verify claim ids w ≡ (ok tt, w')
      → SomeSupports verify claim ids
  unfolding supported SomeSupports Supports
  supported-SomeSupports verify claim [] w w' e = absurd (ground arith)
  supported-SomeSupports verify claim (id ∷ ids) w w' e =
      let (result, w1) = verify id claim w in
      elim (after_verify_cases (supported re verify claim ids) result w1 w' e) [
        | inl (c, said, supports) ↦ inl (w, w1, c, ap (λ o. (o, w1)) said, supports)
        | inr later ↦ inr (supported-SomeSupports verify claim ids w1 w' later)
      ]

  check_cited-SomeSupports :
      (g : CitationGuardrail W X) (sentence : String) (ids : List String) (w w' : W)
      → g.require_citation ≡ true
      → check_cited re g sentence ids w ≡ (ok tt, w')
      → SomeSupports g.verifier (strip_citations re sentence) ids
  unfolding check_cited
  check_cited-SomeSupports g sentence [] w w' required e = absurd (ground arith)
  check_cited-SomeSupports g sentence (id ∷ ids) w w' required e =
      supported-SomeSupports g.verifier (strip_citations re sentence) (id ∷ ids) w w' e

  check_sentence-Grounded :
      (g : CitationGuardrail W X) (sentence : String) (w w' : W)
      → g.require_citation ≡ true
      → check_sentence re g sentence w ≡ (ok tt, w')
      → Grounded g.verifier sentence
  unfolding check_sentence Grounded
  check_sentence-Grounded g sentence w w' required e =
      elim (Bool-cases (is_non_factual re sentence)) [
        | inl exempt ↦ inl exempt
        | inr claim ↦ inr (
            check_cited-SomeSupports g sentence (citations re sentence) w w' required (
              ap
                (λ b. if b then (ok tt, w) else check_cited re g sentence (citations re sentence) w)
                (sym claim)
              ∙ e))
      ]

  after_sentence_cases :
      (rest : W → Result (Failure X) GuardrailContext × W) (passed : Result (Failure X) (Unit {0}))
      (ctx : GuardrailContext) (w w' : W)
      → after_sentence re rest passed w ≡ (ok ctx, w')
      → (passed ≡ ok tt) × (rest w ≡ (ok ctx, w'))
  unfolding after_sentence
  after_sentence_cases rest (err x) ctx w w' e = absurd (ground arith)
  after_sentence_cases rest (ok passed) ctx w w' e = (refl, e)

  check_sentences-Grounded :
      (g : CitationGuardrail W X) (ctx ctx' : GuardrailContext) (sentences : List String) (w w' : W)
      → g.require_citation ≡ true
      → check_sentences re g ctx sentences w ≡ (ok ctx', w')
      → (ctx' ≡ ctx) × All (Grounded g.verifier) sentences
  unfolding check_sentences
  check_sentences-Grounded g ctx ctx' [] w w' required e = (sym (ground arith), tt)
  check_sentences-Grounded g ctx ctx' (s ∷ ss) w w' required e =
      let (passed, w1) = check_sentence re g s w in
      let (this, later) = after_sentence_cases (check_sentences re g ctx ss) passed ctx' w1 w' e in
      let (same, rest) = check_sentences-Grounded g ctx ctx' ss w1 w' required later in
      (same, (check_sentence-Grounded g s w w1 required (ap (λ o. (o, w1)) this), rest))

  -- If a guardrail that requires citations passes, it passes a provider's result unchanged, and each
  -- sentence of the content is boilerplate or cites a source of which the verifier has said that it
  -- supports the sentence's claim.
  pub check-Grounded :
      (g : CitationGuardrail W X) (ctx ctx' : GuardrailContext) (w w' : W)
      → g.require_citation ≡ true
      → check re g ctx w ≡ (ok ctx', w')
      → (r : ChatResult) × (ctx.result ≡ some r)
        × (ctx' ≡ ctx)
        × All (Grounded g.verifier) (split_sentences re r.content)
  unfolding check check_result
  check-Grounded g ctx ctx' w w' required e = with_result ctx.result refl e
    where
      with_result :
          (found : Option ChatResult)
          → ctx.result ≡ found
          → check_result re g ctx found w ≡ (ok ctx', w')
          → (r : ChatResult) × (ctx.result ≡ some r)
            × (ctx' ≡ ctx)
            × All (Grounded g.verifier) (split_sentences re r.content)
      with_result none f h = absurd (ground arith)
      with_result (some r) f h =
          let (same, all) =
            check_sentences-Grounded g ctx ctx' (split_sentences re r.content) w w' required h in
          (r, f, same, all)
