-- ===== src/Api/Deps/Wired.antt =====
-- app/api/deps.py: what the wired guardrails let through to a provider.
use atlas_gateway.Guardrails.Pii.{redact, pii, with_messages}
use atlas_gateway.Guardrails.Injection.Screen.{matched_label_iff, AllUnmatched}
use atlas_gateway.Guardrails.Pii.Redacted.{check-redacted, redacted, LeavesUnmatched}
use atlas_gateway.Guardrails.Size.{size, total_chars, SizeGuardrail}
use atlas_gateway.Chat.Ports.{GuardrailContext}
use atlas_gateway.Guardrails.Chain.{run_pre, other, rejection, Failure, Reply, Guardrail, run}
use atlas_gateway.Api.Deps.{
  injection, default_size, Environment, prod, stage, is_deployed, wired_chain, dev, Settings,
  Matchers, build_guardrails,
}
use atlas_gateway.Guardrails.Chain as Chain
use atlas_gateway.Guardrails.Size as Size
use atlas_gateway.Guardrails.Injection as Injection
use atlas_gateway.Common.{
  ap, sym, [], subst, map, true, refl, some, arith, ◌≤◌, none, err, ◌∷◌, ok, List, ◌≢◌, Result, ◌≡◌,
  Option, ℕ, Bool, String,
}

is_deployed_lem : (environment : Environment) → environment ≢ dev → is_deployed environment ≡ true
unfolding is_deployed
is_deployed_lem dev deployed = absurd (deployed refl)
is_deployed_lem stage deployed = refl
is_deployed_lem prod deployed = refl

size_cases :
    {W X : Type 0} (show : ℕ → String) (g : SizeGuardrail) (ctx ctx1 : GuardrailContext) (w : W)
    → (Size.check show {W = W} {X = X} g ctx w).0 ≡ ok ctx1
    → (ctx ≡ ctx1) × (total_chars ctx.messages ≤ g.max_chars)
unfolding Size.check
size_cases show g ctx ctx1 w e = ground arith

injection_cases :
    {X : Type 0} (search : String → String → Bool) (ctx ctx1 : GuardrailContext)
    (found : Option String)
    → Injection.decide search {X = X} ctx found ≡ ok ctx1
    → (ctx ≡ ctx1) × (found ≡ none)
unfolding Injection.decide
injection_cases search ctx ctx1 none e = ground arith
injection_cases search ctx ctx1 (some l) e = absurd (ground arith)

module _ {W X : Type 0} where
  -- The rest of a chain, after a check.
  after_check_cases :
      (name : String) (rest : GuardrailContext → W → Reply W X)
      (r : Result (Failure X) GuardrailContext) (w : W) (ctx : GuardrailContext)
      → (Chain.after_check name rest r w).outcome ≡ ok ctx
      → (ctx1 : GuardrailContext) × (r ≡ ok ctx1) × ((rest ctx1 w).outcome ≡ ok ctx)
  unfolding Chain.after_check
  after_check_cases name rest (ok ctx1) w ctx e = (ctx1, refl, e)
  after_check_cases name rest (err (rejection g p why)) w ctx e = absurd (ground arith)
  after_check_cases name rest (err (other x)) w ctx e = absurd (ground arith)

  run_cases :
      (g : Guardrail W X) (gs : List (Guardrail W X)) (ctx ctx' : GuardrailContext) (w : W)
      → (run (g ∷ gs) ctx w).outcome ≡ ok ctx'
      → (ctx1 : GuardrailContext) × ((g.check ctx w).0 ≡ ok ctx1)
        × ((run gs ctx1 (g.check ctx w).1).outcome ≡ ok ctx')
  unfolding run
  run_cases g gs ctx ctx' w e =
      after_check_cases g.name (run gs) (g.check ctx w).0 (g.check ctx w).1 ctx' e

  -- The checks that remain, in some state, after the first.
  Passes : List (Guardrail W X) → GuardrailContext → GuardrailContext → Type 0
  Passes gs ctx ctx' = (w : W) × ((run gs ctx w).outcome ≡ ok ctx')

  after_size :
      (show : ℕ → String) (g : SizeGuardrail) (gs : List (Guardrail W X))
      (ctx ctx' : GuardrailContext)
      → Passes (size show g ∷ gs) ctx ctx'
      → (total_chars ctx.messages ≤ g.max_chars) × Passes gs ctx ctx'
  unfolding Passes
  after_size show g gs ctx ctx' (w, e) =
      let (c, first, rest) = run_cases (size show g) gs ctx ctx' w e in
      let (same, small) = size_cases show g ctx c w first in
      (
        small,
        (
          (Size.check show {X = X} g ctx w).1,
          subst (λ c. (run gs c (Size.check show {X = X} g ctx w).1).outcome ≡ ok ctx') (sym same)
              rest,
        ),
      )

  after_injection :
      (search : String → String → Bool) (gs : List (Guardrail W X)) (ctx ctx' : GuardrailContext)
      → Passes (injection search ∷ gs) ctx ctx'
      → AllUnmatched search ctx.messages × Passes gs ctx ctx'
  unfolding Passes Injection.check
  after_injection search gs ctx ctx' (w, e) =
      let (c, first, rest) = run_cases (injection search) gs ctx ctx' w e in
      let (same, unmatched) =
        injection_cases search ctx c (Injection.matched_label search ctx.messages) first in
      (
        (matched_label_iff search ctx.messages).0 unmatched,
        (w, subst (λ c. (run gs c w).outcome ≡ ok ctx') (sym same) rest),
      )

after_pii :
    (W X : Type 0) (subn : String → String → String → String × ℕ) (show : ℕ → String)
    (ctx ctx' : GuardrailContext)
    → LeavesUnmatched subn
    → Passes {W = W} {X = X} (pii subn show redact ∷ []) ctx ctx'
    → ctx' ≡ with_messages ctx (map (redacted subn) ctx.messages)
unfolding Passes run
after_pii W X subn show ctx ctx' quiet (w, e) =
    let (c, first, rest) = run_cases {W = W} {X = X} (pii subn show redact) [] ctx ctx' w e in
    let known = ap (λ r. r.0) (check-redacted subn {X = X} show ctx w quiet) in cc

module _ {W X : Type 0} where
  -- Outside of development the guardrails are wired whatever their flag, and the texts that a
  -- request has after them are those of a request of at most 100,000 characters in which no pattern
  -- of injection matches, each replaced by what the four patterns of personal data make of it, and
  -- nothing else is changed, if `subn` returns a text without a match as it is.
  pub build_guardrails-redacted :
      (re : Matchers) (s : Settings) (ctx ctx' : GuardrailContext) (w : W)
      → s.environment ≢ dev
      → LeavesUnmatched re.subn
      → (build_guardrails {W = W} {X = X} re s ≡ some (wired_chain re))
        × ((run_pre (wired_chain {W = W} {X = X} re) ctx w).outcome ≡ ok ctx'
            → (total_chars ctx.messages ≤ 100000)
              × AllUnmatched re.injection_search ctx.messages
              × (ctx' ≡ with_messages ctx (map (redacted re.subn) ctx.messages)))
  unfolding build_guardrails run_pre wired_chain Passes
  build_guardrails-redacted re s ctx ctx' w deployed quiet = (
    ground (arith, is_deployed_lem s.environment deployed),
    λ passed.
        let (small, screened) =
          after_size {W = W} {X = X} re.show default_size
            (injection re.injection_search ∷ pii re.subn re.show redact ∷ []) ctx ctx'
            (w, passed) in
        let (unmatched, last) =
          after_injection {W = W} {X = X} re.injection_search (pii re.subn re.show redact ∷ []) ctx
            ctx' screened in
        (small, unmatched, after_pii W X re.subn re.show ctx ctx' quiet last),
  )
