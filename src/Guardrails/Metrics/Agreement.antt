-- ===== src/Guardrails/Metrics/Agreement.antt =====
-- app/guardrails/metrics.py and app/guardrails/chain.py: the metered run and the plain one agree.
use atlas_gateway.Guardrails.Metrics.{
  Metered, GuardrailMetrics, run, after_check, record_pass, record_block,
}
use atlas_gateway.Common.{
  Bool-cases, inl, inr, refl, subst, Result, ok, err, arith, String, =ₛ_iff, [], ◌=ₛ◌,
  if◌then◌else◌, ◌∷◌, ◌+◌, ◌≡◌, ℕ, List,
}
use atlas_gateway.Guardrails.Counts.{
  count_of-add_to_other, count_of-add_to_same, add_to, count_of, Counts,
}
use atlas_gateway.Chat.Ports.{GuardrailContext}
use atlas_gateway.Guardrails.Chain as Chain
use atlas_gateway.Guardrails.Chain.{Guardrail, Failure, rejection, other, pass, block, Point, Reply}

-- The points of a check that passed, and of one that blocked.
abbrev pub passes_in : String → List Point → ℕ
passes_in name [] = 0
passes_in name (p ∷ ps) =
    (elim p.guardrail_outcome [ pass ↦ if p.guardrail_name =ₛ name then 1 else 0 | block ↦ 0 ])
    + passes_in name ps

abbrev pub blocks_in : String → List Point → ℕ
blocks_in name [] = 0
blocks_in name (p ∷ ps) =
    (elim p.guardrail_outcome [ pass ↦ 0 | block ↦ if p.guardrail_name =ₛ name then 1 else 0 ])
    + blocks_in name ps

-- A metered outcome and the plain one: the same, and the counters grow by the points.
unfoldable pub Agrees : {W X : Type 0} → GuardrailMetrics → Metered W X → Reply W X → Type 0
unfolding count_of
Agrees m metered plain =
    (metered.0 ≡ plain.outcome)
    × (metered.1.0 ≡ plain.world)
    × ((name : String)
        → count_of metered.1.1.passes name ≡ count_of m.passes name + passes_in name plain.points)
    × ((name : String)
        → count_of metered.1.1.blocks name ≡ count_of m.blocks name + blocks_in name plain.points)

count_of-add_to :
    (key name : String) (d : Counts)
    → count_of (add_to key 1 d) name ≡ count_of d name + (if key =ₛ name then 1 else 0)
count_of-add_to key name d = elim (Bool-cases (key =ₛ name)) [
  | inl same ↦ rw same (
      subst (λ x. count_of (add_to key 1 d) x ≡ count_of d x + 1) ((=ₛ_iff key name).0 same)
        (count_of-add_to_same key 1 d))
  | inr differ ↦ rw (count_of-add_to_other key name 1 d differ, differ) (omega arith)
]

module _ {W X : Type 0} where
  after_check-Agrees :
      (name : String) (rest : GuardrailContext → W → GuardrailMetrics → Metered W X)
      (plain_rest : GuardrailContext → W → Reply W X) (r : Result (Failure X) GuardrailContext)
      (w : W) (m : GuardrailMetrics)
      → ((ctx : GuardrailContext) (m' : GuardrailMetrics)
          → Agrees m' (rest ctx w m') (plain_rest ctx w))
      → Agrees m (after_check name rest r w m) (Chain.after_check name plain_rest r w)
  unfolding after_check Chain.after_check Agrees record_pass record_block
  after_check-Agrees name rest plain_rest (ok ctx) w m k =
      let (same, state, passes, blocks) = k ctx (record_pass name m) in
      (
        same,
        state,
        (λ n. omega (arith, passes n, count_of-add_to name n m.passes)),
        λ n. omega (arith, blocks n),
      )
  after_check-Agrees name rest plain_rest (err (rejection g p why)) w m k =
      (refl, refl, (λ n. omega arith), λ n. omega (arith, count_of-add_to name n m.blocks))
  after_check-Agrees name rest plain_rest (err (other x)) w m k =
      (refl, refl, (λ n. omega arith), λ n. omega arith)

  -- The metered chain returns or raises what the plain one does, in the same state, and its two
  -- counters of a name grow by the passes and the blocks that the plain one counts for the name.
  pub run-Agrees :
      (gs : List (Guardrail W X)) (ctx : GuardrailContext) (w : W) (m : GuardrailMetrics)
      → Agrees m (run gs ctx w m) (Chain.run gs ctx w)
  unfolding run Chain.run Agrees
  run-Agrees [] ctx w m = (refl, refl, (λ n. omega arith), λ n. omega arith)
  run-Agrees (g ∷ gs) ctx w m =
      let (r, w') = g.check ctx w in
      after_check-Agrees g.name (run gs) (Chain.run gs) r w' m (λ c m'. run-Agrees gs c w' m')
