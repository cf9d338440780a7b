-- ===== src/Guardrails/SchemaRepair/Bounded.antt =====
-- app/guardrails/schema_repair.py: how often the loop asks for a repair.
use atlas_gateway.Guardrails.Chain.{Failure}
use atlas_gateway.Domain.Messages.{ChatResult}
use atlas_gateway.Chat.Ports.{GuardrailContext}
use atlas_gateway.Domain.Json.{Json}
use atlas_gateway.Guardrails.SchemaRepair.Validate.{parse_and_validate, JsonDecodeError}
use atlas_gateway.Common.{
  [], ok, err, none, zero, ◌∷◌, List, some, Option, ap, ◌∙◌, arith, ◌+◌, ◌≡◌, ◌≤◌, Result, suc,
  String, ℕ,
}
use atlas_gateway.Guardrails.SchemaRepair.{
  exhausted, check, attempt, repair_loop, after_repair, check_errors, check_result, after_errors,
  RepairFn, SchemaRepairGuardrail,
}
use atlas_gateway.Guardrails.SchemaRepair.Keywords.{Python}

-- The same repair, which also counts its calls.
abbrev pub counting : {W X : Type 0} → RepairFn W X → RepairFn (W × ℕ) X
counting repair candidate errors (w, n) =
    let (reply, w') = repair candidate errors w in (reply, (w', suc n))

abbrev pub counting_calls :
    {W X : Type 0} → SchemaRepairGuardrail W X → SchemaRepairGuardrail (W × ℕ) X
counting_calls g = record {
  schema = g.schema;
  repair = (elim g.repair [ none ↦ none | some repair ↦ some (counting repair) ]);
  max_attempts = g.max_attempts;
}

-- A run that counts, from `n`, and the run itself: the same but for at most `most` calls more.
unfoldable pub CountsAtMost : {W O : Type 0} → ℕ → ℕ → O × (W × ℕ) → O × W → Type 0
CountsAtMost most n counted plain = (k : ℕ) × (k ≤ most) × (counted ≡ (plain.0, (plain.1, k + n)))

no_more : {W O : Type 0} (most n : ℕ) (out : O) (w : W) → CountsAtMost most n (out, (w, n)) (out, w)
unfolding CountsAtMost
no_more most n out w = (0, omega arith, ap (λ m. (out, (w, m))) (omega arith))

module _ (py : Python) (loads : String → Result JsonDecodeError Json) {W X : Type 0}
    (assertion : X) where
  after_errors_counts :
      (ctx : GuardrailContext) (r : ChatResult) (text : String) (most n : ℕ)
      (rest' : List String → W × ℕ → Result (Failure X) GuardrailContext × (W × ℕ))
      (rest : List String → W → Result (Failure X) GuardrailContext × W) (errors : List String)
      (w : W)
      → ((es : List String) → CountsAtMost most n (rest' es (w, n)) (rest es w))
      → CountsAtMost most n
          (after_errors py loads assertion ctx r text rest' errors (w, n))
          (after_errors py loads assertion ctx r text rest errors w)
  unfolding after_errors CountsAtMost
  after_errors_counts ctx r text most n rest' rest [] w k = no_more _ n _ _
  after_errors_counts ctx r text most n rest' rest (e ∷ es) w k = k (e ∷ es)

  after_repair_counts :
      (g : SchemaRepairGuardrail W X) (ctx : GuardrailContext) (r : ChatResult) (used : ℕ)
      (errors : List String) (most n : ℕ)
      (rest' : String → List String → W × ℕ → Result (Failure X) GuardrailContext × (W × ℕ))
      (rest : String → List String → W → Result (Failure X) GuardrailContext × W)
      (reply : Result (Failure X) (Option String)) (w : W)
      → ((text : String) (es : List String)
          → CountsAtMost most n (rest' text es (w, n)) (rest text es w))
      → CountsAtMost most n
          (after_repair py loads assertion (counting_calls g) ctx r used errors rest' reply (w, n))
          (after_repair py loads assertion g ctx r used errors rest reply w)
  unfolding after_repair CountsAtMost exhausted
  after_repair_counts g ctx r used errors most n rest' rest (err e) w k = no_more _ n _ _
  after_repair_counts g ctx r used errors most n rest' rest (ok none) w k = no_more _ n _ _
  after_repair_counts g ctx r used errors most n rest' rest (ok (some text)) w k =
      after_errors_counts ctx r text most n (rest' text) (rest text)
        (parse_and_validate py loads text g.schema) w (k text)

  one_more :
      {O : Type 0} (most n : ℕ) (counted : O × (W × ℕ)) (plain : O × W)
      → CountsAtMost most (suc n) counted plain
      → CountsAtMost (suc most) n counted plain
  unfolding CountsAtMost
  one_more most n counted plain (k, le, e) =
      (suc k, omega (arith, le), e ∙ ap (λ m. (plain.0, (plain.1, m))) (omega arith))

  attempt_counts :
      (g : SchemaRepairGuardrail W X) (ctx : GuardrailContext) (r : ChatResult) (used : ℕ)
      (text : String) (errors : List String) (most n : ℕ)
      (rest' : String → List String → W × ℕ → Result (Failure X) GuardrailContext × (W × ℕ))
      (rest : String → List String → W → Result (Failure X) GuardrailContext × W)
      (repair : Option (RepairFn W X)) (w : W)
      → ((text : String) (es : List String) (w' : W)
          → CountsAtMost most (suc n) (rest' text es (w', suc n)) (rest text es w'))
      → CountsAtMost
          (suc most)
          n
          (attempt py loads assertion
            (counting_calls g)
            ctx
            r
            used
            text
            errors
            rest'
            (elim repair [ none ↦ none | some f ↦ some (counting f) ])
            (w, n))
          (attempt py loads assertion g ctx r used text errors rest repair w)
  unfolding attempt CountsAtMost
  attempt_counts g ctx r used text errors most n rest' rest none w k = no_more _ n _ _
  attempt_counts g ctx r used text errors most n rest' rest (some repair) w k =
      let (reply, w') = repair text errors w in
      one_more most n _ (after_repair py loads assertion g ctx r (suc used) errors rest reply w') (
        after_repair_counts g ctx r (suc used) errors most (suc n) rest' rest reply w'
          (λ t es. k t es w'))

  repair_loop_counts :
      (g : SchemaRepairGuardrail W X) (ctx : GuardrailContext) (r : ChatResult) (left used : ℕ)
      (text : String) (errors : List String) (w : W) (n : ℕ)
      → CountsAtMost left n
          (repair_loop py loads assertion (counting_calls g) ctx r left used text errors (w, n))
          (repair_loop py loads assertion g ctx r left used text errors w)
  unfolding repair_loop CountsAtMost exhausted
  repair_loop_counts g ctx r zero used text errors w n = no_more _ n _ _
  repair_loop_counts g ctx r (suc left) used text errors w n =
      attempt_counts g ctx r used text errors left n
        (repair_loop py loads assertion (counting_calls g) ctx r left (suc used))
        (repair_loop py loads assertion g ctx r left (suc used)) g.repair w
        (λ t es w'. repair_loop_counts g ctx r left (suc used) t es w' (suc n))

  check_errors_counts :
      (g : SchemaRepairGuardrail W X) (ctx : GuardrailContext) (r : ChatResult)
      (errors : List String) (w : W) (n : ℕ)
      → CountsAtMost g.max_attempts n
          (check_errors py loads assertion (counting_calls g) ctx r errors (w, n))
          (check_errors py loads assertion g ctx r errors w)
  unfolding check_errors CountsAtMost
  check_errors_counts g ctx r [] w n = no_more _ n _ _
  check_errors_counts g ctx r (e ∷ es) w n =
      repair_loop_counts g ctx r g.max_attempts 0 r.content (e ∷ es) w n

  check_result_counts :
      (g : SchemaRepairGuardrail W X) (ctx : GuardrailContext) (found : Option ChatResult) (w : W)
      (n : ℕ)
      → CountsAtMost g.max_attempts n
          (check_result py loads assertion (counting_calls g) ctx found (w, n))
          (check_result py loads assertion g ctx found w)
  unfolding check_result CountsAtMost
  check_result_counts g ctx none w n = no_more _ n _ _
  check_result_counts g ctx (some r) w n =
      check_errors_counts g ctx r (parse_and_validate py loads r.content g.schema) w n

  -- With a repair that also counts its calls, the check returns the same in the same state, and
  -- has called the repair at most `max_attempts` times, whatever the repair returned or raised.
  pub check-counting_calls :
      (g : SchemaRepairGuardrail W X) (ctx : GuardrailContext) (w : W) (n : ℕ)
      → (k : ℕ) × (k ≤ g.max_attempts)
        × (check py loads assertion (counting_calls g) ctx (w, n)
            ≡ ((check py loads assertion g ctx w).0, ((check py loads assertion g ctx w).1, k + n)))
  unfolding check CountsAtMost
  check-counting_calls g ctx w n = check_result_counts g ctx ctx.result w n
