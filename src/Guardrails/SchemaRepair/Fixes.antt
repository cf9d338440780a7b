-- ===== src/Guardrails/SchemaRepair/Fixes.antt =====
-- app/guardrails/schema_repair.py: a repair that succeeds within the cap.
use atlas_gateway.Guardrails.Chain.{Failure}
use atlas_gateway.Domain.Messages.{ChatResult}
use atlas_gateway.Chat.Ports.{GuardrailContext}
use atlas_gateway.Guardrails.SchemaRepair.{
  with_content, SchemaRepairGuardrail, check_errors, check_result, after_errors, RepairFn,
  after_repair, attempt, repair_loop, check,
}
use atlas_gateway.Domain.Json.{Members, Json}
use atlas_gateway.Guardrails.SchemaRepair.Validate.{parse_and_validate, JsonDecodeError}
use atlas_gateway.Common.{
  zero, Option, ◌∙◌, ap, ◌∷◌, suc, [], some, ok, ◌≡◌, List, ℕ, Result, String,
}
use atlas_gateway.Guardrails.SchemaRepair.Keywords.{Python}

module _ (py : Python) (loads : String → Result JsonDecodeError Json) {W X : Type 0}
    (schema : Members) (repair : RepairFn W X) where
  -- In at most so many calls the repair turns a text with errors into one without, each candidate
  -- given back with its own errors.
  pub data Fixes : ℕ → String → List String → W → String → W → Type 0 where
    now :
        {n : ℕ} {text : String} {errors : List String} {w : W} {text' : String} {w' : W}
        → repair text errors w ≡ (ok (some text'), w')
        → parse_and_validate py loads text' schema ≡ []
        → Fixes (suc n) text errors w text' w'
    later :
        {n : ℕ} {text : String} {errors : List String} {w : W} {text' : String} {w' : W}
        {e : String} {es : List String} {last : String} {w'' : W}
        → repair text errors w ≡ (ok (some text'), w')
        → parse_and_validate py loads text' schema ≡ e ∷ es
        → Fixes n text' (e ∷ es) w' last w''
        → Fixes (suc n) text errors w last w''

module _ (py : Python) (loads : String → Result JsonDecodeError Json) {W X : Type 0}
    (assertion : X) where
  -- The iteration of a repair that gives a candidate.
  attempt_lem :
      (g : SchemaRepairGuardrail W X) (ctx : GuardrailContext) (r : ChatResult) (used : ℕ)
      (text text' : String) (errors es : List String)
      (rest : String → List String → W → Result (Failure X) GuardrailContext × W)
      (repair : RepairFn W X) (w w' : W)
      → repair text errors w ≡ (ok (some text'), w')
      → parse_and_validate py loads text' g.schema ≡ es
      → attempt py loads assertion g ctx r used text errors rest (some repair) w
        ≡ after_errors py loads assertion ctx r text' (rest text') es w'
  unfolding attempt after_repair
  attempt_lem g ctx r used text text' errors es rest repair w w' e p =
      ap
        (λ (x : Result (Failure X) (Option String) × W).
          after_repair py loads assertion g ctx r (suc used) errors rest x.0 x.1)
        e
      ∙ ap (λ x. after_errors py loads assertion ctx r text' (rest text') x w') p

  repair_loop-Fixes :
      (g : SchemaRepairGuardrail W X) (ctx : GuardrailContext) (r : ChatResult) (left used : ℕ)
      (repair : RepairFn W X) (text : String) (errors : List String) (w : W) (text' : String)
      (w' : W)
      → g.repair ≡ some repair
      → Fixes py loads g.schema repair left text errors w text' w'
      → repair_loop py loads assertion g ctx r left used text errors w
        ≡ (ok (with_content ctx r text'), w')
  unfolding repair_loop after_errors
  repair_loop-Fixes g ctx r zero used repair text errors w text' w' f h = elim h [ ]
  repair_loop-Fixes g ctx r (suc left) used repair text errors w text' w' f (now e p) =
      ap
        (λ x.
          attempt py loads assertion g ctx r used text errors
            (repair_loop py loads assertion g ctx r left (suc used)) x w)
        f
      ∙ attempt_lem g ctx r used text text' errors []
          (repair_loop py loads assertion g ctx r left (suc used)) repair w w' e p
  repair_loop-Fixes g ctx r (suc left) used repair text errors w last w'' f
        (later {text' = text'} {w' = w'} {e = e1} {es = es} e p rest) =
      ap
        (λ x.
          attempt py loads assertion g ctx r used text errors
            (repair_loop py loads assertion g ctx r left (suc used)) x w)
        f
      ∙ attempt_lem g ctx r used text text' errors (e1 ∷ es)
          (repair_loop py loads assertion g ctx r left (suc used)) repair w w' e p
      ∙ repair_loop-Fixes g ctx r left (suc used) repair text' (e1 ∷ es) w' last w'' f rest

  -- If the provider's content has errors and the repair turns it into valid JSON in at most
  -- `max_attempts` calls, the check passes, with that JSON as the content and the state after
  -- the last of these calls.
  pub check-Fixes :
      (g : SchemaRepairGuardrail W X) (ctx : GuardrailContext) (r : ChatResult)
      (repair : RepairFn W X) (e : String) (es : List String) (w : W) (text' : String) (w' : W)
      → g.repair ≡ some repair
      → ctx.result ≡ some r
      → parse_and_validate py loads r.content g.schema ≡ e ∷ es
      → Fixes py loads g.schema repair g.max_attempts r.content (e ∷ es) w text' w'
      → check py loads assertion g ctx w ≡ (ok (with_content ctx r text'), w')
  unfolding check check_result check_errors
  check-Fixes g ctx r repair e es w text' w' has_repair found p fixes =
      ap (λ o. check_result py loads assertion g ctx o w) found
      ∙ ap (λ x. check_errors py loads assertion g ctx r x w) p
      ∙ repair_loop-Fixes g ctx r g.max_attempts 0 repair r.content (e ∷ es) w text' w' has_repair
          fixes
