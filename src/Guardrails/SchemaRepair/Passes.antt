-- ===== src/Guardrails/SchemaRepair/Passes.antt =====
-- app/guardrails/schema_repair.py: what the check lets through.
use atlas_gateway.Guardrails.Chain.{Failure}
use atlas_gateway.Domain.Messages.{ChatResult}
use atlas_gateway.Chat.Ports.{GuardrailContext}
use atlas_gateway.Guardrails.SchemaRepair.Walk.{validate_iff}
use atlas_gateway.Guardrails.SchemaRepair.Validate.{
  parse_and_validate, JsonDecodeError, validate_parsed,
}
use atlas_gateway.Common.{
  subst, ap, arith, zero, none, some, refl, err, ◌∷◌, Option, ok, [], List, ◌≡◌, Result, suc, ℕ,
  String,
}
use atlas_gateway.Guardrails.SchemaRepair.Keywords.{Python}
use atlas_gateway.Guardrails.SchemaRepair.Conforms.{Conforms}
use atlas_gateway.Guardrails.SchemaRepair.{
  attempt, check, check_errors, after_errors, after_repair, check_result, repair_loop,
  SchemaRepairGuardrail, RepairFn, with_content,
}
use atlas_gateway.Domain.Json.{Members, Json}

-- A text that is JSON and conforms.
unfoldable pub Valid : Python → (String → Result JsonDecodeError Json) → Members → String → Type 0
unfolding Conforms
Valid py loads schema text = (value : Json) × (loads text ≡ ok value) × Conforms py value schema

module _ (py : Python) (loads : String → Result JsonDecodeError Json) where
  validate_parsed-valid :
      (schema : Members) (parsed : Result JsonDecodeError Json)
      → validate_parsed py schema parsed ≡ []
      → (value : Json) × (parsed ≡ ok value) × Conforms py value schema
  unfolding validate_parsed
  validate_parsed-valid schema (ok value) e = (value, refl, (validate_iff py value schema "$").0 e)
  validate_parsed-valid schema (err e) h = absurd (ground arith)

  parse_and_validate-Valid :
      (schema : Members) (text : String)
      → parse_and_validate py loads text schema ≡ []
      → Valid py loads schema text
  unfolding parse_and_validate Valid
  parse_and_validate-Valid schema text e = validate_parsed-valid schema (loads text) e

  module _ {W X : Type 0} (assertion : X) where
    -- The loop returned a context of which it changed at most the content, which is valid.
    unfoldable Passed :
        SchemaRepairGuardrail W X
        → GuardrailContext
        → ChatResult
        → Result (Failure X) GuardrailContext
        → Type 0
    unfolding Valid
    Passed g ctx r (ok ctx') =
        (text : String) × (ctx' ≡ with_content ctx r text) × Valid py loads g.schema text
    Passed g ctx r (err e) = Unit

    after_errors-Passed :
        (g : SchemaRepairGuardrail W X) (ctx : GuardrailContext) (r : ChatResult) (text : String)
        (rest : List String → W → Result (Failure X) GuardrailContext × W) (errors : List String)
        (w : W)
        → (errors ≡ [] → Valid py loads g.schema text)
        → ((es : List String) (w' : W) → Passed g ctx r (rest es w').0)
        → Passed g ctx r (after_errors py loads assertion ctx r text rest errors w).0
    unfolding after_errors Passed
    after_errors-Passed g ctx r text rest [] w v k = (text, refl, v refl)
    after_errors-Passed g ctx r text rest (e ∷ es) w v k = k (e ∷ es) w

    after_repair-Passed :
        (g : SchemaRepairGuardrail W X) (ctx : GuardrailContext) (r : ChatResult) (used : ℕ)
        (errors : List String)
        (rest : String → List String → W → Result (Failure X) GuardrailContext × W)
        (reply : Result (Failure X) (Option String)) (w : W)
        → ((text : String) (es : List String) (w' : W) → Passed g ctx r (rest text es w').0)
        → Passed g ctx r (after_repair py loads assertion g ctx r used errors rest reply w).0
    unfolding after_repair Passed
    after_repair-Passed g ctx r used errors rest (err e) w k = tt
    after_repair-Passed g ctx r used errors rest (ok none) w k = tt
    after_repair-Passed g ctx r used errors rest (ok (some text)) w k =
        after_errors-Passed g ctx r text (rest text) (parse_and_validate py loads text g.schema) w
          (parse_and_validate-Valid g.schema text) (k text)

    attempt-Passed :
        (g : SchemaRepairGuardrail W X) (ctx : GuardrailContext) (r : ChatResult) (used : ℕ)
        (candidate : String) (errors : List String)
        (rest : String → List String → W → Result (Failure X) GuardrailContext × W)
        (repair : Option (RepairFn W X)) (w : W)
        → ((text : String) (es : List String) (w' : W) → Passed g ctx r (rest text es w').0)
        → Passed g ctx r (attempt py loads assertion g ctx r used candidate errors rest repair w).0
    unfolding attempt Passed
    attempt-Passed g ctx r used candidate errors rest none w k = tt
    attempt-Passed g ctx r used candidate errors rest (some repair) w k =
        let (reply, w') = repair candidate errors w in
        after_repair-Passed g ctx r (suc used) errors rest reply w' k

    repair_loop-Passed :
        (g : SchemaRepairGuardrail W X) (ctx : GuardrailContext) (r : ChatResult) (left used : ℕ)
        (text : String) (errors : List String) (w : W)
        → Passed g ctx r (repair_loop py loads assertion g ctx r left used text errors w).0
    unfolding repair_loop Passed
    repair_loop-Passed g ctx r zero used text errors w = tt
    repair_loop-Passed g ctx r (suc left) used text errors w =
        attempt-Passed g ctx r used text errors
          (repair_loop py loads assertion g ctx r left (suc used)) g.repair w
          (repair_loop-Passed g ctx r left (suc used))

    check_errors-Passed :
        (g : SchemaRepairGuardrail W X) (ctx : GuardrailContext) (r : ChatResult)
        (errors : List String) (w : W)
        → ctx.result ≡ some r
        → (errors ≡ [] → Valid py loads g.schema r.content)
        → Passed g ctx r (check_errors py loads assertion g ctx r errors w).0
    unfolding check_errors Passed
    check_errors-Passed g ctx r [] w found v = (r.content, unchanged, v refl)
      where
        unchanged : ctx ≡ with_content ctx r r.content
        unchanged =
            ap
              (λ o. record {
                tenant_id = ctx.tenant_id;
                model = ctx.model;
                messages = ctx.messages;
                result = o;
              })
              found
    check_errors-Passed g ctx r (e ∷ es) w found v =
        repair_loop-Passed g ctx r g.max_attempts 0 r.content (e ∷ es) w

    from_result :
        (g : SchemaRepairGuardrail W X) (ctx ctx' : GuardrailContext) (w w' : W)
        (found : Option ChatResult)
        → ctx.result ≡ found
        → check_result py loads assertion g ctx found w ≡ (ok ctx', w')
        → (r : ChatResult) × (text : String) × (found ≡ some r)
          × (ctx' ≡ with_content ctx r text)
          × Valid py loads g.schema text
    unfolding check_result Passed
    from_result g ctx ctx' w w' none f e = absurd (ground arith)
    from_result g ctx ctx' w w' (some r) f e =
        let (text, same_but, valid) =
          subst (λ p. Passed g ctx r p.0) e
            (check_errors-Passed g ctx r (parse_and_validate py loads r.content g.schema) w f
              (parse_and_validate-Valid g.schema r.content)) in
        (r, text, refl, same_but, valid)

    -- If the check passes, it had a provider's result; it changed at most the content of it, and the
    -- content is then JSON that conforms to the schema, whatever the repair returned.
    pub check-Valid :
        (g : SchemaRepairGuardrail W X) (ctx ctx' : GuardrailContext) (w w' : W)
        → check py loads assertion g ctx w ≡ (ok ctx', w')
        → (r : ChatResult) × (text : String) × (ctx.result ≡ some r)
          × (ctx' ≡ with_content ctx r text)
          × Valid py loads g.schema text
    unfolding check
    check-Valid g ctx ctx' w w' e = from_result g ctx ctx' w w' ctx.result refl e
