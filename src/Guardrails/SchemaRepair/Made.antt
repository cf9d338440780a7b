-- ===== src/Guardrails/SchemaRepair/Made.antt =====
-- app/guardrails/schema_repair.py: the constructor, and what the guardrails that it makes do.
use atlas_gateway.Guardrails.Chain.{Failure}
use atlas_gateway.Domain.Messages.{ChatResult}
use atlas_gateway.Chat.Ports.{GuardrailContext}
use atlas_gateway.Guardrails.SchemaRepair.Validate.{parse_and_validate, JsonDecodeError}
use atlas_gateway.Domain.Json.{object, float, integer, get, bool, null, array, str, Members, Json}
use atlas_gateway.Common.{
  err, [], refl, subst, ◌∙◌, ◌∷◌, ap, zero, suc, negsuc, List, pos, arith, ◌↔◌, none, ok, ℕ, some,
  Result, ℤ, ◌≡◌, String, Option,
}
use atlas_gateway.Guardrails.SchemaRepair.{
  check_errors, exhausted, repair_loop, after_errors, after_repair, check, check_result, attempt,
  SchemaRepairGuardrail, RepairFn, assert_schema_shape, init,
}
use atlas_gateway.Guardrails.SchemaRepair.Keywords.{Python}

-- The `type` of a schema, as `_assert_schema_shape` wants it.
unfoldable pub IsNameOrList : Option Json → Type 0
IsNameOrList none = Unit
IsNameOrList (some null) = Unit
IsNameOrList (some (str name)) = Unit
IsNameOrList (some (array types)) = Unit
IsNameOrList (some _) = ⊥

shape_iff :
    {A : Type 0} (found : Option Json) (made g : A)
    → (assert_schema_shape found made ≡ ok g) ↔ (IsNameOrList found × (made ≡ g))
unfolding assert_schema_shape IsNameOrList
shape_iff none made g = ground arith
shape_iff (some null) made g = ground arith
shape_iff (some (str name)) made g = ground arith
shape_iff (some (array types)) made g = ground arith
shape_iff (some (bool b)) made g = ground arith
shape_iff (some (integer z)) made g = ground arith
shape_iff (some (float t)) made g = ground arith
shape_iff (some (object ms)) made g = ground arith

pos_injective : (n m : ℕ) → pos n ≡ pos m → n ≡ m
pos_injective n m e = ground arith

module _ {W X : Type 0} where
  -- Attempts come with a repair.
  unfoldable pub CanRepair : Option (RepairFn W X) → ℕ → Type 0
  CanRepair none n = n ≡ 0
  CanRepair (some repair) n = Unit

  abbrev pub made : Members → Option (RepairFn W X) → ℕ → SchemaRepairGuardrail W X
  made schema repair n = record { schema = schema; repair = repair; max_attempts = n }

  -- The constructor makes a guardrail exactly if the cap is not negative, a repair is given where
  -- the cap is positive, and the schema's `type` is null, a text or a list if it is there; the
  -- guardrail then has the schema, the repair and the cap that were given.
  pub init_iff :
      (schema : Members) (repair : Option (RepairFn W X)) (n : ℤ) (g : SchemaRepairGuardrail W X)
      → (init schema repair n ≡ ok g) ↔ (
          (m : ℕ) × (n ≡ pos m)
          × CanRepair repair m
          × IsNameOrList (get schema "type")
          × (made schema repair m ≡ g))
  unfolding init CanRepair
  init_iff schema repair (negsuc n) g =
      ((λ e. absurd (ground arith)), λ (m, e, _, _, _). absurd (ground arith))
  init_iff schema none (pos zero) g = (
    λ e.
        let (shape, same) = (shape_iff (get schema "type") (made schema none zero) g).0 e in
        (zero, refl, refl, shape, same),
    λ (m, e, c, shape, same).
        (shape_iff (get schema "type") (made schema none zero) g).1
          (shape, ap (made schema none) (pos_injective zero m e) ∙ same),
  )
  init_iff schema none (pos (suc n)) g =
      ((λ e. absurd (ground arith)), λ (m, e, z, _, _). absurd (ground arith))
  init_iff schema (some repair) (pos n) g = (
    λ e.
        let (shape, same) = (shape_iff (get schema "type") (made schema (some repair) n) g).0 e in
        (n, refl, tt, shape, same),
    λ (m, e, c, shape, same).
        (shape_iff (get schema "type") (made schema (some repair) n) g).1
          (shape, ap (made schema (some repair)) (pos_injective n m e) ∙ same),
  )

module _ (py : Python) (loads : String → Result JsonDecodeError Json) {W X : Type 0} where
  after_errors_agrees :
      (a b : X) (ctx : GuardrailContext) (r : ChatResult) (text : String)
      (rest rest' : List String → W → Result (Failure X) GuardrailContext × W)
      (errors : List String) (w : W)
      → ((es : List String) (w' : W) → rest es w' ≡ rest' es w')
      → after_errors py loads a ctx r text rest errors w
        ≡ after_errors py loads b ctx r text rest' errors w
  unfolding after_errors
  after_errors_agrees a b ctx r text rest rest' [] w k = refl
  after_errors_agrees a b ctx r text rest rest' (e ∷ es) w k = k (e ∷ es) w

  after_repair_agrees :
      (a b : X) (g : SchemaRepairGuardrail W X) (ctx : GuardrailContext) (r : ChatResult) (used : ℕ)
      (errors : List String)
      (rest rest' : String → List String → W → Result (Failure X) GuardrailContext × W)
      (reply : Result (Failure X) (Option String)) (w : W)
      → ((text : String) (es : List String) (w' : W) → rest text es w' ≡ rest' text es w')
      → after_repair py loads a g ctx r used errors rest reply w
        ≡ after_repair py loads b g ctx r used errors rest' reply w
  unfolding after_repair exhausted
  after_repair_agrees a b g ctx r used errors rest rest' (err e) w k = refl
  after_repair_agrees a b g ctx r used errors rest rest' (ok none) w k = refl
  after_repair_agrees a b g ctx r used errors rest rest' (ok (some text)) w k =
      after_errors_agrees a b ctx r text (rest text) (rest' text)
        (parse_and_validate py loads text g.schema) w (k text)

  attempt_agrees :
      (a b : X) (g : SchemaRepairGuardrail W X) (ctx : GuardrailContext) (r : ChatResult)
      (used n : ℕ) (text : String) (errors : List String)
      (rest rest' : String → List String → W → Result (Failure X) GuardrailContext × W)
      (repair : Option (RepairFn W X)) (w : W)
      → CanRepair repair (suc n)
      → ((text : String) (es : List String) (w' : W) → rest text es w' ≡ rest' text es w')
      → attempt py loads a g ctx r used text errors rest repair w
        ≡ attempt py loads b g ctx r used text errors rest' repair w
  unfolding attempt CanRepair
  attempt_agrees a b g ctx r used n text errors rest rest' none w c k = absurd (ground arith)
  attempt_agrees a b g ctx r used n text errors rest rest' (some repair) w c k =
      let (reply, w') = repair text errors w in
      after_repair_agrees a b g ctx r (suc used) errors rest rest' reply w' k

  fewer : (repair : Option (RepairFn W X)) (n : ℕ) → CanRepair repair (suc n) → CanRepair repair n
  unfolding CanRepair
  fewer none n c = absurd (ground arith)
  fewer (some repair) n c = tt

  repair_loop_agrees :
      (a b : X) (g : SchemaRepairGuardrail W X) (ctx : GuardrailContext) (r : ChatResult)
      (left used : ℕ) (text : String) (errors : List String) (w : W)
      → CanRepair g.repair left
      → repair_loop py loads a g ctx r left used text errors w
        ≡ repair_loop py loads b g ctx r left used text errors w
  unfolding repair_loop exhausted
  repair_loop_agrees a b g ctx r zero used text errors w c = refl
  repair_loop_agrees a b g ctx r (suc left) used text errors w c =
      attempt_agrees a b g ctx r used left text errors
        (repair_loop py loads a g ctx r left (suc used))
        (repair_loop py loads b g ctx r left (suc used)) g.repair w c
        (λ t es w'. repair_loop_agrees a b g ctx r left (suc used) t es w' (fewer g.repair left c))

  check_result_agrees :
      (a b : X) (g : SchemaRepairGuardrail W X) (ctx : GuardrailContext) (found : Option ChatResult)
      (w : W)
      → CanRepair g.repair g.max_attempts
      → check_result py loads a g ctx found w ≡ check_result py loads b g ctx found w
  unfolding check_result check_errors
  check_result_agrees a b g ctx none w c = refl
  check_result_agrees a b g ctx (some r) w c =
      errors_agree (parse_and_validate py loads r.content g.schema)
    where
      errors_agree :
          (errors : List String)
          → check_errors py loads a g ctx r errors w ≡ check_errors py loads b g ctx r errors w
      errors_agree [] = refl
      errors_agree (e ∷ es) = repair_loop_agrees a b g ctx r g.max_attempts 0 r.content (e ∷ es) w c

  -- The assertion of the loop never fails in a guardrail that the constructor made: the check does
  -- the same whatever exception the assertion would raise.
  pub check-init :
      (schema : Members) (repair : Option (RepairFn W X)) (n : ℤ) (g : SchemaRepairGuardrail W X)
      (a b : X) (ctx : GuardrailContext) (w : W)
      → init schema repair n ≡ ok g
      → check py loads a g ctx w ≡ check py loads b g ctx w
  unfolding check
  check-init schema repair n g a b ctx w e =
      let (m, _, c, _, same) = (init_iff schema repair n g).0 e in
      check_result_agrees a b g ctx ctx.result w
        (subst (λ x. CanRepair x.repair x.max_attempts) same c)
