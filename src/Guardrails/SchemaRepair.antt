-- ===== src/Guardrails/SchemaRepair.antt =====
-- app/guardrails/schema_repair.py: the check of structured output and its bounded repair.
pub mod Keywords
pub mod Validate
pub mod Conforms
pub mod Keep
pub mod Walk
pub mod Passes
pub mod Bounded
pub mod Made
pub mod Fixes
mod Tests
use atlas_gateway.Common.{
  ℕ, zero, suc, String, ◌++ₛ◌, Option, none, some, List, [], ◌∷◌, Result, ok, err, Action, ℤ, pos,
  negsuc,
}
use atlas_gateway.Domain.Json.{Json, null, bool, integer, float, str, array, object, Members, get}
use atlas_gateway.Domain.Messages.{ChatResult}
use atlas_gateway.Chat.Ports.{GuardrailContext}
use atlas_gateway.Guardrails.Chain.{Guardrail, Failure, rejection, other, post}
use atlas_gateway.Guardrails.SchemaRepair.Keywords.{Python, type_name}
use atlas_gateway.Guardrails.SchemaRepair.Validate.{JsonDecodeError, parse_and_validate}

-- `RepairFn`: a new candidate or none from a candidate and its errors; it may raise.
abbrev pub RepairFn : Type 0 → Type 0 → Type 0
RepairFn W X = String → List String → Action W (Failure X) (Option String)

pub record SchemaRepairGuardrail (W X : Type 0) : Type 0 where
  pub schema : Members
  pub repair : Option (RepairFn W X)
  pub max_attempts : ℕ

-- The `ValueError`s of the constructor.
pub data InitError : Type 0 where
  negative_max_attempts repair_required : InitError
  type_not_string_or_list : (got : String) → InitError

-- `_assert_schema_shape` on `schema.get("type")`, then the rest of `__init__`.
unfoldable pub assert_schema_shape : {A : Type 0} → Option Json → A → Result InitError A
unfolding type_name
assert_schema_shape none made = ok made
assert_schema_shape (some null) made = ok made
assert_schema_shape (some (str name)) made = ok made
assert_schema_shape (some (array types)) made = ok made
assert_schema_shape (some value) made = err (type_not_string_or_list (type_name value))

module _ {W X : Type 0} where
  unfoldable pub init :
      Members → Option (RepairFn W X) → ℤ → Result InitError (SchemaRepairGuardrail W X)
  unfolding assert_schema_shape get
  init schema repair (negsuc n) = err negative_max_attempts
  init schema none (pos (suc n)) = err repair_required
  init schema repair (pos n) =
      assert_schema_shape (get schema "type")
        (record { schema = schema; repair = repair; max_attempts = n })

-- `"; ".join(errors)`.
unfoldable pub joined : List String → String
joined [] = ""
joined (e ∷ []) = e
joined (e ∷ es) = e ++ₛ ("; " ++ₛ joined es)

-- `ctx.result = ctx.result.model_copy(update={"content": candidate})`.
abbrev pub with_content : GuardrailContext → ChatResult → String → GuardrailContext
with_content ctx r candidate = record {
  tenant_id = ctx.tenant_id;
  model = ctx.model;
  messages = ctx.messages;
  result = some (record {
    model = r.model;
    content = candidate;
    finish_reason = r.finish_reason;
    usage = r.usage;
  });
}

-- `loads` is `json.loads`, `assertion` the `AssertionError` of the loop.
module _ (py : Python) (loads : String → Result JsonDecodeError Json) {W X : Type 0}
    (assertion : X) where
  -- The exception after the loop.
  unfoldable pub exhausted :
      SchemaRepairGuardrail W X → (attempts_used : ℕ) → List String → Failure X
  unfolding joined
  exhausted g used errors = rejection "schema_repair" post (
      "structured output failed schema validation after "
      ++ₛ (py.show_index used
          ++ₛ ("/"
              ++ₛ (py.show_index g.max_attempts ++ₛ (" repair attempts: " ++ₛ joined errors)))))

  -- What the loop does with a repaired candidate's errors; `rest` is the loop's next iteration.
  unfoldable pub after_errors :
      GuardrailContext
      → ChatResult
      → String
      → (List String → W → Result (Failure X) GuardrailContext × W)
      → List String
      → W
      → Result (Failure X) GuardrailContext × W
  after_errors ctx r candidate rest [] w = (ok (with_content ctx r candidate), w)
  after_errors ctx r candidate rest (e ∷ es) w = rest (e ∷ es) w

  -- One iteration after the call of `repair`, the `attempts_used`-th.
  unfoldable pub after_repair :
      SchemaRepairGuardrail W X
      → GuardrailContext
      → ChatResult
      → (attempts_used : ℕ) → List String
      → (String → List String → W → Result (Failure X) GuardrailContext × W)
      → Result (Failure X) (Option String)
      → W
      → Result (Failure X) GuardrailContext × W
  unfolding exhausted after_errors parse_and_validate
  after_repair g ctx r used errors rest (err e) w = (err e, w)
  after_repair g ctx r used errors rest (ok none) w = (err (exhausted g used errors), w)
  after_repair g ctx r used errors rest (ok (some candidate)) w =
      after_errors ctx r candidate (rest candidate) (parse_and_validate py loads candidate g.schema)
        w

  -- One iteration.
  unfoldable pub attempt :
      SchemaRepairGuardrail W X
      → GuardrailContext
      → ChatResult
      → (attempts_used : ℕ) → String
      → List String
      → (String → List String → W → Result (Failure X) GuardrailContext × W)
      → Option (RepairFn W X)
      → W
      → Result (Failure X) GuardrailContext × W
  unfolding after_repair
  attempt g ctx r used candidate errors rest none w = (err (other assertion), w)
  attempt g ctx r used candidate errors rest (some repair) w =
      let (reply, w') = repair candidate errors w in
      after_repair g ctx r (suc used) errors rest reply w'

  -- The loop, with the attempts that are left.
  unfoldable pub repair_loop :
      SchemaRepairGuardrail W X
      → GuardrailContext
      → ChatResult
      → (left attempts_used : ℕ) → String
      → List String
      → W
      → Result (Failure X) GuardrailContext × W
  unfolding exhausted attempt
  repair_loop g ctx r zero used candidate errors w = (err (exhausted g used errors), w)
  repair_loop g ctx r (suc left) used candidate errors w =
      attempt g ctx r used candidate errors (repair_loop g ctx r left (suc used)) g.repair w

  unfoldable pub check_errors :
      SchemaRepairGuardrail W X
      → GuardrailContext
      → ChatResult
      → List String
      → W
      → Result (Failure X) GuardrailContext × W
  unfolding repair_loop
  check_errors g ctx r [] w = (ok ctx, w)
  check_errors g ctx r (e ∷ es) w = repair_loop g ctx r g.max_attempts 0 r.content (e ∷ es) w

  unfoldable pub check_result :
      SchemaRepairGuardrail W X
      → GuardrailContext
      → Option ChatResult
      → W
      → Result (Failure X) GuardrailContext × W
  unfolding check_errors parse_and_validate
  check_result g ctx none w = (
    err (rejection "schema_repair" post "no provider result to validate (post-phase guardrail)"),
    w,
  )
  check_result g ctx (some r) w =
      check_errors g ctx r (parse_and_validate py loads r.content g.schema) w

  unfoldable pub check :
      SchemaRepairGuardrail W X → GuardrailContext → W → Result (Failure X) GuardrailContext × W
  unfolding check_result
  check g ctx w = check_result g ctx ctx.result w

  -- The check as a member of a chain.
  abbrev pub schema_repair : SchemaRepairGuardrail W X → Guardrail W X
  schema_repair g = record { name = "schema_repair"; check = check g }
