-- ===== src/Guardrails/SchemaRepair/Tests.antt =====
-- An object whose count must be at least 2, a repair that answers once, and its runs.
use atlas_gateway.Guardrails.SchemaRepair.Walk.{validate_iff}
use atlas_gateway.Guardrails.SchemaRepair.Bounded.{check-counting_calls, counting_calls}
use atlas_gateway.Guardrails.SchemaRepair.Conforms.{Conforms}
use atlas_gateway.Guardrails.SchemaRepair.Made.{init_iff, check-init, made, IsNameOrList, CanRepair}
use atlas_gateway.Guardrails.SchemaRepair.Passes.{check-Valid, Valid}
use atlas_gateway.Guardrails.SchemaRepair.Fixes.{check-Fixes, Fixes}
use atlas_gateway.Domain.Messages.{ChatResult}
use atlas_gateway.Chat.Ports.{GuardrailContext}
use atlas_gateway.Guardrails.SchemaRepair.{
  assert_schema_shape, with_content, init, check, SchemaRepairGuardrail, RepairFn,
}
use atlas_gateway.Domain.Json.{
  get, bool, no_items, no_members, item, integer, array, str, object, Json, member, Members,
}
use atlas_gateway.Guardrails.SchemaRepair.Validate.{
  validate_parsed, parse_and_validate, properties, missing_fields, additional_keys,
  additional_errors, required_errors, JsonDecodeError, validate_kind, after_type, validate,
}
use atlas_gateway.Common.{
  Bool, ◌+◌, true, ◌↔◌, ◌≤◌, refl, ◌∷◌, ◌≡◌, err, pos, ◌=ₛ◌, [], if◌then◌else◌, ok, some, Result, ℕ,
  false, String,
}
use atlas_gateway.Guardrails.SchemaRepair.Keywords.{
  expected_matches, json_types, isinstance, any_matches, type_matches, less_int, less, as_number,
  limit_errors, has, as_mapping, or_empty, array_limits, validate_number, validate_string,
  enum_errors, type_error, Python,
}

abbrev no_floats : Python
no_floats = record {
  float_less = λ a b. false;
  float_equal = λ a b. false;
  show = λ v. "?";
  repr = λ s. s;
  show_index = λ n. "n";
}

abbrev counted_object : ℕ → Json
counted_object n = object (member "count" (integer (pos n)) no_members)

-- The texts "low", "high" and "more" are the values; any other is no JSON.
abbrev loads_some : String → Result JsonDecodeError Json
loads_some text =
    if text =ₛ "low"
    then ok (counted_object 1)
    else if text =ₛ "high"
    then ok (counted_object 3)
    else err (record { msg = "bad"; lineno = 1; colno = 1 })

abbrev at_least_two : Members
at_least_two = member "type" (str "object") (
    member "required" (array (item (str "count") no_items)) (
      member "additionalProperties" (bool false) (
        member "properties"
          (object (
            member "count"
              (object
                (member "type" (str "integer") (member "minimum" (integer (pos 2)) no_members)))
              no_members))
          no_members)))

-- The first repair is still no JSON, the second is right.
abbrev fixer : {X : Type 0} → RepairFn (Unit {0}) X
fixer text errors w = (ok (if text =ₛ "low" then some "broken" else some "high"), tt)

abbrev twice : SchemaRepairGuardrail (Unit {0}) (Unit {0})
twice = record { schema = at_least_two; repair = some fixer; max_attempts = 2 }

abbrev twice_bool : SchemaRepairGuardrail (Unit {0}) Bool
twice_bool = record { schema = at_least_two; repair = some fixer; max_attempts = 2 }

abbrev answer : String → ChatResult
answer text = record {
  model = "m";
  content = text;
  finish_reason = "stop";
  usage = record {
    input_tokens = 1;
    output_tokens = 1;
    cache_creation_input_tokens = 0;
    cache_read_input_tokens = 0;
  };
}

abbrev answered : String → GuardrailContext
answered text = record {
  tenant_id = "k";
  model = "smart";
  messages = [];
  result = some (answer text);
}

low_errors :
    validate no_floats (counted_object 1) at_least_two "$" ≡ ("$.count: value below minimum ?" ∷ [])
unfolding validate after_type validate_kind type_error enum_errors validate_string validate_number
    array_limits required_errors additional_errors additional_keys missing_fields properties
    or_empty as_mapping get has limit_errors as_number less less_int type_matches any_matches
    isinstance json_types expected_matches
low_errors = refl

high_passes : validate no_floats (counted_object 3) at_least_two "$" ≡ []
unfolding validate after_type validate_kind type_error enum_errors validate_string validate_number
    array_limits required_errors additional_errors additional_keys missing_fields properties
    or_empty as_mapping get has limit_errors as_number less less_int type_matches any_matches
    isinstance json_types expected_matches
high_passes = refl

validate_iff_example :
    (validate no_floats (counted_object 3) at_least_two "$" ≡ [])
    ↔ Conforms no_floats (counted_object 3) at_least_two
validate_iff_example = validate_iff no_floats (counted_object 3) at_least_two "$"

high_valid : parse_and_validate no_floats loads_some "high" at_least_two ≡ []
unfolding parse_and_validate validate_parsed
high_valid = high_passes

low_invalid :
    parse_and_validate no_floats loads_some "low" at_least_two
    ≡ ("$.count: value below minimum ?" ∷ [])
unfolding parse_and_validate validate_parsed
low_invalid = low_errors

broken_invalid :
    parse_and_validate no_floats loads_some "broken" at_least_two
    ≡ ("$: invalid JSON: bad at line n col n" ∷ [])
unfolding parse_and_validate validate_parsed
broken_invalid = refl

-- The first repair leaves errors, the second none.
low_fixes :
    Fixes no_floats loads_some at_least_two
      (fixer {X = Unit {0}})
      2
      "low"
      ("$.count: value below minimum ?" ∷ [])
      tt
      "high"
      tt
low_fixes = Fixes.later refl broken_invalid (Fixes.now refl high_valid)

check-Fixes_example :
    check no_floats loads_some tt twice (answered "low") tt
    ≡ (ok (with_content (answered "low") (answer "low") "high"), tt)
check-Fixes_example =
    check-Fixes no_floats loads_some tt twice (answered "low") (answer "low") fixer
      "$.count: value below minimum ?" [] tt "high" tt refl refl low_invalid low_fixes

check-Valid_example :
    (r : ChatResult) × (text : String) × (some (answer "low") ≡ some r)
    × (answered "high" ≡ with_content (answered "low") r text)
    × Valid no_floats loads_some at_least_two text
check-Valid_example =
    check-Valid no_floats loads_some tt twice (answered "low") (answered "high") tt tt
      check-Fixes_example

check-counting_calls_example :
    (k : ℕ) × (k ≤ 2)
    × (check no_floats loads_some tt (counting_calls twice) (answered "low") (tt, 5) ≡ (
      (check no_floats loads_some tt twice (answered "low") tt).0,
      ((check no_floats loads_some tt twice (answered "low") tt).1, k + 5),
    ))
check-counting_calls_example =
    check-counting_calls no_floats loads_some tt twice (answered "low") tt 5

made_twice : init at_least_two (some fixer) (pos 2) ≡ ok twice
unfolding init assert_schema_shape get
made_twice = refl

init_iff_example : (init at_least_two (some fixer) (pos 2) ≡ ok twice) ↔ (
    (m : ℕ) × (pos 2 ≡ pos m)
    × CanRepair {X = Unit {0}} (some fixer) m
    × IsNameOrList (get at_least_two "type")
    × (made at_least_two (some fixer) m ≡ twice))
init_iff_example = init_iff at_least_two (some fixer) (pos 2) twice

made_twice_bool : init at_least_two (some fixer) (pos 2) ≡ ok twice_bool
unfolding init assert_schema_shape get
made_twice_bool = refl

check-init_example :
    check no_floats loads_some true twice_bool (answered "low") tt
    ≡ check no_floats loads_some false twice_bool (answered "low") tt
check-init_example =
    check-init no_floats loads_some at_least_two (some fixer) (pos 2) twice_bool true false
      (answered "low") tt made_twice_bool
