-- ===== src/Guardrails/SchemaRepair/Validate.antt =====
-- app/guardrails/schema_repair.py: the walk over a value and its schema.
use atlas_gateway.Common.{
  suc, ℕ, String, ◌++ₛ◌, false, Option, none, some, List, [], ◌∷◌, ◌++◌, if◌then◌else◌, Result, ok,
  err,
}
use atlas_gateway.Domain.Json.{
  Json, bool, integer, float, str, array, object, Items, no_items, item, Members, no_members,
  member, get,
}
use atlas_gateway.Guardrails.SchemaRepair.Keywords.{
  Python, whole, real, has, as_mapping, or_empty, type_error, enum_errors, validate_string,
  validate_number, array_limits,
}

-- The loop over `required`.
unfoldable pub missing_fields : String → Members → Items → List String
unfolding has
missing_fields path value no_items = []
missing_fields path value (item (str field) rest) =
    if has value field
    then missing_fields path value rest
    else ((path ++ₛ (": missing required property '" ++ₛ (field ++ₛ "'")))
        ∷ missing_fields path value rest)
missing_fields path value (item _ rest) = missing_fields path value rest

unfoldable pub required_errors : String → Members → Option Json → List String
unfolding missing_fields
required_errors path value (some (array fields)) = missing_fields path value fields
required_errors path value _ = []

-- The loop over the keys that `properties` does not have.
unfoldable pub additional_keys : String → Members → Members → List String
unfolding has
additional_keys path props no_members = []
additional_keys path props (member key v rest) =
    if has props key
    then additional_keys path props rest
    else ((path ++ₛ (": additional property '" ++ₛ (key ++ₛ "' not allowed")))
        ∷ additional_keys path props rest)

unfoldable pub additional_errors : String → Members → Members → Option Json → List String
unfolding additional_keys
additional_errors path props value (some (bool false)) = additional_keys path props value
additional_errors path props value _ = []

-- `props`, where `properties` is an object.
unfoldable pub properties : Members → Members
unfolding or_empty as_mapping get
properties schema = or_empty (as_mapping (get schema "properties"))

-- `json.JSONDecodeError`.
pub record JsonDecodeError : Type 0 where
  pub msg : String
  pub lineno : ℕ
  pub colno : ℕ

module _ (py : Python) where
  -- `_validate`, where `inside` are the errors of the branch on the value's kind.
  unfoldable pub after_type : Json → Members → String → List String → List String
  unfolding type_error enum_errors get
  after_type value schema path inside = elim (type_error py value path (get schema "type")) [
    | some wrong ↦ wrong ∷ []
    | none ↦ enum_errors py value path (get schema "enum") ++ inside
  ]

  unfoldable mutual
    unfolding after_type validate_string validate_number array_limits required_errors
        additional_errors properties as_mapping get

    -- The branches on the kind of the value.
    pub validate_kind : Json → Members → String → List String
    validate_kind (str s) schema path = validate_string py s schema path
    validate_kind (integer z) schema path = validate_number py (whole z) schema path
    validate_kind (float t) schema path = validate_number py (real t) schema path
    validate_kind (object value) schema path =
        required_errors path value (get schema "required")
        ++ (validate_members value (properties schema) path
            ++ additional_errors path (properties schema) value (get schema "additionalProperties"))
    validate_kind (array xs) schema path =
        array_limits py xs schema path ++ (elim (as_mapping (get schema "items")) [
          | none ↦ []
          | some items ↦ validate_items xs items path 0
        ])
    validate_kind _ schema path = []

    -- The loop over the items of a dict.
    pub validate_members : Members → Members → String → List String
    validate_members no_members props path = []
    validate_members (member key v rest) props path =
        (elim (as_mapping (get props key)) [
          | none ↦ []
          | some sub_schema ↦
              after_type v sub_schema (path ++ₛ ("." ++ₛ key))
                (validate_kind v sub_schema (path ++ₛ ("." ++ₛ key)))
        ])
        ++ validate_members rest props path

    -- The loop over the elements of a list.
    pub validate_items : Items → Members → String → ℕ → List String
    validate_items no_items items path index = []
    validate_items (item x rest) items path index =
        let place = path ++ₛ ("[" ++ₛ (py.show_index index ++ₛ "]")) in
        after_type x items place (validate_kind x items place)
        ++ validate_items rest items path (suc index)

  unfoldable pub validate : Json → Members → String → List String
  unfolding after_type validate_kind
  validate value schema path = after_type value schema path (validate_kind value schema path)

  unfoldable pub validate_parsed : Members → Result JsonDecodeError Json → List String
  unfolding validate
  validate_parsed schema (ok parsed) = validate parsed schema "$"
  validate_parsed schema (err e) =
      ("$: invalid JSON: "
        ++ₛ (e.msg
            ++ₛ (" at line " ++ₛ (py.show_index e.lineno ++ₛ (" col " ++ₛ py.show_index e.colno)))))
      ∷ []

  -- `loads` is `json.loads`.
  unfoldable pub parse_and_validate :
      (String → Result JsonDecodeError Json) → String → Members → List String
  unfolding validate_parsed
  parse_and_validate loads candidate schema = validate_parsed schema (loads candidate)
