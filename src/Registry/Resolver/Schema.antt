-- ===== src/Registry/Resolver/Schema.antt =====
-- app/registry/resolver.py: `_validate_params`, the check of params against a schema.
use atlas_gateway.Common.{
  String, Bool, true, false, not, ◌&&◌, ◌||◌, Option, none, some, List, [], ◌∷◌, ◌=ₛ◌,
  if◌then◌else◌, Result, ok, err,
}
use atlas_gateway.Domain.Json.{
  Json, bool, integer, float, str, array, object, Items, no_items, item, Members, no_members,
  member, get,
}
use atlas_gateway.Registry.Resolver.{Reason, missing_required, unknown_params, must_be}

-- The entries of `_JSON_TYPE_CHECKS`.
pub data Kind : Type 0 where
  string_kind number_kind integer_kind boolean_kind object_kind array_kind : Kind

unfoldable pub kind_of : String → Option Kind
kind_of s =
    if s =ₛ "string"
    then some string_kind
    else if s =ₛ "number"
    then some number_kind
    else if s =ₛ "integer"
    then some integer_kind
    else if s =ₛ "boolean"
    then some boolean_kind
    else if s =ₛ "object"
    then some object_kind
    else if s =ₛ "array"
    then some array_kind
    else none

-- `isinstance(value, accepted)`; a bool is an int.
unfoldable pub is_instance : Json → Kind → Bool
is_instance (str _) string_kind = true
is_instance (integer _) number_kind = true
is_instance (float _) number_kind = true
is_instance (bool _) number_kind = true
is_instance (integer _) integer_kind = true
is_instance (bool _) integer_kind = true
is_instance (bool _) boolean_kind = true
is_instance (object _) object_kind = true
is_instance (array _) array_kind = true
is_instance _ _ = false

abbrev pub is_bool : Json → Bool
is_bool (bool _) = true
is_bool _ = false

-- `isinstance(x, dict)`, `isinstance(x, list)`, `isinstance(x, str)`, with what is taken otherwise.
unfoldable pub dict_or_empty : Option Json → Members
dict_or_empty (some (object m)) = m
dict_or_empty _ = no_members

unfoldable pub list_or_empty : Option Json → Items
list_or_empty (some (array xs)) = xs
list_or_empty _ = no_items

unfoldable pub declared_type : Option Json → Option String
declared_type (some (object spec)) = elim (get spec "type") [
  | none ↦ none
  | some j ↦ elim j [ str s ↦ some s | _ ↦ none ]
]
declared_type _ = none

unfoldable pub is_true : Option Json → Bool
is_true (some (bool true)) = true
is_true _ = false

unfoldable pub has_key : Members → String → Bool
has_key no_members key = false
has_key (member k v rest) key = k =ₛ key || has_key rest key

-- The keys of a dict that another does not have: `a.keys() - b.keys()`.
unfoldable pub keys_without : Members → Members → List String
unfolding has_key
keys_without no_members other = []
keys_without (member k v rest) other =
    let more = keys_without rest other in if has_key other k then more else k ∷ more

-- One turn of the loop: whether the value is refused.
unfoldable pub refuses : Json → String → Option Kind → Bool
unfolding is_instance
refuses value declared none = false
refuses value declared (some accepted) =
    if is_bool value && not (declared =ₛ "boolean") then true else not (is_instance value accepted)

unfoldable pub turn :
    String → Json → Option String → Result Reason (Unit {0}) → Result Reason (Unit {0})
unfolding refuses kind_of
turn key value none rest = rest
turn key value (some declared) rest =
    if refuses value declared (kind_of declared) then err (must_be key declared) else rest

unfoldable pub check_types : Members → Members → Result Reason (Unit {0})
unfolding turn declared_type
check_types properties no_members = ok tt
check_types properties (member key value params) =
    let rest = check_types properties params in
    turn key value (declared_type (get properties key)) rest

unfoldable pub check_unknown : Bool → Members → Members → List String → Result Reason (Unit {0})
unfolding check_types
check_unknown true properties params unknown = check_types properties params
check_unknown false properties params [] = check_types properties params
check_unknown false properties params (k ∷ ks) = err (unknown_params (k ∷ ks))

unfoldable pub check_missing : Members → Members → Members → List String → Result Reason (Unit {0})
unfolding check_unknown is_true keys_without
check_missing schema properties params [] =
    check_unknown (is_true (get schema "additionalProperties")) properties params
      (keys_without params properties)
check_missing schema properties params (k ∷ ks) = err (missing_required (k ∷ ks))

-- `str` of a required key that is no text is a parameter.
module _ (str_of : Json → String) where
  unfoldable pub key_text : Json → String
  key_text (str s) = s
  key_text j = str_of j

  -- `required_keys - params.keys()`.
  unfoldable pub missing : Items → Members → List String
  unfolding key_text has_key
  missing no_items params = []
  missing (item k rest) params =
      let more = missing rest params in
      if has_key params (key_text k) then more else key_text k ∷ more

  -- `_validate_params`; an empty schema accepts all.
  unfoldable pub validate_params : Members → Members → Result Reason (Unit {0})
  unfolding check_missing missing dict_or_empty list_or_empty
  validate_params no_members params = ok tt
  validate_params (member k v rest) params =
      let schema = member k v rest in
      check_missing schema (dict_or_empty (get schema "properties")) params
        (missing (list_or_empty (get schema "required")) params)
