-- ===== src/Guardrails/SchemaRepair/Keywords.antt =====
-- app/guardrails/schema_repair.py: the keywords of a schema that do not look inside a value.
-- `Python` is what the code takes from the language's floats and from its texts of values.
use Prim.Native.String.{count}
use atlas_gateway.Common.{
  suc, ℕ, String, ◌++ₛ◌, ◌=ₛ◌, Bool, true, false, ◌&&◌, ◌||◌, not, Option, none, some, List, [],
  ◌∷◌, ◌++◌, ltb, ◌==◌, if◌then◌else◌, ℤ, pos, negsuc,
}
use atlas_gateway.Domain.Json.{
  Json, null, bool, integer, float, str, array, object, Items, no_items, item, Members, no_members,
  member, get,
}

-- An `int` or a `float` (its text).
pub data Number : Type 0 where
  whole : ℤ → Number
  real : String → Number

-- `<` and `==` where a float takes part, `str(value)`, `repr(text)` and `str(index)`.
pub record Python : Type 0 where
  pub float_less : Number → Number → Bool
  pub float_equal : Number → Number → Bool
  pub show : Json → String
  pub repr : String → String
  pub show_index : ℕ → String

pub data PyType : Type 0 where
  none_type bool_type int_type float_type str_type list_type dict_type : PyType

-- `isinstance`; a `bool` is an `int`.
unfoldable pub isinstance : Json → PyType → Bool
isinstance null none_type = true
isinstance (bool b) bool_type = true
isinstance (bool b) int_type = true
isinstance (integer z) int_type = true
isinstance (float t) float_type = true
isinstance (str s) str_type = true
isinstance (array xs) list_type = true
isinstance (object ms) dict_type = true
isinstance _ _ = false

-- `type(value).__name__`.
unfoldable pub type_name : Json → String
type_name null = "NoneType"
type_name (bool b) = "bool"
type_name (integer z) = "int"
type_name (float t) = "float"
type_name (str s) = "str"
type_name (array xs) = "list"
type_name (object ms) = "dict"

-- `_JSON_TYPES.get`; each of its tuples holds one type.
unfoldable pub json_types : String → Option PyType
json_types name =
    if name =ₛ "object"
    then some dict_type
    else if name =ₛ "array"
    then some list_type
    else if name =ₛ "string"
    then some str_type
    else if name =ₛ "boolean"
    then some bool_type
    else if name =ₛ "null"
    then some none_type
    else none

-- After `_JSON_TYPES.get`.
unfoldable pub expected_matches : Json → Option PyType → Bool
unfolding isinstance
expected_matches value none = false
expected_matches value (some int_type) =
    isinstance value int_type && not (isinstance value bool_type)
expected_matches value (some expected) = isinstance value expected

unfoldable pub type_matches : Json → String → Bool
unfolding isinstance json_types expected_matches
type_matches value name =
    if name =ₛ "number"
    then (isinstance value int_type || isinstance value float_type)
      && not (isinstance value bool_type)
    else if name =ₛ "integer"
    then isinstance value int_type && not (isinstance value bool_type)
    else expected_matches value (json_types name)

-- `[t for t in type_names if isinstance(t, str)]`.
unfoldable pub texts : Items → List String
texts no_items = []
texts (item (str s) rest) = s ∷ texts rest
texts (item _ rest) = texts rest

unfoldable pub any_matches : Json → List String → Bool
unfolding type_matches
any_matches value [] = false
any_matches value (name ∷ names) = type_matches value name || any_matches value names

-- `len` of a list and of a dict.
unfoldable pub item_count : Items → ℕ
item_count no_items = 0
item_count (item x rest) = suc (item_count rest)

unfoldable pub member_count : Members → ℕ
member_count no_members = 0
member_count (member k v rest) = suc (member_count rest)

-- `key in mapping`.
unfoldable pub has : Members → String → Bool
has no_members key = false
has (member k v rest) key = (k =ₛ key) || has rest key

-- `_as_mapping(mapping.get(key))`.
unfoldable pub as_mapping : Option Json → Option Members
as_mapping (some (object ms)) = some ms
as_mapping _ = none

-- `_as_mapping(schema.get("properties")) or {}`.
unfoldable pub or_empty : Option Members → Members
or_empty none = no_members
or_empty (some ms) = ms

unfoldable pub less_int : ℤ → ℤ → Bool
less_int (pos a) (pos b) = ltb a b
less_int (pos a) (negsuc b) = false
less_int (negsuc a) (pos b) = true
less_int (negsuc a) (negsuc b) = ltb b a

unfoldable pub equal_int : ℤ → ℤ → Bool
equal_int (pos a) (pos b) = a == b
equal_int (negsuc a) (negsuc b) = a == b
equal_int _ _ = false

-- `isinstance(limit, int)`, which a `bool` passes.
unfoldable pub as_int : Json → Option ℤ
as_int (bool true) = some (pos 1)
as_int (bool false) = some (pos 0)
as_int (integer z) = some z
as_int _ = none

-- `isinstance(limit, int | float) and not isinstance(limit, bool)`.
unfoldable pub as_number : Json → Option Number
as_number (integer z) = some (whole z)
as_number (float t) = some (real t)
as_number _ = none

-- What `==` takes as a number.
unfoldable pub numeric : Json → Option Number
unfolding as_number
numeric (bool true) = some (whole (pos 1))
numeric (bool false) = some (whole (pos 0))
numeric value = as_number value

module _ (py : Python) where
  unfoldable pub less : Number → Number → Bool
  unfolding less_int
  less (whole a) (whole b) = less_int a b
  less a b = py.float_less a b

  unfoldable pub equal : Number → Number → Bool
  unfolding equal_int
  equal (whole a) (whole b) = equal_int a b
  equal a b = py.float_equal a b

  unfoldable pub both_equal : Option Number → Option Number → Bool
  unfolding equal
  both_equal (some a) (some b) = equal a b
  both_equal _ _ = false

  -- `==` on values; the order of a dict's keys does not matter.
  unfoldable mutual
    unfolding both_equal numeric member_count get

    pub same : Json → Json → Bool
    same null null = true
    same (str s) (str t) = s =ₛ t
    same (array xs) (array ys) = same_items xs ys
    same (object ms) (object ns) = (member_count ms == member_count ns) && same_members ms ns
    same a b = both_equal (numeric a) (numeric b)

    pub same_items : Items → Items → Bool
    same_items no_items no_items = true
    same_items (item x xs) (item y ys) = same x y && same_items xs ys
    same_items _ _ = false

    pub same_members : Members → Members → Bool
    same_members no_members ns = true
    same_members (member k v rest) ns =
        (elim (get ns k) [ none ↦ false | some w ↦ same v w ]) && same_members rest ns

  -- `value in enum`.
  unfoldable pub listed : Json → Items → Bool
  unfolding same
  listed value no_items = false
  listed value (item x rest) = same value x || listed value rest

  unfoldable pub names_repr : List String → String
  names_repr [] = ""
  names_repr (name ∷ []) = py.repr name
  names_repr (name ∷ names) = py.repr name ++ₛ (", " ++ₛ names_repr names)

  -- The keyword `type`: the error that ends the validation.
  unfoldable pub type_error : Json → String → Option Json → Option String
  unfolding type_matches any_matches texts type_name names_repr
  type_error value path (some (str name)) =
      if type_matches value name
      then none
      else some (path ++ₛ (": expected type " ++ₛ (name ++ₛ (", got " ++ₛ type_name value))))
  type_error value path (some (array types)) =
      if any_matches value (texts types)
      then none
      else some (
          path
          ++ₛ (": expected one of types ["
              ++ₛ (names_repr (texts types) ++ₛ ("], got " ++ₛ type_name value))))
  type_error value path _ = none

  unfoldable pub enum_errors : Json → String → Option Json → List String
  unfolding listed
  enum_errors value path (some (array values)) =
      if listed value values then [] else (path ++ₛ ": value not in enum") ∷ []
  enum_errors value path _ = []

  -- A keyword that holds a limit: the error if it is one and `breaks` says it is broken.
  unfoldable pub limit_errors :
      {N : Type 0} → (Json → Option N) → (N → Bool) → String → Option Json → List String
  limit_errors read breaks text none = []
  limit_errors read breaks text (some limit) = elim (read limit) [
    | none ↦ []
    | some n ↦ if breaks n then (text ++ₛ py.show limit) ∷ [] else []
  ]

  unfoldable pub validate_string : String → Members → String → List String
  unfolding limit_errors as_int less_int get
  validate_string s schema path =
      limit_errors as_int (λ n. less_int (pos (count s)) n)
        (path ++ₛ ": string shorter than minLength ") (get schema "minLength")
      ++ limit_errors as_int (λ n. less_int n (pos (count s)))
          (path ++ₛ ": string longer than maxLength ") (get schema "maxLength")

  unfoldable pub validate_number : Number → Members → String → List String
  unfolding limit_errors as_number less get
  validate_number x schema path =
      limit_errors as_number (λ n. less x n) (path ++ₛ ": value below minimum ")
        (get schema "minimum")
      ++ limit_errors as_number (λ n. less n x) (path ++ₛ ": value above maximum ")
          (get schema "maximum")

  unfoldable pub array_limits : Items → Members → String → List String
  unfolding limit_errors as_int less_int item_count get
  array_limits xs schema path =
      limit_errors as_int (λ n. less_int (pos (item_count xs)) n)
        (path ++ₛ ": array shorter than minItems ") (get schema "minItems")
      ++ limit_errors as_int (λ n. less_int n (pos (item_count xs)))
          (path ++ₛ ": array longer than maxItems ") (get schema "maxItems")
