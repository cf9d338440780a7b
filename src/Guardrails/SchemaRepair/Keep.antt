-- ===== src/Guardrails/SchemaRepair/Keep.antt =====
-- app/guardrails/schema_repair.py: each keyword has no error exactly where a value keeps to it.
use atlas_gateway.Domain.Json.{
  no_items, null, item, Items, object, array, str, float, integer, bool, Json,
}
use atlas_gateway.Guardrails.SchemaRepair.Conforms.{
  Typed, EqualToOne, Limited, Enumerated, HasSomeType, AtMost, HasType,
}
use atlas_gateway.Common.{
  negsuc, pos, Bool, none, false, Option, ℤ, Option-cases, inr, inl, ◌=ₛ◌, Bool-cases, true, String,
  ◌≡◌, ◌↔◌, refl, some, List, [], ◌∷◌, ◌++◌, arith, =ₛ_iff,
}
use atlas_gateway.Guardrails.SchemaRepair.Keywords.{
  texts, enum_errors, type_error, limit_errors, listed, any_matches, Python, less_int, isinstance,
  expected_matches, type_matches, PyType, none_type, bool_type, str_type, list_type, dict_type,
  json_types,
}

pub append-is_empty : {A : Type 0} (xs ys : List A) → ((xs ++ ys) ≡ []) ↔ ((xs ≡ []) × (ys ≡ []))
append-is_empty [] ys = ((λ e. (refl, e)), (λ (_, e). e))
append-is_empty (x ∷ xs) ys = ground arith

-- The name that `_JSON_TYPES` gives a type.
unfoldable Named : PyType → String → Type 0
Named dict_type name = name ≡ "object"
Named list_type name = name ≡ "array"
Named str_type name = name ≡ "string"
Named bool_type name = name ≡ "boolean"
Named none_type name = name ≡ "null"
Named _ name = ⊥

json_types-Named : (name : String) (t : PyType) → json_types name ≡ some t → Named t name
unfolding json_types Named
json_types-Named name t e = ground (
  arith,
  =ₛ_iff name "object",
  =ₛ_iff name "array",
  =ₛ_iff name "string",
  =ₛ_iff name "boolean",
  =ₛ_iff name "null",
)

-- What the table of types accepts.
expected-HasType :
    (value : Json) (name : String) (t : PyType)
    → Named t name
    → expected_matches value (some t) ≡ true
    → HasType value name
unfolding expected_matches isinstance HasType Named
expected-HasType value name t n h = ground arith

type_matches-HasType :
    (value : Json) (name : String) → type_matches value name ≡ true → HasType value name
unfolding type_matches isinstance HasType expected_matches
type_matches-HasType value name h = elim (Bool-cases (name =ₛ "number")) [
  | inl p ↦ ground (arith, =ₛ_iff name "number")
  | inr np ↦ elim (Bool-cases (name =ₛ "integer")) [
    | inl q ↦ ground (arith, =ₛ_iff name "integer")
    | inr nq ↦ elim (Option-cases (json_types name)) [
      | inl e ↦ ground arith
      | inr (t, e) ↦ expected-HasType value name t (json_types-Named name t e) ground arith
    ]
  ]
]

HasType-type_matches :
    (value : Json) (name : String) → HasType value name → type_matches value name ≡ true
unfolding type_matches HasType isinstance json_types expected_matches
HasType-type_matches null name h = rw h refl
HasType-type_matches (bool b) name h = rw h refl
HasType-type_matches (integer z) name (inl h) = rw h refl
HasType-type_matches (integer z) name (inr h) = rw h refl
HasType-type_matches (float t) name h = rw h refl
HasType-type_matches (str s) name h = rw h refl
HasType-type_matches (array xs) name h = rw h refl
HasType-type_matches (object ms) name h = rw h refl

type_matches_iff :
    (value : Json) (name : String) → (type_matches value name ≡ true) ↔ HasType value name
type_matches_iff value name = (type_matches-HasType value name, HasType-type_matches value name)

any_matches_iff :
    (value : Json) (names : List String)
    → (any_matches value names ≡ true) ↔ HasSomeType value names
unfolding any_matches HasSomeType
any_matches_iff value [] = ground arith
any_matches_iff value (name ∷ names) =
    ground (arith, type_matches_iff value name, any_matches_iff value names)

module _ (py : Python) where
  pub type_error_iff :
      (value : Json) (path : String) (found : Option Json)
      → (type_error py value path found ≡ none) ↔ Typed value found
  unfolding type_error Typed
  type_error_iff value path none = ground arith
  type_error_iff value path (some (str name)) = ground (arith, type_matches_iff value name)
  type_error_iff value path (some (array types)) =
      ground (arith, any_matches_iff value (texts types))
  type_error_iff value path (some null) = ground arith
  type_error_iff value path (some (bool b)) = ground arith
  type_error_iff value path (some (integer z)) = ground arith
  type_error_iff value path (some (float t)) = ground arith
  type_error_iff value path (some (object ms)) = ground arith

  listed_iff : (value : Json) (xs : Items) → (listed py value xs ≡ true) ↔ EqualToOne py value xs
  unfolding listed EqualToOne
  listed_iff value no_items = ground arith
  listed_iff value (item x rest) = ground (arith, listed_iff value rest)

  pub enum_errors_iff :
      (value : Json) (path : String) (found : Option Json)
      → (enum_errors py value path found ≡ []) ↔ Enumerated py value found
  unfolding enum_errors Enumerated
  enum_errors_iff value path none = ground arith
  enum_errors_iff value path (some (array xs)) = ground (arith, listed_iff value xs)
  enum_errors_iff value path (some (str name)) = ground arith
  enum_errors_iff value path (some null) = ground arith
  enum_errors_iff value path (some (bool b)) = ground arith
  enum_errors_iff value path (some (integer z)) = ground arith
  enum_errors_iff value path (some (float t)) = ground arith
  enum_errors_iff value path (some (object ms)) = ground arith

  limit_kept :
      {N : Type 0} (read : Json → Option N) (breaks : N → Bool) (text : String)
      (limit limit' : Json) (n : N)
      → limit_errors py read breaks text (some limit) ≡ []
      → some limit ≡ some limit'
      → read limit' ≡ some n
      → breaks n ≡ false
  unfolding limit_errors
  limit_kept read breaks text limit limit' n e f r = ground arith

  no_limit_error :
      {N : Type 0} (read : Json → Option N) (breaks : N → Bool) (text : String) (limit : Json)
      → ((n : N) → read limit ≡ some n → breaks n ≡ false)
      → limit_errors py read breaks text (some limit) ≡ []
  unfolding limit_errors
  no_limit_error read breaks text limit k = elim (Option-cases (read limit)) [
    | inl e ↦ rw (e, limit_errors) refl
    | inr (n, e) ↦ rw (e, k n e, limit_errors) refl
  ]

  pub limit_errors_iff :
      {N : Type 0} (read : Json → Option N) (breaks : N → Bool) (Keeps : N → Type 0) (text : String)
      (found : Option Json)
      → ((n : N) → (breaks n ≡ false) ↔ Keeps n)
      → (limit_errors py read breaks text found ≡ []) ↔ Limited read Keeps found
  unfolding limit_errors Limited
  limit_errors_iff read breaks Keeps text none k = ground arith
  limit_errors_iff read breaks Keeps text (some limit) k = (
    λ e limit' n f r. (k n).0 (limit_kept read breaks text limit limit' n e f r),
    λ l. no_limit_error read breaks text limit (λ n r. (k n).1 (l limit n refl r)),
  )

pub less_int_iff : (a b : ℤ) → (less_int a b ≡ false) ↔ AtMost b a
unfolding less_int AtMost
less_int_iff (pos a) (pos b) = ground arith
less_int_iff (pos a) (negsuc b) = ground arith
less_int_iff (negsuc a) (pos b) = ground arith
less_int_iff (negsuc a) (negsuc b) = ground arith
