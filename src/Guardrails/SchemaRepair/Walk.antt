-- ===== src/Guardrails/SchemaRepair/Walk.antt =====
-- app/guardrails/schema_repair.py: the walk finds no error exactly in the values that conform.
use atlas_gateway.Guardrails.SchemaRepair.Keep.{
  enum_errors_iff, type_error_iff, less_int_iff, append-is_empty, limit_errors_iff,
}
use mathlib.Core.Option.{some_inj}
use atlas_gateway.Common.{
  ◌∙◌, sym, refl, ◌∷◌, ap, true, none, String, suc, ◌++ₛ◌, false, pos, some, arith, ◌↔◌, Option,
  ◌≡◌, ℕ, List,
}
use atlas_gateway.Guardrails.SchemaRepair.Conforms.{
  AtMost, ItemsConform, MembersConform, ConformsInside, Admitted, InRange, KeysIn, HasFields,
  Required, Closed, Conforms, Between,
}
use atlas_gateway.Guardrails.SchemaRepair.Validate.{
  validate_items, validate_members, properties, validate_kind, additional_errors, required_errors,
  after_type, additional_keys, validate, missing_fields,
}
use Prim.Native.String.{count}
use atlas_gateway.Common.{[], ◌++◌}
use atlas_gateway.Domain.Json.{
  null, no_members, no_items, object, float, array, str, integer, item, bool, member, Json, Items,
  Members, get,
}
use atlas_gateway.Guardrails.SchemaRepair.Keywords.{
  enum_errors, type_error, as_mapping, item_count, real, whole, less, as_number, less_int, as_int,
  array_limits, limit_errors, validate_string, validate_number, Python, Number,
}

missing_fields_iff :
    (path : String) (value : Members) (fields : Items)
    → (missing_fields path value fields ≡ []) ↔ HasFields value fields
unfolding missing_fields HasFields
missing_fields_iff path value no_items = ground arith
missing_fields_iff path value (item (str f) rest) =
    ground (arith, missing_fields_iff path value rest)
missing_fields_iff path value (item null rest) = missing_fields_iff path value rest
missing_fields_iff path value (item (bool b) rest) = missing_fields_iff path value rest
missing_fields_iff path value (item (integer z) rest) = missing_fields_iff path value rest
missing_fields_iff path value (item (float t) rest) = missing_fields_iff path value rest
missing_fields_iff path value (item (array xs) rest) = missing_fields_iff path value rest
missing_fields_iff path value (item (object ms) rest) = missing_fields_iff path value rest

required_errors_iff :
    (path : String) (value : Members) (found : Option Json)
    → (required_errors path value found ≡ []) ↔ Required value found
unfolding required_errors Required
required_errors_iff path value none = ground arith
required_errors_iff path value (some (array xs)) = missing_fields_iff path value xs
required_errors_iff path value (some (str s)) = ground arith
required_errors_iff path value (some null) = ground arith
required_errors_iff path value (some (bool b)) = ground arith
required_errors_iff path value (some (integer z)) = ground arith
required_errors_iff path value (some (float t)) = ground arith
required_errors_iff path value (some (object ms)) = ground arith

additional_keys_iff :
    (path : String) (props value : Members)
    → (additional_keys path props value ≡ []) ↔ KeysIn props value
unfolding additional_keys KeysIn
additional_keys_iff path props no_members = ground arith
additional_keys_iff path props (member key v rest) =
    ground (arith, additional_keys_iff path props rest)

additional_errors_iff :
    (path : String) (props value : Members) (found : Option Json)
    → (additional_errors path props value found ≡ []) ↔ Closed props value found
unfolding additional_errors Closed
additional_errors_iff path props value none = ground arith
additional_errors_iff path props value (some (bool true)) = ground arith
additional_errors_iff path props value (some (bool false)) = additional_keys_iff path props value
additional_errors_iff path props value (some null) = ground arith
additional_errors_iff path props value (some (str s)) = ground arith
additional_errors_iff path props value (some (integer z)) = ground arith
additional_errors_iff path props value (some (float t)) = ground arith
additional_errors_iff path props value (some (array xs)) = ground arith
additional_errors_iff path props value (some (object ms)) = ground arith

module _ (py : Python) where
  -- Two lists of errors, of which neither is there if both conditions hold.
  both :
      {P Q : Type 0} (xs ys : List String)
      → (xs ≡ []) ↔ P
      → (ys ≡ []) ↔ Q
      → ((xs ++ ys) ≡ []) ↔ (P × Q)
  both xs ys p q = ground (arith, append-is_empty xs ys)

  lengths_iff :
      (n : ℕ) (below above : String) (least most : Option Json)
      → ((limit_errors py as_int (λ z. less_int (pos n) z) below least
            ++ limit_errors py as_int (λ z. less_int z (pos n)) above most)
          ≡ [])
        ↔ Between n least most
  unfolding Between
  lengths_iff n below above least most =
      both (limit_errors py as_int (λ z. less_int (pos n) z) below least)
        (limit_errors py as_int (λ z. less_int z (pos n)) above most)
        (limit_errors_iff py as_int (λ z. less_int (pos n) z) (λ z. AtMost z (pos n)) below least
          (λ z. less_int_iff (pos n) z))
        (limit_errors_iff py as_int (λ z. less_int z (pos n)) (λ z. AtMost (pos n) z) above most
          (λ z. less_int_iff z (pos n)))

  number_iff :
      (x : Number) (schema : Members) (path : String)
      → (validate_number py x schema path ≡ []) ↔ InRange py x schema
  unfolding validate_number InRange
  number_iff x schema path =
      both _ _
        (limit_errors_iff py as_number (λ n. less py x n) (λ n. less py x n ≡ false)
          (path ++ₛ ": value below minimum ") (get schema "minimum") (λ n. ((λ e. e), (λ e. e))))
        (limit_errors_iff py as_number (λ n. less py n x) (λ n. less py n x ≡ false)
          (path ++ₛ ": value above maximum ") (get schema "maximum") (λ n. ((λ e. e), (λ e. e))))

  -- A first error ends the work; without one, two lists of errors follow.
  stages :
      {T E P : Type 0} (first : Option String) (xs ys : List String)
      → (first ≡ none) ↔ T
      → (xs ≡ []) ↔ E
      → (ys ≡ []) ↔ P
      → ((elim first [ some wrong ↦ wrong ∷ [] | none ↦ xs ++ ys ]) ≡ []) ↔ ((T × E) × P)
  stages none xs ys t e p = (
    λ empty. let (ex, ey) = (append-is_empty xs ys).0 empty in ((t.0 refl, e.0 ex), p.0 ey),
    λ ((_, he), hp). (append-is_empty xs ys).1 (e.1 he, p.1 hp),
  )
  stages (some wrong) xs ys t e p = ground arith

  after_type_iff :
      {P : Type 0} (value : Json) (schema : Members) (path : String) (inside : List String)
      → (inside ≡ []) ↔ P
      → (after_type py value schema path inside ≡ []) ↔ (Admitted py value schema × P)
  unfolding after_type Admitted
  after_type_iff value schema path inside k =
      stages (type_error py value path (get schema "type"))
        (enum_errors py value path (get schema "enum")) inside
        (type_error_iff py value path (get schema "type"))
        (enum_errors_iff py value path (get schema "enum")) k

  -- Errors under a sub-schema, where there is one.
  sub_iff :
      (errors : Members → List String) (Keeps : Members → Type 0)
      → ((sub : Members) → (errors sub ≡ []) ↔ Keeps sub)
      → (found : Option Members)
      → ((elim found [ none ↦ [] | some sub ↦ errors sub ]) ≡ [])
        ↔ ((sub : Members) → found ≡ some sub → Keeps sub)
  sub_iff errors Keeps k none = ((λ e sub f. ground arith), λ h. refl)
  sub_iff errors Keeps k (some sub) =
      ((λ e sub' f. (k sub').0 (sym (ap errors (some_inj.0 f)) ∙ e)), λ h. (k sub).1 (h sub refl))

  object_iff :
      (value schema : Members) (path : String)
      → (validate_members py value (properties schema) path ≡ [])
        ↔ MembersConform py value (properties schema)
      → (validate_kind py (object value) schema path ≡ []) ↔ ConformsInside py (object value) schema
  unfolding validate_kind ConformsInside
  object_iff value schema path k =
      both (required_errors path value (get schema "required"))
        (validate_members py value (properties schema) path
          ++ additional_errors path (properties schema) value (get schema "additionalProperties"))
        (required_errors_iff path value (get schema "required"))
        (both (validate_members py value (properties schema) path)
          (additional_errors path (properties schema) value (get schema "additionalProperties")) k
          (additional_errors_iff path (properties schema) value
            (get schema "additionalProperties")))

  array_iff :
      (xs : Items) (schema : Members) (path : String)
      → ((items : Members) → (validate_items py xs items path 0 ≡ []) ↔ ItemsConform py xs items)
      → (validate_kind py (array xs) schema path ≡ []) ↔ ConformsInside py (array xs) schema
  unfolding validate_kind ConformsInside array_limits
  array_iff xs schema path k =
      both (array_limits py xs schema path) _
        (lengths_iff (item_count xs) (path ++ₛ ": array shorter than minItems ")
          (path ++ₛ ": array longer than maxItems ") (get schema "minItems")
          (get schema "maxItems"))
        (sub_iff (λ items. validate_items py xs items path 0) (λ items. ItemsConform py xs items) k
          (as_mapping (get schema "items")))

  mutual
    unfolding validate_kind ConformsInside validate_string array_limits

    kind_iff :
        (value : Json) (schema : Members) (path : String)
        → (validate_kind py value schema path ≡ []) ↔ ConformsInside py value schema
    kind_iff null schema path = ground arith
    kind_iff (bool b) schema path = ground arith
    kind_iff (integer z) schema path = number_iff (whole z) schema path
    kind_iff (float t) schema path = number_iff (real t) schema path
    kind_iff (str s) schema path = lengths_iff (count s) _ _ _ _
    kind_iff (array xs) schema path = array_iff xs schema path (λ items. items_iff xs items path 0)
    kind_iff (object ms) schema path =
        object_iff ms schema path (members_iff ms (properties schema) path)

    members_iff :
        (value : Members) (props : Members) (path : String)
        → (validate_members py value props path ≡ []) ↔ MembersConform py value props
    members_iff no_members props path = ground arith
    members_iff (member key v rest) props path =
        both _ _
          (sub_iff
            (λ sub.
              after_type py v sub (path ++ₛ ("." ++ₛ key))
                (validate_kind py v sub (path ++ₛ ("." ++ₛ key))))
            (λ sub. Admitted py v sub × ConformsInside py v sub)
            (λ sub.
              after_type_iff v sub (path ++ₛ ("." ++ₛ key))
                (validate_kind py v sub (path ++ₛ ("." ++ₛ key)))
                (kind_iff v sub (path ++ₛ ("." ++ₛ key))))
            (as_mapping (get props key)))
          (members_iff rest props path)

    items_iff :
        (xs : Items) (items : Members) (path : String) (index : ℕ)
        → (validate_items py xs items path index ≡ []) ↔ ItemsConform py xs items
    items_iff no_items items path index = ground arith
    items_iff (item x rest) items path index =
        both _ _ (after_type_iff x items _ _ (kind_iff x items _))
          (items_iff rest items path (suc index))

  pub validate_iff :
      (value : Json) (schema : Members) (path : String)
      → (validate py value schema path ≡ []) ↔ Conforms py value schema
  unfolding validate Conforms
  validate_iff value schema path = after_type_iff value schema path _ (kind_iff value schema path)
