-- ===== src/Guardrails/SchemaRepair/Conforms.antt =====
-- app/guardrails/schema_repair.py: what its docs promise of the keywords, with no errors and no
-- texts.
use Prim.Native.String.{count}
use atlas_gateway.Common.{
  ℕ, ◌≤◌, String, ◌≡◌, ◌⊎◌, true, false, Option, some, List, [], ◌∷◌, ℤ, pos, negsuc,
}
use atlas_gateway.Domain.Json.{
  Json, null, bool, integer, float, str, array, object, Items, no_items, item, Members, no_members,
  member, get,
}
use atlas_gateway.Guardrails.SchemaRepair.Keywords.{
  Python, Number, whole, real, texts, item_count, has, as_mapping, as_int, as_number, less, same,
}
use atlas_gateway.Guardrails.SchemaRepair.Validate.{properties}

-- The names of the types that a value has.
unfoldable pub HasType : Json → String → Type 0
HasType null name = name ≡ "null"
HasType (bool b) name = name ≡ "boolean"
HasType (integer z) name = (name ≡ "number") ⊎ (name ≡ "integer")
HasType (float t) name = name ≡ "number"
HasType (str s) name = name ≡ "string"
HasType (array xs) name = name ≡ "array"
HasType (object ms) name = name ≡ "object"

unfoldable pub HasSomeType : Json → List String → Type 0
unfolding HasType
HasSomeType value [] = ⊥
HasSomeType value (name ∷ names) = HasType value name ⊎ HasSomeType value names

-- `type` is a name or a list of names.
unfoldable pub Typed : Json → Option Json → Type 0
unfolding HasType HasSomeType texts
Typed value (some (str name)) = HasType value name
Typed value (some (array types)) = HasSomeType value (texts types)
Typed value _ = Unit

unfoldable pub AtMost : ℤ → ℤ → Type 0
AtMost (pos a) (pos b) = a ≤ b
AtMost (pos a) (negsuc b) = ⊥
AtMost (negsuc a) (pos b) = Unit
AtMost (negsuc a) (negsuc b) = b ≤ a

-- What holds of the limit that a keyword gives, if it gives one.
unfoldable pub Limited : {N : Type 0} → (Json → Option N) → (N → Type 0) → Option Json → Type 0
Limited {N = N} read Keeps found =
    (limit : Json) (n : N) → found ≡ some limit → read limit ≡ some n → Keeps n

-- A length between the limits of two keywords.
unfoldable pub Between : ℕ → Option Json → Option Json → Type 0
unfolding Limited AtMost as_int
Between n least most =
    Limited as_int (λ z. AtMost z (pos n)) least × Limited as_int (λ z. AtMost (pos n) z) most

unfoldable pub HasFields : Members → Items → Type 0
unfolding has
HasFields value no_items = Unit
HasFields value (item (str field) rest) = (has value field ≡ true) × HasFields value rest
HasFields value (item _ rest) = HasFields value rest

unfoldable pub Required : Members → Option Json → Type 0
unfolding HasFields
Required value (some (array fields)) = HasFields value fields
Required value _ = Unit

unfoldable pub KeysIn : Members → Members → Type 0
unfolding has
KeysIn props no_members = Unit
KeysIn props (member key v rest) = (has props key ≡ true) × KeysIn props rest

unfoldable pub Closed : Members → Members → Option Json → Type 0
unfolding KeysIn
Closed props value (some (bool false)) = KeysIn props value
Closed props value _ = Unit

module _ (py : Python) where
  unfoldable pub EqualToOne : Json → Items → Type 0
  unfolding same
  EqualToOne value no_items = ⊥
  EqualToOne value (item x rest) = (same py value x ≡ true) ⊎ EqualToOne value rest

  unfoldable pub Enumerated : Json → Option Json → Type 0
  unfolding EqualToOne
  Enumerated value (some (array values)) = EqualToOne value values
  Enumerated value _ = Unit

  -- Neither below `minimum` nor above `maximum`, which a float that is not a number never is.
  unfoldable pub InRange : Number → Members → Type 0
  unfolding Limited as_number less get
  InRange x schema =
      Limited as_number (λ n. less py x n ≡ false) (get schema "minimum")
      × Limited as_number (λ n. less py n x ≡ false) (get schema "maximum")

  -- The keywords for values of every kind.
  unfoldable pub Admitted : Json → Members → Type 0
  unfolding Typed Enumerated get
  Admitted value schema = Typed value (get schema "type") × Enumerated value (get schema "enum")

  unfoldable mutual
    unfolding Admitted InRange Between Required Closed properties as_mapping get item_count

    pub ConformsInside : Json → Members → Type 0
    ConformsInside (str s) schema =
        Between (count s) (get schema "minLength") (get schema "maxLength")
    ConformsInside (integer z) schema = InRange (whole z) schema
    ConformsInside (float t) schema = InRange (real t) schema
    ConformsInside (object value) schema =
        Required value (get schema "required")
        × (MembersConform value (properties schema)
            × Closed (properties schema) value (get schema "additionalProperties"))
    ConformsInside (array xs) schema =
        Between (item_count xs) (get schema "minItems") (get schema "maxItems")
        × ((items : Members) → as_mapping (get schema "items") ≡ some items → ItemsConform xs items)
    ConformsInside _ schema = Unit

    -- A value whose key has a schema of its own keeps to it.
    pub MembersConform : Members → Members → Type 0
    MembersConform no_members props = Unit
    MembersConform (member key v rest) props =
        ((sub_schema : Members)
          → as_mapping (get props key) ≡ some sub_schema
          → Admitted v sub_schema × ConformsInside v sub_schema)
        × MembersConform rest props

    pub ItemsConform : Items → Members → Type 0
    ItemsConform no_items items = Unit
    ItemsConform (item x rest) items =
        (Admitted x items × ConformsInside x items) × ItemsConform rest items

  unfoldable pub Conforms : Json → Members → Type 0
  unfolding Admitted ConformsInside
  Conforms value schema = Admitted value schema × ConformsInside value schema
