-- ===== src/Registry/Resolver/Valid.antt =====
-- app/registry/resolver.py: which params `_validate_params` accepts.
use atlas_gateway.Common.{
  String, ◌≡◌, refl, subst, ◌≢◌, ◌↔◌, ◌⊎◌, inl, inr, Bool, true, false, Bool-cases, ◌=ₛ◌, =ₛ_iff,
  Option, none, some, List, [], ◌∷◌, if◌then◌else◌, Result, ok, err, arith,
}
use atlas_gateway.Domain.Json.{
  Json, bool, integer, float, str, array, object, Items, no_items, item, Members, no_members,
  member, get,
}
use atlas_gateway.Registry.Resolver.{Reason, must_be}
use atlas_gateway.Registry.Resolver.Schema.{
  Kind, string_kind, number_kind, integer_kind, boolean_kind, object_kind, array_kind, kind_of,
  is_instance, dict_or_empty, list_or_empty, declared_type, is_true, has_key, keys_without,
  key_text, missing, refuses, turn, check_types, check_unknown, check_missing, validate_params,
}

-- A value is of a kind: a bool is of its own kind alone.
abbrev pub Of : Json → Kind → Type 0
Of (str _) string_kind = Unit
Of (integer _) number_kind = Unit
Of (float _) number_kind = Unit
Of (integer _) integer_kind = Unit
Of (bool _) boolean_kind = Unit
Of (object _) object_kind = Unit
Of (array _) array_kind = Unit
Of _ _ = ⊥

-- A type that is not known asks for nothing.
abbrev pub OfKind : Json → Option Kind → Type 0
OfKind v none = Unit
OfKind v (some k) = Of v k

abbrev pub OfType : Json → Option String → Type 0
OfType v none = Unit
OfType v (some declared) = OfKind v (kind_of declared)

abbrev pub IsEntry : String → Json → Members → Type 0
IsEntry k v no_members = ⊥
IsEntry k v (member j w rest) = ((j ≡ k) × (w ≡ v)) ⊎ IsEntry k v rest

abbrev pub IsItem : Json → Items → Type 0
IsItem j no_items = ⊥
IsItem j (item k rest) = (k ≡ j) ⊎ IsItem j rest

boolean_kind_iff : (d : String) → (kind_of d ≡ some boolean_kind) ↔ ((d =ₛ "boolean") ≡ true)
unfolding kind_of
boolean_kind_iff d = ((λ e. ground arith), (λ e. rw ((=ₛ_iff d "boolean").0 e) refl))

refuses_iff :
    (v : Json) (d : String) (k : Option Kind) → kind_of d ≡ k → (refuses v d k ≡ false) ↔ OfKind v k
unfolding refuses is_instance
refuses_iff v d none e = ((λ _. tt), (λ _. refl))
refuses_iff v d (some string_kind) e = let b = boolean_kind_iff d in ground arith
refuses_iff v d (some number_kind) e = let b = boolean_kind_iff d in ground arith
refuses_iff v d (some integer_kind) e = let b = boolean_kind_iff d in ground arith
refuses_iff v d (some boolean_kind) e = let b = boolean_kind_iff d in ground arith
refuses_iff v d (some object_kind) e = let b = boolean_kind_iff d in ground arith
refuses_iff v d (some array_kind) e = let b = boolean_kind_iff d in ground arith

raises_not : (why : Reason) → ◌≢◌ {A = Result Reason (Unit {0})} (err why) (ok tt)
raises_not why e = ground arith

turn_iff :
    (key : String) (v : Json) (declared : Option String) (rest : Result Reason (Unit {0}))
    → (turn key v declared rest ≡ ok tt) ↔ (OfType v declared × (rest ≡ ok tt))
unfolding turn
turn_iff key v none rest = ((λ e. (tt, e)), (λ h. h.1))
turn_iff key v (some d) rest =
    let r = refuses_iff v d (kind_of d) refl in
    elim (Bool-cases (refuses v d (kind_of d))) [
      | inl e ↦ (
        (λ h. absurd (
            raises_not (must_be key d)
              (subst (λ b. (if b then err (must_be key d) else rest) ≡ ok tt) e h))),
        (λ h. rw (r.1 h.0) h.1),
      )
      | inr e ↦ rw e ((λ h. (r.0 e, h)), (λ h. h.1))
    ]

-- Every value is of the type that the properties declare for its key.
abbrev pub AreTyped : Members → Members → Type 0
AreTyped properties no_members = Unit
AreTyped properties (member key v params) =
    OfType v (declared_type (get properties key)) × AreTyped properties params

check_types_iff :
    (properties params : Members)
    → (check_types properties params ≡ ok tt) ↔ AreTyped properties params
unfolding check_types
check_types_iff properties no_members = ((λ _. tt), (λ _. refl))
check_types_iff properties (member key v params) =
    let (to, from) =
      turn_iff key v (declared_type (get properties key)) (check_types properties params) in
    let (to', from') = check_types_iff properties params in
    ((λ e. ((to e).0, to' (to e).1)), (λ h. from (h.0, from' h.1)))

-- The keys of the first are keys of the second.
abbrev pub AreKeysOf : Members → Members → Type 0
AreKeysOf no_members other = Unit
AreKeysOf (member k v rest) other = (has_key other k ≡ true) × AreKeysOf rest other

keys_without_iff : (m other : Members) → (keys_without m other ≡ []) ↔ AreKeysOf m other
unfolding keys_without
keys_without_iff no_members other = ((λ _. tt), (λ _. refl))
keys_without_iff (member k v rest) other =
    let (to, from) = keys_without_iff rest other in ground arith

not_empty : {k : String} {v : Json} {rest : Members} → member k v rest ≢ no_members
not_empty e = ground arith

module _ (str_of : Json → String) where
  -- Every required key is a key of the params.
  abbrev pub AreGiven : Items → Members → Type 0
  AreGiven no_items params = Unit
  AreGiven (item k rest) params = (has_key params (key_text str_of k) ≡ true) × AreGiven rest params

  missing_iff :
      (required : Items) (params : Members)
      → (missing str_of required params ≡ []) ↔ AreGiven required params
  unfolding missing
  missing_iff no_items params = ((λ _. tt), (λ _. refl))
  missing_iff (item k rest) params = let (to, from) = missing_iff rest params in ground arith

  -- The params satisfy a schema that is not empty.
  abbrev pub Satisfies : Members → Members → Type 0
  Satisfies schema params =
      AreGiven (list_or_empty (get schema "required")) params
      × ((is_true (get schema "additionalProperties") ≡ true)
          ⊎ AreKeysOf params (dict_or_empty (get schema "properties")))
      × AreTyped (dict_or_empty (get schema "properties")) params

  check_unknown_iff :
      (extra : Bool) (properties params : Members) (unknown : List String)
      → (check_unknown extra properties params unknown ≡ ok tt)
        ↔ (((extra ≡ true) ⊎ (unknown ≡ [])) × AreTyped properties params)
  unfolding check_unknown
  check_unknown_iff true properties params unknown =
      let (to, from) = check_types_iff properties params in
      ((λ e. (inl refl, to e)), (λ h. from h.1))
  check_unknown_iff false properties params [] =
      let (to, from) = check_types_iff properties params in
      ((λ e. (inr refl, to e)), (λ h. from h.1))
  check_unknown_iff false properties params (k ∷ ks) =
      ((λ e. absurd (raises_not _ e)), (λ h. elim h.0 [ inl e ↦ cc | inr e ↦ cc ]))

  check_missing_iff :
      (schema properties params : Members) (lacking : List String)
      → (check_missing schema properties params lacking ≡ ok tt) ↔ (
          (lacking ≡ [])
          × ((is_true (get schema "additionalProperties") ≡ true) ⊎ AreKeysOf params properties)
          × AreTyped properties params)
  unfolding check_missing
  check_missing_iff schema properties params [] =
      let (to, from) =
        check_unknown_iff (is_true (get schema "additionalProperties")) properties params
          (keys_without params properties) in
      let (to', from') = keys_without_iff params properties in
      (
        (λ e. (refl, elim (to e).0 [ inl x ↦ inl x | inr x ↦ inr (to' x) ], (to e).1)),
        (λ h. from (elim h.1 [ inl x ↦ inl x | inr x ↦ inr (from' x) ], h.2)),
      )
  check_missing_iff schema properties params (k ∷ ks) =
      ((λ e. absurd (raises_not _ e)), (λ h. (let lacking = h.0 in cc)))

  -- Params pass the check exactly if the schema is empty, or they have every required key, have no
  -- key that is no property unless `additionalProperties` is true, and each of their values is of
  -- the type that its property declares, where a bool is no number and no integer, and a property
  -- that declares no known type accepts all values.
  pub validate_params_iff :
      (schema params : Members)
      → (validate_params str_of schema params ≡ ok tt)
        ↔ ((schema ≡ no_members) ⊎ Satisfies schema params)
  unfolding validate_params
  validate_params_iff no_members params = ((λ _. inl refl), (λ _. refl))
  validate_params_iff (member k v rest) params =
      let schema = member k v rest in
      let required = list_or_empty (get schema "required") in
      let (to, from) =
        check_missing_iff schema (dict_or_empty (get schema "properties")) params
          (missing str_of required params) in
      let (to', from') = missing_iff required params in
      (
        (λ e. inr (to' (to e).0, (to e).1, (to e).2)),
        (λ h. elim h [ inl e ↦ absurd (not_empty e) | inr s ↦ from (from' s.0, s.1, s.2) ]),
      )
