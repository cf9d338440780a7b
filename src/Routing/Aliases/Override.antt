-- ===== src/Routing/Aliases/Override.antt =====
-- app/routing/aliases.py: what an override can change in a route.
use atlas_gateway.Common.{
  String, ◌≡◌, ◌≢◌, refl, ap, ◌=ₛ◌, =ₛ-ne, ne_of_test, inl, inr, Bool-cases, Option, none, some, ok,
}
use atlas_gateway.Domain.Json.{
  Json, str, null, bool, integer, float, array, object, Members, member, get,
}
use atlas_gateway.Chat.Ports.{RouteTarget}
use atlas_gateway.Routing.Aliases.{
  AliasRow, Rows, find, non_empty_str, override_str, target_of, resolve, resolve_row,
  overrides_or_empty,
}

-- A row all of whose texts say something, and such a target.
abbrev pub IsFull : AliasRow → Type 0
IsFull row = (row.provider ≢ "") × (row.primary_model_id ≢ "") × (row.fallback_model_id ≢ "")

abbrev pub IsRoute : RouteTarget → Type 0
IsRoute t = (t.provider ≢ "") × (t.primary_model ≢ "") × (t.fallback_model ≢ "")

non_empty :
    (value : Option Json) (default : String) → default ≢ "" → non_empty_str value default ≢ ""
unfolding non_empty_str
non_empty none d h = h
non_empty (some null) d h = h
non_empty (some (bool _)) d h = h
non_empty (some (integer _)) d h = h
non_empty (some (float _)) d h = h
non_empty (some (array _)) d h = h
non_empty (some (object _)) d h = h
non_empty (some (str v)) d h = elim (Bool-cases (v =ₛ "")) [
  | inl e ↦ rw e h
  | inr e ↦ rw e (ne_of_test v "" e)
]

target_of-IsRoute : (o : Members) (row : AliasRow) → IsFull row → IsRoute (target_of o row)
unfolding target_of override_str
target_of-IsRoute o row (p, m, f) = (
  non_empty (get o "provider") _ p,
  non_empty (get o "primary_model_id") _ m,
  non_empty (get o "fallback_model_id") _ f,
)

-- An alias with a row that has no empty text resolves, whatever the overrides are, to a target
-- that has none.
pub resolve-IsRoute :
    (rows : Rows) (alias : String) (o : Option Members) (row : AliasRow)
    → find rows alias ≡ some row
    → IsFull row
    → (t : RouteTarget) × (resolve rows alias o ≡ ok t) × IsRoute t
unfolding resolve resolve_row
resolve-IsRoute rows alias o row e h =
    (target_of (overrides_or_empty o) row, ap (resolve_row alias o) e, target_of-IsRoute _ row h)

-- An entry with another key.
get_other : (o : Members) (k key : String) (v : Json) → k ≢ key → get (member k v o) key ≡ get o key
unfolding get
get_other o k key v h = rw (=ₛ-ne k key h) refl

target_of-member :
    (o : Members) (k : String) (v : Json) (row : AliasRow)
    → k ≢ "provider"
    → k ≢ "primary_model_id"
    → k ≢ "fallback_model_id"
    → target_of (member k v o) row ≡ target_of o row
unfolding target_of override_str
target_of-member o k v row p m f =
    rw
      (
        get_other o k "provider" v p,
        get_other o k "primary_model_id" v m,
        get_other o k "fallback_model_id" v f,
      )
      refl

-- An override with a key that is not one of the three changes nothing.
pub other_key_ignored :
    (rows : Rows) (alias : String) (o : Members) (k : String) (v : Json)
    → k ≢ "provider"
    → k ≢ "primary_model_id"
    → k ≢ "fallback_model_id"
    → resolve rows alias (some (member k v o)) ≡ resolve rows alias (some o)
unfolding resolve resolve_row overrides_or_empty
other_key_ignored rows alias o k v p m f = same_row (find rows alias)
  where
    same_row :
        (row : Option AliasRow)
        → resolve_row alias (some (member k v o)) row ≡ resolve_row alias (some o) row
    same_row none = refl
    same_row (some row) = ap ok (target_of-member o k v row p m f)
