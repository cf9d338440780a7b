-- ===== src/Domain/Json.antt =====
-- Python's `object` where it holds JSON: the values of `dict[str, object]` in the application.
use atlas_gateway.Common.{ℤ, String, Bool, Option, none, some, ◌=ₛ◌, if◌then◌else◌}

mutual
  pub data Json : Type 0 where
    null : Json
    bool : Bool → Json
    integer : ℤ → Json
    -- The text of a float.
    float : String → Json
    str : String → Json
    array : Items → Json
    object : Members → Json

  pub data Items : Type 0 where
    no_items : Items
    item : Json → Items → Items

  -- A dict in its order; its keys differ.
  pub data Members : Type 0 where
    no_members : Members
    member : (key : String) (value : Json) (rest : Members) → Members

-- `mapping.get(key)`.
unfoldable pub get : Members → String → Option Json
get no_members key = none
get (member k value rest) key = if k =ₛ key then some value else get rest key
