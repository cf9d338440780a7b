-- ===== src/Api/Deps/Keys.antt =====
-- app/api/deps.py: whose key is accepted.
use atlas_gateway.Common.{
  refl, ◌=ₛ◌, false, Bool-cases, [], none, ◌∷◌, =ₛ_iff, inl, Any, arith, inr, ◌⊎◌, ok, ◌↔◌, some,
  Option, true, Bool, ◌≡◌, List, String,
}
use atlas_gateway.Api.Deps.{Settings, Credentials, is_valid, member_of, require_api_key}

member_of_iff :
    (ks : List String) (key : String) → (member_of ks key ≡ true) ↔ Any (λ k. k ≡ key) ks
unfolding member_of
member_of_iff [] key = ((λ e. ground arith), λ never. absurd never)
member_of_iff (k ∷ ks) key = ground (arith, =ₛ_iff k key, member_of_iff ks key)

-- The key is active in the database, if it is asked, and else it is one of the settings.
unfoldable pub IsActive :
    {Pool : Type 0} → Settings → (Pool → String → Bool) → Option Pool → String → Type 0
IsActive {Pool = Pool} s key_is_active pool key =
    ((p : Pool) × (pool ≡ some p) × (s.auth_db_enabled ≡ true) × (key_is_active p key ≡ true))
    ⊎ (((pool ≡ none) ⊎ (s.auth_db_enabled ≡ false)) × Any (λ k. k ≡ key) s.api_keys)

is_valid-IsActive :
    {Pool : Type 0} (s : Settings) (key_is_active : Pool → String → Bool) (pool : Option Pool)
    (key : String)
    → (is_valid s key_is_active pool key ≡ true) ↔ IsActive s key_is_active pool key
unfolding is_valid IsActive
is_valid-IsActive s key_is_active none key =
    let listed = member_of_iff s.api_keys key in
    (
      λ e. inr (inl refl, listed.0 e),
      λ this. elim this [
        | inl (p, no_pool, on, active) ↦ absurd (ground arith)
        | inr (off, mine) ↦ listed.1 mine
      ],
    )
is_valid-IsActive s key_is_active (some p) key =
    let listed = member_of_iff s.api_keys key in
    (
      λ e. elim (Bool-cases s.auth_db_enabled) [
        | inl on ↦ inl (p, refl, on, ground arith)
        | inr off ↦ inr (inr off, listed.0 (ground arith))
      ],
      λ this. elim this [
        | inl (q, same, on, active) ↦ let asked : key_is_active p key ≡ true = cc in rw on asked
        | inr (inl no_pool, mine) ↦ absurd (ground arith)
        | inr (inr off, mine) ↦ rw off (listed.1 mine)
      ],
    )

accepted_iff :
    {Pool : Type 0} (lower strip : String → String) (s : Settings)
    (key_is_active : Pool → String → Bool) (pool : Option Pool) (given : Option Credentials)
    (key : String)
    → (require_api_key lower strip s key_is_active pool given ≡ ok key) ↔ (
        (c : Credentials) × (given ≡ some c)
        × (lower c.scheme ≡ "bearer")
        × (strip c.credentials ≡ key)
        × (is_valid s key_is_active pool key ≡ true))
unfolding require_api_key
accepted_iff lower strip s key_is_active pool none key = ground arith
accepted_iff lower strip s key_is_active pool (some c) key =
    let bearer = =ₛ_iff (lower c.scheme) "bearer" in
    (
      λ e. (c, refl, ground arith, ground arith, ground arith),
      λ (c', same, scheme, this, active).
          let is_bearer : (lower c.scheme =ₛ "bearer") ≡ true = bearer.1 cc in
          let valid : is_valid s key_is_active pool (strip c.credentials) ≡ true = cc in
          let stripped : strip c.credentials ≡ key = cc in rw (is_bearer, valid, stripped) refl,
    )

-- A key is accepted exactly if the credentials are of the bearer scheme and the key, stripped, is
-- active in the database if there is one and the settings enable it, or else is one of the keys of
-- the settings; what is returned is this key.
pub require_api_key_iff :
    {Pool : Type 0} (lower strip : String → String) (s : Settings)
    (key_is_active : Pool → String → Bool) (pool : Option Pool) (given : Option Credentials)
    (key : String)
    → (require_api_key lower strip s key_is_active pool given ≡ ok key) ↔ (
        (c : Credentials) × (given ≡ some c)
        × (lower c.scheme ≡ "bearer")
        × (strip c.credentials ≡ key)
        × IsActive s key_is_active pool key)
require_api_key_iff lower strip s key_is_active pool given key =
    let whole = accepted_iff lower strip s key_is_active pool given key in
    let valid = is_valid-IsActive s key_is_active pool key in
    (
      λ e. let (c, same, scheme, stripped, v) = whole.0 e in (c, same, scheme, stripped, valid.0 v),
      λ (c, same, scheme, stripped, a). whole.1 (c, same, scheme, stripped, valid.1 a),
    )
