-- ===== src/Registry/Resolver.antt =====
-- app/registry/resolver.py: from a prompt reference to a rendered prompt.
--
-- The repository and the Jinja2 environment are injected: `Repository` is the port, and `render` is
-- `from_string(template).render(**params)`.
pub mod Reference
pub mod Schema
pub mod Valid
pub mod Resolve
mod Tests
use Prim.Native.Char.{Char, code}
use Prim.Native.String.{[] as no_chars, ◌∷◌ as ◌∷ₛ◌}
use atlas_gateway.Common.{
  ℕ, String, Bool, true, false, not, ◌&&◌, Option, none, some, List, [], ◌∷◌, ◌==◌, ◌=ₛ◌,
  if◌then◌else◌, Result, ok, err,
}
use atlas_gateway.Domain.Json.{
  Json, null, bool, integer, float, str, array, object, Items, no_items, item, Members, no_members,
  member, get,
}

-- `PromptVersionRow`.
pub record PromptVersionRow : Type 0 where
  pub id : String
  pub semver : String
  pub template : String
  pub params_schema : Members
  pub model_alias : Option String

-- `PromptRepository`.
pub record Repository : Type 0 where
  pub get_production_version : String → Option PromptVersionRow
  pub get_version_by_semver : String → String → Option PromptVersionRow

pub record ResolvedPrompt : Type 0 where
  pub prompt_version_id : String
  pub rendered : String
  pub model_alias : Option String
  pub params_schema : Members

-- Why params do not satisfy a schema; the message sorts the keys.
pub data Reason : Type 0 where
  missing_required : List String → Reason
  unknown_params : List String → Reason
  must_be : (key declared : String) → Reason
  undefined : (message : String) → Reason

-- What rendering raises: `UndefinedError` with its text, or another exception of Jinja2.
pub data RenderError : Type 0 where
  undefined_error : String → RenderError
  template_error : RenderError

pub data Error : Type 0 where
  prompt_not_found : (ref : String) → Error
  invalid_prompt_ref : (ref : String) → Error
  params_validation : (ref : String) (reason : Reason) → Error
  render_failed : Error

abbrev pub production_label : String
production_label = "production"

-- The part before the first `@`, and the part behind it.
abbrev pub prepend : Char → Option (String × String) → Option (String × String)
prepend c none = none
prepend c (some (name, rest)) = some (c ∷ₛ name, rest)

unfoldable pub split_at_sign : String → Option (String × String)
split_at_sign no_chars = none
split_at_sign (c ∷ₛ s) =
    let rest = split_at_sign s in if code c == 64 then some ("", s) else prepend c rest

-- What `.+$` captures of a text: `.` is no newline, and `$` matches before a last one.
abbrev pub prepend_char : Char → Option String → Option String
prepend_char c none = none
prepend_char c (some s) = some (c ∷ₛ s)

abbrev pub if_last : String → Option String
if_last no_chars = some ""
if_last (c ∷ₛ s) = none

unfoldable pub line : String → Option String
line no_chars = some ""
line (c ∷ₛ s) = let rest = line s in if code c == 10 then if_last s else prepend_char c rest

-- `_parse_ref`, where the two parts are not empty.
unfoldable pub parts : String → String → Option String → Result Error (String × String)
parts ref name none = err (invalid_prompt_ref ref)
parts ref name (some label) =
    if name =ₛ ""
    then err (invalid_prompt_ref ref)
    else if label =ₛ ""
    then err (invalid_prompt_ref ref)
    else ok (name, label)

unfoldable pub parse_split : String → Option (String × String) → Result Error (String × String)
unfolding parts line
parse_split ref none = err (invalid_prompt_ref ref)
parse_split ref (some (name, rest)) = parts ref name (line rest)

unfoldable pub parse_ref : String → Result Error (String × String)
unfolding parse_split split_at_sign
parse_ref ref = parse_split ref (split_at_sign ref)
