-- ===== src/Registry/Resolver/Tests.antt =====
-- A prompt with one version, whose template takes an integer `n`.
use atlas_gateway.Common.{String, ◌≡◌, refl, ◌↔◌, ◌⊎◌, true, some, Result, ok, err, pos}
use atlas_gateway.Domain.Json.{
  Json, bool, integer, str, array, object, item, no_items, Members, member, no_members, get,
}
use atlas_gateway.Registry.Resolver.{
  PromptVersionRow, Repository, ResolvedPrompt, RenderError, must_be, parse_ref,
}
use atlas_gateway.Registry.Resolver.Schema as Schema
use atlas_gateway.Registry.Resolver.Schema.{validate_params}
use atlas_gateway.Registry.Resolver.Valid.{Satisfies, validate_params_iff}
use atlas_gateway.Registry.Resolver.Resolve as Resolve
use atlas_gateway.Registry.Resolver.Resolve.{resolve, Rendered, resolve-Rendered, params_or_empty}

abbrev text_of : Json → String
text_of j = "?"

abbrev counting : Members
counting = member "required" (array (item (str "n") no_items)) (
    member "properties"
      (object (member "n" (object (member "type" (str "integer") no_members)) no_members))
      no_members)

abbrev five : Members
five = member "n" (integer (pos 5)) no_members

abbrev yes : Members
yes = member "n" (bool true) no_members

-- A bool is no integer.
validate_yes : validate_params text_of counting yes ≡ err (must_be "n" "integer")
unfolding validate_params get Schema.has_key Schema.keys_without Schema.refuses Schema.kind_of
validate_yes = refl

validate_five : validate_params text_of counting five ≡ ok tt
unfolding validate_params get Schema.has_key Schema.keys_without Schema.refuses Schema.kind_of
validate_five = refl

validate_params_iff_example :
    (validate_params text_of counting five ≡ ok tt)
    ↔ ((counting ≡ no_members) ⊎ Satisfies text_of counting five)
validate_params_iff_example = validate_params_iff text_of counting five

abbrev first : PromptVersionRow
first = record {
  id = "v1";
  semver = "1.0.0";
  template = "count to {{ n }}";
  params_schema = counting;
  model_alias = some "smart";
}

abbrev prompts : Repository
prompts = record {
  get_production_version = λ name. some first;
  get_version_by_semver = λ name semver. some first;
}

abbrev count_to : String → Members → Result RenderError String
count_to template params = ok "count to 5"

abbrev counted : ResolvedPrompt
counted = record {
  prompt_version_id = "v1";
  rendered = "count to 5";
  model_alias = some "smart";
  params_schema = counting;
}

resolve_counter : resolve prompts count_to text_of "c@production" (some five) ≡ ok counted
unfolding resolve parse_ref Resolve.find_version validate_params get Schema.has_key
    Schema.keys_without Schema.refuses Schema.kind_of Resolve.resolve_version
resolve_counter = refl
