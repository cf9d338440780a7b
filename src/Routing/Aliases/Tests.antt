-- ===== src/Routing/Aliases/Tests.antt =====
-- The alias resolver over the seed.
use atlas_gateway.Common.{◌≡◌, refl, none, some, ok, err}
use atlas_gateway.Domain.Json.{str, Members, no_members, member, get}
use atlas_gateway.Routing.Aliases.{
  AliasRow, Rows, alias_seed, rows_from_seed, find, resolve, unknown_alias, target_of,
}
use atlas_gateway.Routing.Aliases.Override.{IsFull}

abbrev seed_rows : Rows
seed_rows = rows_from_seed alias_seed

abbrev smart : AliasRow
smart = record {
  provider = "anthropic";
  primary_model_id = "claude-sonnet-4-6";
  fallback_model_id = "gpt-4.1";
}

-- A tenant that pins the model, with an empty provider that is ignored.
abbrev pinned : Members
pinned = member "primary_model_id" (str "claude-opus-4-8") (member "provider" (str "") no_members)

find-smart : find seed_rows "smart" ≡ some smart
unfolding rows_from_seed find
find-smart = refl

resolve_pinned :
    resolve seed_rows "smart" (some pinned)
    ≡ ok (record {
      provider = "anthropic";
      primary_model = "claude-opus-4-8";
      fallback_model = "gpt-4.1";
    })
unfolding rows_from_seed resolve target_of get
resolve_pinned = refl

resolve_unknown : resolve seed_rows "huge" none ≡ err (unknown_alias "huge")
unfolding rows_from_seed resolve
resolve_unknown = refl

smart-IsFull : IsFull smart
smart-IsFull = ((λ e. cc), (λ e. cc), (λ e. cc))
