-- ===== src/Routing/Aliases.antt =====
-- app/routing/aliases.py and the rows of app/repositories/seed.py. Prices are in cents.
pub mod Override
mod Tests
use atlas_gateway.Common.{
  ℕ, String, Bool, Option, none, some, List, [], ◌∷◌, map, ◌=ₛ◌, if◌then◌else◌, Result, ok, err,
}
use atlas_gateway.Domain.Json.{Json, str, Members, no_members, get}
use atlas_gateway.Chat.Ports.{RouteTarget}

pub record AliasSeed : Type 0 where
  pub alias : String
  pub primary_model_id : String
  pub fallback_model_id : String
  pub provider : String
  pub in_price_per_1m : ℕ
  pub out_price_per_1m : ℕ

abbrev pub alias_seed : List AliasSeed
alias_seed =
    record {
      alias = "smart";
      primary_model_id = "claude-sonnet-4-6";
      fallback_model_id = "gpt-4.1";
      provider = "anthropic";
      in_price_per_1m = 300;
      out_price_per_1m = 1500;
    }
    ∷ record {
      alias = "deep";
      primary_model_id = "claude-opus-4-8";
      fallback_model_id = "gpt-4.1";
      provider = "anthropic";
      in_price_per_1m = 500;
      out_price_per_1m = 2500;
    }
    ∷ record {
      alias = "fast";
      primary_model_id = "claude-haiku-4-5";
      fallback_model_id = "gpt-4.1-mini";
      provider = "anthropic";
      in_price_per_1m = 100;
      out_price_per_1m = 500;
    }
    ∷ record {
      alias = "balanced";
      primary_model_id = "gemini-2.5-pro";
      fallback_model_id = "gemini-2.5-pro";
      provider = "google";
      in_price_per_1m = 0;
      out_price_per_1m = 0;
    }
    ∷ record {
      alias = "embed";
      primary_model_id = "text-embedding-3-large";
      fallback_model_id = "text-embedding-3-large";
      provider = "openai";
      in_price_per_1m = 0;
      out_price_per_1m = 0;
    }
    ∷ []

-- `AliasRow`, and `_SeedRow` which is one.
pub record AliasRow : Type 0 where
  pub provider : String
  pub primary_model_id : String
  pub fallback_model_id : String

-- The mapping of the rows, its keys in order.
abbrev pub Rows : Type 0
Rows = List (String × AliasRow)

unfoldable pub find : Rows → String → Option AliasRow
find [] alias = none
find ((a, row) ∷ rows) alias = if a =ₛ alias then some row else find rows alias

unfoldable pub rows_from_seed : List AliasSeed → Rows
rows_from_seed seed =
    map
      (λ row. (
        row.alias,
        record {
          provider = row.provider;
          primary_model_id = row.primary_model_id;
          fallback_model_id = row.fallback_model_id;
        },
      ))
      seed

pub data Error : Type 0 where
  unknown_alias : (alias : String) → Error

-- `_override_str`, with the value that the overrides have.
unfoldable pub non_empty_str : Option Json → String → String
non_empty_str (some (str value)) default = if value =ₛ "" then default else value
non_empty_str _ default = default

unfoldable pub override_str : Members → String → String → String
unfolding non_empty_str
override_str overrides key default = non_empty_str (get overrides key) default

-- `per_key_overrides or {}`.
unfoldable pub overrides_or_empty : Option Members → Members
overrides_or_empty none = no_members
overrides_or_empty (some m) = m

unfoldable pub target_of : Members → AliasRow → RouteTarget
unfolding override_str
target_of overrides row = record {
  provider = override_str overrides "provider" row.provider;
  primary_model = override_str overrides "primary_model_id" row.primary_model_id;
  fallback_model = override_str overrides "fallback_model_id" row.fallback_model_id;
}

-- `resolve` with the row that was found.
unfoldable pub resolve_row : String → Option Members → Option AliasRow → Result Error RouteTarget
unfolding overrides_or_empty
resolve_row alias overrides none = err (unknown_alias alias)
resolve_row alias overrides (some row) = ok (target_of (overrides_or_empty overrides) row)

-- `AliasResolver.resolve`.
unfoldable pub resolve : Rows → String → Option Members → Result Error RouteTarget
unfolding find resolve_row
resolve rows alias per_key_overrides = resolve_row alias per_key_overrides (find rows alias)
