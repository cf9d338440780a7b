-- ===== src/Providers/Registry/Tests.antt =====
-- A registry with every key set.
use atlas_gateway.Domain.Json.{get}
use atlas_gateway.Providers.Registry.Served.{aliases_unserved}
use atlas_gateway.Chat.Ports.{RouteTarget}
use atlas_gateway.Routing.Aliases as Aliases
use atlas_gateway.Common.{ok, refl, inl, [], ◌∷◌, none, some, ◌≡◌, String}
use atlas_gateway.Providers.Registry.{
  default_google_models, default_openai_models, default_anthropic_models, default_providers,
  google_models, openai_models, anthropic_models, put_google, put, put_all, when_set, from_settings,
  Settings, Adapters, resolve,
}
use atlas_gateway.Routing.Aliases.{
  alias_seed, non_empty_str, override_str, target_of, overrides_or_empty, resolve_row,
  rows_from_seed, find,
}

abbrev adapters : Adapters String
adapters = record {
  mock = "mock adapter";
  anthropic = λ key. "anthropic adapter";
  openai = λ key url. "openai adapter";
  google = some (λ key. "google adapter");
}

abbrev all_keys : Settings
all_keys = record {
  anthropic_api_key = some "a";
  openai_api_key = some "o";
  google_api_key = some "g";
  ollama_base_url = some "http";
  ollama_models = "llama3" ∷ [];
}

gemini_served : resolve (from_settings adapters all_keys) "gemini-2.5-pro" ≡ some "google adapter"
unfolding resolve from_settings when_set put_all put put_google anthropic_models openai_models
    google_models
gemini_served = refl

llama_served : resolve (from_settings adapters all_keys) "llama3" ≡ some "openai adapter"
unfolding resolve from_settings when_set put_all put put_google anthropic_models openai_models
    google_models
llama_served = refl

abbrev smart_target : RouteTarget
smart_target = record {
  provider = "anthropic";
  primary_model = "claude-sonnet-4-6";
  fallback_model = "gpt-4.1";
}

smart_routed : Aliases.resolve (rows_from_seed alias_seed) "smart" none ≡ ok smart_target
unfolding Aliases.resolve rows_from_seed find resolve_row overrides_or_empty target_of override_str
    non_empty_str get
smart_routed = refl

aliases_unserved_example :
    (resolve (from_settings adapters all_keys) "claude-sonnet-4-6" ≡ none)
    × (resolve (from_settings adapters all_keys) "gpt-4.1" ≡ none)
aliases_unserved_example =
    aliases_unserved adapters all_keys "smart" smart_target (inl refl) smart_routed refl refl

-- The default registry has the model that the other has not.
sonnet_by_default :
    resolve {P = String}
      (default_providers
        (record {
          mock = "mock adapter";
          anthropic = λ key. "anthropic adapter";
          openai = λ key. "openai adapter";
          google = λ key. "google adapter";
        })
        all_keys)
      "claude-sonnet-4-6"
    ≡ some "anthropic adapter"
unfolding resolve default_providers when_set put_all put default_anthropic_models
    default_openai_models default_google_models
sonnet_by_default = refl
