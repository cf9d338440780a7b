-- ===== src/Providers/Registry.antt =====
-- app/providers/registry.py: the provider of each model id.
pub mod Served
mod Tests
use atlas_gateway.Common.{◌=ₛ◌, none, if◌then◌else◌, [], List, Option, ◌∷◌, some, String}

-- A dict from model ids to providers: its keys in the order of insertion.
abbrev pub Providers : Type 0 → Type 0
Providers P = List (String × P)

-- `providers[model] = provider`.
unfoldable pub put : {P : Type 0} → String → P → Providers P → Providers P
put model p [] = (model, p) ∷ []
put model p ((m, q) ∷ rest) =
    let later = put model p rest in if m =ₛ model then (m, p) ∷ rest else (m, q) ∷ later

-- The loop over a provider's models.
unfoldable pub put_all : {P : Type 0} → List String → P → Providers P → Providers P
unfolding put
put_all [] p providers = providers
put_all (model ∷ models) p providers = put_all models p (put model p providers)

-- The settings that are read; a text is a key or an address.
pub record Settings : Type 0 where
  pub anthropic_api_key : Option String
  pub openai_api_key : Option String
  pub google_api_key : Option String
  pub ollama_base_url : Option String
  pub ollama_models : List String

-- The constructors of the adapters; that of Google is there if its package is installed.
pub record Adapters (P : Type 0) : Type 0 where
  pub mock : P
  pub anthropic : (api_key : String) → P
  pub openai : (api_key : String) (base_url : Option String) → P
  pub google : Option ((api_key : String) → P)

-- `if key := …`: a text that is there and is not empty.
unfoldable pub when_set : {A : Type 0} → Option String → (String → A → A) → A → A
when_set none change a = a
when_set (some key) change a = if key =ₛ "" then a else change key a

unfoldable pub anthropic_models : List String
anthropic_models =
    "claude-opus-4-5" ∷ "claude-sonnet-4-5" ∷ "claude-haiku-4-5" ∷ "claude-3-5-sonnet-20241022"
    ∷ "claude-3-5-haiku-20241022" ∷ "claude-3-opus-20240229" ∷ []

unfoldable pub openai_models : List String
openai_models =
    "gpt-4o" ∷ "gpt-4o-mini" ∷ "gpt-4-turbo" ∷ "gpt-3.5-turbo" ∷ "text-embedding-3-small"
    ∷ "text-embedding-3-large" ∷ "text-embedding-ada-002" ∷ []

unfoldable pub google_models : List String
google_models =
    "gemini-2.5-pro" ∷ "gemini-2.5-flash" ∷ "gemini-2.0-flash" ∷ "gemini-1.5-pro"
    ∷ "gemini-1.5-flash" ∷ "text-embedding-004" ∷ "gemini-embedding-exp-03-07" ∷ []

module _ {P : Type 0} where
  -- The part on Google, which an import error ends.
  unfoldable pub put_google : Option (String → P) → String → Providers P → Providers P
  unfolding put_all google_models
  put_google none key providers = providers
  put_google (some adapter) key providers = put_all google_models (adapter key) providers

  unfoldable pub from_settings : Adapters P → Settings → Providers P
  unfolding when_set put_all put_google anthropic_models openai_models
  from_settings adapters s = when_set s.google_api_key (put_google adapters.google) (
      when_set s.ollama_base_url
        (λ url. put_all s.ollama_models (adapters.openai "ollama" (some url)))
        (when_set s.openai_api_key (λ key. put_all openai_models (adapters.openai key none))
          (when_set s.anthropic_api_key (λ key. put_all anthropic_models (adapters.anthropic key))
            (("mock", adapters.mock) ∷ []))))

  unfoldable pub resolve : Providers P → String → Option P
  resolve [] model = none
  resolve ((m, p) ∷ rest) model = if m =ₛ model then some p else resolve rest model

  unfoldable pub names : Providers P → List String
  names [] = []
  names ((m, p) ∷ rest) = m ∷ names rest

-- `ANTHROPIC_MODELS`, `OPENAI_MODELS` and `GOOGLE_MODELS` of the adapters' modules.
unfoldable pub default_anthropic_models : List String
default_anthropic_models = "claude-opus-4-8" ∷ "claude-sonnet-4-6" ∷ "claude-haiku-4-5" ∷ []

unfoldable pub default_openai_models : List String
default_openai_models = "gpt-4.1" ∷ []

unfoldable pub default_google_models : List String
default_google_models = "gemini-2.5-pro" ∷ "gemini-2.5-flash" ∷ []

-- `from_api_key` of the three adapters, and the mock.
pub record DefaultAdapters (P : Type 0) : Type 0 where
  pub mock : P
  pub anthropic : (api_key : String) → P
  pub openai : (api_key : String) → P
  pub google : (api_key : String) → P

unfoldable pub default_providers : {P : Type 0} → DefaultAdapters P → Settings → Providers P
unfolding when_set put_all default_anthropic_models default_openai_models default_google_models
default_providers adapters s =
    when_set s.google_api_key (λ key. put_all default_google_models (adapters.google key))
      (when_set s.openai_api_key (λ key. put_all default_openai_models (adapters.openai key))
        (when_set s.anthropic_api_key
          (λ key. put_all default_anthropic_models (adapters.anthropic key))
          (("mock", adapters.mock) ∷ [])))
