-- ===== src/Providers/Registry/Served.antt =====
-- app/providers/registry.py and app/repositories/seed.py: the models that have a provider, and the
-- aliases of the seed whose models have none.
use atlas_gateway.Chat.Ports.{RouteTarget}
use atlas_gateway.Routing.Aliases.{alias_seed, rows_from_seed}
use atlas_gateway.Providers.Registry.{
  resolve, when_set, openai_models, anthropic_models, google_models, Providers, when_set, Settings,
  put, put_google, put_all, Adapters, from_settings,
}
use atlas_gateway.Routing.Aliases as Aliases
use atlas_gateway.Routing.Aliases.{
  find, resolve_row, overrides_or_empty, target_of, override_str, non_empty_str,
}
use atlas_gateway.Domain.Json.{get}
use atlas_gateway.Common.{
  inl, inr, refl, sym, ap, subst, Result, err, refl, ok, [], =ₛ_iff, ◌||◌, arith, some,
  if◌then◌else◌, ◌∷◌, ◌⊎◌, none, ◌≡◌, ◌=ₛ◌, false, Bool, Option, List, String,
}

abbrev pub listed : List String → String → Bool
listed [] model = false
listed (m ∷ ms) model = (m =ₛ model) || listed ms model

-- The models of a route, or a text that is no model.
models_of : Result Aliases.Error RouteTarget → String × String
models_of (ok target) = (target.primary_model, target.fallback_model)
models_of (err e) = ("", "")

smart_models :
    (target : RouteTarget)
    → Aliases.resolve (rows_from_seed alias_seed) "smart" none ≡ ok target
    → (target.primary_model ≡ "claude-sonnet-4-6") × (target.fallback_model ≡ "gpt-4.1")
unfolding models_of Aliases.resolve rows_from_seed find resolve_row overrides_or_empty target_of
    override_str non_empty_str get
smart_models target e =
    let both : ◌≡◌ {A = String × String} (target.primary_model, target.fallback_model)
        ("claude-sonnet-4-6", "gpt-4.1") =
      sym (ap models_of e) in
    (ap (λ (x : String × String). x.0) both, ap (λ (x : String × String). x.1) both)

deep_models :
    (target : RouteTarget)
    → Aliases.resolve (rows_from_seed alias_seed) "deep" none ≡ ok target
    → (target.primary_model ≡ "claude-opus-4-8") × (target.fallback_model ≡ "gpt-4.1")
unfolding models_of Aliases.resolve rows_from_seed find resolve_row overrides_or_empty target_of
    override_str non_empty_str get
deep_models target e =
    let both : ◌≡◌ {A = String × String} (target.primary_model, target.fallback_model)
        ("claude-opus-4-8", "gpt-4.1") =
      sym (ap models_of e) in
    (ap (λ (x : String × String). x.0) both, ap (λ (x : String × String). x.1) both)

module _ {P : Type 0} where
  resolve-put :
      (d : Providers P) (model other : String) (p : P)
      → resolve (put model p d) other ≡ (if model =ₛ other then some p else resolve d other)
  unfolding resolve put
  resolve-put [] model other p = refl
  resolve-put ((m, q) ∷ rest) model other p =
      ground
        (arith, resolve-put rest model other p, =ₛ_iff m model, =ₛ_iff m other, =ₛ_iff model other)

  resolve-put_all :
      (models : List String) (d : Providers P) (other : String) (p : P)
      → resolve (put_all models p d) other
        ≡ (if listed models other then some p else resolve d other)
  unfolding put_all
  resolve-put_all [] d other p = refl
  resolve-put_all (m ∷ ms) d other p =
      ground (arith, resolve-put_all ms (put m p d) other p, resolve-put d m other p)

  -- A part of the registry that a text of the settings brings in.
  when_set-none :
      (o : Option String) (change : String → Providers P → Providers P) (d : Providers P)
      (model : String)
      → ((key : String) → resolve (change key d) model ≡ none)
      → resolve d model ≡ none
      → resolve (when_set o change d) model ≡ none
  unfolding when_set
  when_set-none none change d model changed before = before
  when_set-none (some key) change d model changed before = ground (arith, changed key)

  put_all-none :
      (models : List String) (d : Providers P) (model : String) (p : P)
      → listed models model ≡ false
      → resolve d model ≡ none
      → resolve (put_all models p d) model ≡ none
  put_all-none models d model p unlisted before = ground (arith, resolve-put_all models d model p)

  put_google-none :
      (google : Option (String → P)) (key : String) (d : Providers P) (model : String)
      → listed google_models model ≡ false
      → resolve d model ≡ none
      → resolve (put_google google key d) model ≡ none
  unfolding put_google
  put_google-none none key d model unlisted before = before
  put_google-none (some adapter) key d model unlisted before =
      put_all-none google_models d model (adapter key) unlisted before

  only_mock :
      (p : P) (model : String) → ("mock" =ₛ model) ≡ false → resolve (("mock", p) ∷ []) model ≡ none
  unfolding resolve
  only_mock p model e = ap (λ b. if b then some p else none) e

  -- A model that no list names has no provider.
  from_settings-none :
      (adapters : Adapters P) (s : Settings) (model : String)
      → ("mock" =ₛ model) ≡ false
      → listed anthropic_models model ≡ false
      → listed openai_models model ≡ false
      → listed s.ollama_models model ≡ false
      → listed google_models model ≡ false
      → resolve (from_settings adapters s) model ≡ none
  unfolding from_settings
  from_settings-none adapters s model not_mock a o l g =
      when_set-none s.google_api_key _ _ model
        (λ key. put_google-none adapters.google key _ model g with_ollama) with_ollama
    where
      with_mock : resolve (("mock", adapters.mock) ∷ []) model ≡ none
      with_mock = only_mock adapters.mock model not_mock

      with_anthropic :
          resolve
            (when_set s.anthropic_api_key
              (λ key. put_all anthropic_models (adapters.anthropic key))
              (("mock", adapters.mock) ∷ []))
            model
          ≡ none
      with_anthropic =
          when_set-none s.anthropic_api_key _ _ model
            (λ key. put_all-none anthropic_models _ model _ a with_mock) with_mock

      with_openai :
          resolve
            (when_set s.openai_api_key
              (λ key. put_all openai_models (adapters.openai key none))
              (when_set s.anthropic_api_key
                (λ key. put_all anthropic_models (adapters.anthropic key))
                (("mock", adapters.mock) ∷ [])))
            model
          ≡ none
      with_openai =
          when_set-none s.openai_api_key _ _ model
            (λ key. put_all-none openai_models _ model _ o with_anthropic) with_anthropic

      with_ollama :
          resolve
            (when_set s.ollama_base_url
              (λ url. put_all s.ollama_models (adapters.openai "ollama" (some url)))
              (when_set s.openai_api_key
                (λ key. put_all openai_models (adapters.openai key none))
                (when_set s.anthropic_api_key
                  (λ key. put_all anthropic_models (adapters.anthropic key))
                  (("mock", adapters.mock) ∷ []))))
            model
          ≡ none
      with_ollama =
          when_set-none s.ollama_base_url _ _ model
            (λ key. put_all-none s.ollama_models _ model _ l with_openai) with_openai

  -- The models that the code names are others than these three.
  seed_model-none :
      (adapters : Adapters P) (s : Settings) (model : String)
      → (model ≡ "claude-sonnet-4-6") ⊎ ((model ≡ "claude-opus-4-8") ⊎ (model ≡ "gpt-4.1"))
      → listed s.ollama_models model ≡ false
      → resolve (from_settings adapters s) model ≡ none
  unfolding anthropic_models openai_models google_models
  seed_model-none adapters s model (inl e) l =
      from_settings-none adapters s model (rw e refl) (rw e refl) (rw e refl) l (rw e refl)
  seed_model-none adapters s model (inr (inl e)) l =
      from_settings-none adapters s model (rw e refl) (rw e refl) (rw e refl) l (rw e refl)
  seed_model-none adapters s model (inr (inr e)) l =
      from_settings-none adapters s model (rw e refl) (rw e refl) (rw e refl) l (rw e refl)

  -- Whatever keys are set, if the models of Ollama do not name them, the registry has no provider of
  -- the models that the seed's aliases smart and deep stand for, neither of the primary model nor of
  -- the fallback.
  pub aliases_unserved :
      (adapters : Adapters P) (s : Settings) (alias : String) (target : RouteTarget)
      → (alias ≡ "smart") ⊎ (alias ≡ "deep")
      → Aliases.resolve (rows_from_seed alias_seed) alias none ≡ ok target
      → listed s.ollama_models target.primary_model ≡ false
      → listed s.ollama_models target.fallback_model ≡ false
      → (resolve (from_settings adapters s) target.primary_model ≡ none)
        × (resolve (from_settings adapters s) target.fallback_model ≡ none)
  aliases_unserved adapters s alias target (inl smart) routed p f =
      let (primary, fallback) = smart_models target (
        subst (λ x. Aliases.resolve (rows_from_seed alias_seed) x none ≡ ok target) smart routed) in
      (
        seed_model-none adapters s target.primary_model (inl primary) p,
        seed_model-none adapters s target.fallback_model (inr (inr fallback)) f,
      )
  aliases_unserved adapters s alias target (inr deep) routed p f =
      let (primary, fallback) =
        deep_models target (
          subst (λ x. Aliases.resolve (rows_from_seed alias_seed) x none ≡ ok target) deep
            routed) in
      (
        seed_model-none adapters s target.primary_model (inr (inl primary)) p,
        seed_model-none adapters s target.fallback_model (inr (inr fallback)) f,
      )
