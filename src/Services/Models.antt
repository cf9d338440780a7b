-- ===== src/Services/Models.antt =====
-- app/services/models_service.py: the list of the models.
use atlas_gateway.Routing.Aliases.{alias_seed}
use atlas_gateway.Providers.Registry.{Providers, names}
use atlas_gateway.Common.{refl, ap, [], ◌++◌, ◌≡◌, map, ◌∷◌, List, String}

-- `Model` and `ModelList` of app/domain/openai.py.
pub record Model : Type 0 where
  pub id : String
  pub owned_by : String
  pub object : String

pub record ModelList : Type 0 where
  pub data_list : List Model
  pub object : String

-- `_ALIASES` and `_ALIAS_OWNER`.
unfoldable pub aliases : List String
aliases = "smart" ∷ "deep" ∷ "fast" ∷ "balanced" ∷ "embed" ∷ []

unfoldable pub model : String → String → Model
model id owned_by = record { id = id; owned_by = owned_by; object = "model" }

unfoldable pub list_models : {P : Type 0} → Providers P → ModelList
unfolding aliases model names
list_models registry = record {
  data_list =
      map (λ name. model name name) (names registry) ++ map (λ alias. model alias "atlas") aliases;
  object = "list";
}

ids_of :
    (xs ys : List String)
    → map (λ m. m.id) (map (λ name. model name name) xs ++ map (λ alias. model alias "atlas") ys)
      ≡ (xs ++ ys)
unfolding model
ids_of [] [] = refl
ids_of [] (y ∷ ys) = ap (λ l. y ∷ l) (ids_of [] ys)
ids_of (x ∷ xs) ys = ap (λ l. x ∷ l) (ids_of xs ys)

-- The models that are listed are those of the registry, in its order, and the aliases of the seed.
pub list_models-names :
    {P : Type 0} (registry : Providers P)
    → map (λ m. m.id) (list_models registry).data_list
      ≡ (names registry ++ map (λ row. row.alias) alias_seed)
unfolding list_models aliases model
list_models-names registry = ids_of (names registry) aliases
