-- ===== src/Services/Embeddings.antt =====
-- app/services/embeddings_service.py: the embeddings of the texts of a request.
use atlas_gateway.Providers.Registry.{Providers, resolve}
use atlas_gateway.Domain.Messages.{Usage}
use atlas_gateway.Common.{
  refl, none, ap, ◌≡◌, suc, some, [], ◌∷◌, Action, map, ok, err, ℕ, List, Result, Option, String,
}

-- A batch, or one text.
pub data Input : Type 0 where
  one : String → Input
  batch : List String → Input

-- The types of app/domain/openai.py and `EmbeddingResult` of app/domain/messages.py; `F` are floats.
pub record EmbeddingRequest : Type 0 where
  pub model : String
  pub input : Input

pub record EmbeddingData (F : Type 0) : Type 0 where
  pub index : ℕ
  pub embedding : List F
  pub object : String

pub record EmbeddingUsage : Type 0 where
  pub prompt_tokens : ℕ
  pub total_tokens : ℕ

pub record EmbeddingResponse (F : Type 0) : Type 0 where
  pub data_list : List (EmbeddingData F)
  pub model : String
  pub usage : EmbeddingUsage

pub record EmbeddingResult (F : Type 0) : Type 0 where
  pub model : String
  pub embeddings : List (List F)
  pub usage : Usage

-- `Provider.embed`, with the model and the texts.
abbrev pub Embedder : Type 0 → Type 0 → Type 0 → Type 0
Embedder F W E = String → List String → Action W E (EmbeddingResult F)

-- `UnknownModelError`, or what the provider raises.
pub data Error (E : Type 0) : Type 0 where
  unknown_model : String → Error E
  provider_error : E → Error E

unfoldable pub inputs : EmbeddingRequest → List String
inputs req = elim req.input [ one text ↦ text ∷ [] | batch texts ↦ texts ]

module _ {F : Type 0} where
  -- `enumerate`, from an index.
  unfoldable pub enumerated : ℕ → List (List F) → List (EmbeddingData F)
  enumerated index [] = []
  enumerated index (vector ∷ rest) =
      record { index = index; embedding = vector; object = "embedding" }
      ∷ enumerated (suc index) rest

  unfoldable pub to_response : EmbeddingResult F → EmbeddingResponse F
  unfolding enumerated
  to_response result = record {
    data_list = enumerated 0 result.embeddings;
    model = result.model;
    usage = record {
      prompt_tokens = result.usage.input_tokens;
      total_tokens = result.usage.input_tokens;
    };
  }

  module _ {W E : Type 0} where
    unfoldable pub answered :
        Result E (EmbeddingResult F) → W → Result (Error E) (EmbeddingResponse F) × W
    unfolding to_response
    answered (ok result) w = (ok (to_response result), w)
    answered (err e) w = (err (provider_error e), w)

    -- With the provider that the registry has for the model.
    unfoldable pub embed_with :
        Option (Embedder F W E) → EmbeddingRequest → W → Result (Error E) (EmbeddingResponse F) × W
    unfolding answered inputs
    embed_with none req w = (err (unknown_model req.model), w)
    embed_with (some embedder) req w =
        let (result, w') = embedder req.model (inputs req) w in answered result w'

    unfoldable pub embed :
        Providers (Embedder F W E)
        → EmbeddingRequest
        → W
        → Result (Error E) (EmbeddingResponse F) × W
    unfolding embed_with resolve
    embed registry req w = embed_with (resolve registry req.model) req w

  -- The numbers from `start`, one for each vector.
  abbrev count_up : ℕ → List (List F) → List ℕ
  count_up start [] = []
  count_up start (v ∷ vs) = start ∷ count_up (suc start) vs

  -- The vectors of a response are those of the provider in their order, and their indices count up.
  pub enumerated_lem :
      (start : ℕ) (vectors : List (List F))
      → (map (λ d. d.embedding) (enumerated start vectors) ≡ vectors)
        × (map (λ d. d.index) (enumerated start vectors) ≡ count_up start vectors)
  unfolding enumerated
  enumerated_lem start [] = (refl, refl)
  enumerated_lem start (v ∷ vs) =
      let (same, indices) = enumerated_lem (suc start) vs in
      (ap (λ l. v ∷ l) same, ap (λ l. start ∷ l) indices)
