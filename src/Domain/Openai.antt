-- ===== src/Domain/Openai.antt =====
-- app/domain/openai.py: the wire schema of chat completions. The fields with a constant (`object`)
-- are left out, and a number that is only passed on (`temperature`) is its text.
use atlas_gateway.Common.{ℕ, String, Option, List, Bool}
use atlas_gateway.Domain.Json.{Members}

pub record ChatMessage : Type 0 where
  pub role : String
  pub content : String

pub record ChatCompletionRequest : Type 0 where
  pub model : String
  pub messages : List ChatMessage
  pub max_tokens : Option ℕ
  pub temperature : Option String
  pub stream : Bool
  pub prompt_ref : Option String
  pub prompt_params : Option Members

pub record ResponseMessage : Type 0 where
  pub role : String
  pub content : String

pub record Choice : Type 0 where
  pub index : ℕ
  pub message : ResponseMessage
  pub finish_reason : String

pub record CompletionUsage : Type 0 where
  pub prompt_tokens : ℕ
  pub completion_tokens : ℕ
  pub total_tokens : ℕ

pub record ChatCompletionResponse : Type 0 where
  pub id : String
  pub created : ℕ
  pub model : String
  pub choices : List Choice
  pub usage : CompletionUsage

pub record ChoiceDelta : Type 0 where
  pub role : Option String
  pub content : Option String

pub record ChunkChoice : Type 0 where
  pub index : ℕ
  pub delta : ChoiceDelta
  pub finish_reason : Option String

pub record ChatCompletionChunk : Type 0 where
  pub id : String
  pub created : ℕ
  pub model : String
  pub choices : List ChunkChoice
  pub usage : Option CompletionUsage
