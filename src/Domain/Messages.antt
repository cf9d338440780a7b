-- ===== src/Domain/Messages.antt =====
-- app/domain/messages.py: messages, token usage, results and deltas.
use atlas_gateway.Common.{ℕ, String, Option}

pub record Message : Type 0 where
  pub role : String
  pub content : String

pub record Usage : Type 0 where
  pub input_tokens : ℕ
  pub output_tokens : ℕ
  pub cache_creation_input_tokens : ℕ
  pub cache_read_input_tokens : ℕ

pub record ChatResult : Type 0 where
  pub model : String
  pub content : String
  pub finish_reason : String
  pub usage : Usage

pub record StreamDelta : Type 0 where
  pub content : String
  pub finish_reason : Option String
  pub usage : Option Usage
