-- ===== src/Chat/Ports.antt =====
-- The ports of app/services/chat_service.py and app/providers/base.py. `W` is what the
-- collaborators keep between calls, `E` are their exceptions.
use atlas_gateway.Common.{ℕ, String, List, Option, Action}
use atlas_gateway.Domain.Json.{Members}
use atlas_gateway.Domain.Messages.{Message, Usage, ChatResult, StreamDelta}

-- `Provider`: a stream is its deltas and the exception that ends it, if one does.
pub record Provider (W E : Type 0) : Type 0 where
  pub name : String
  pub chat : String → List Message → Option ℕ → Option String → Action W E ChatResult
  pub chat_stream :
      String → List Message → Option ℕ → Option String → W → (List StreamDelta × Option E) × W

-- `CallContext`.
pub record CallContext : Type 0 where
  pub api_key_id : String
  pub model : String
  pub usage : Usage
  pub alias : Option String
  pub prompt_version : String

-- `GuardrailContext` of app/guardrails/chain.py.
pub record GuardrailContext : Type 0 where
  pub tenant_id : String
  pub model : String
  pub messages : List Message
  pub result : Option ChatResult

pub record RateLimiter (W E : Type 0) : Type 0 where
  pub check : String → String → Action W E (Unit {0})

-- `charge` and `check` are given a cost in whole units of the enforcer.
pub record BudgetEnforcer (W E : Type 0) : Type 0 where
  pub check : String → ℕ → Action W E (Unit {0})
  pub charge : String → ℕ → Action W E (Unit {0})

-- `get` and `set` with tenant, model, messages and prompt version.
pub record ResponseCache (W E : Type 0) : Type 0 where
  pub get : String → String → List Message → String → Action W E (Option String)
  pub set : String → String → List Message → String → String → Action W E (Unit {0})

-- The checks may rewrite the context: it is returned.
pub record GuardrailRunner (W E : Type 0) : Type 0 where
  pub run_pre : GuardrailContext → Action W E GuardrailContext
  pub run_post : GuardrailContext → Action W E GuardrailContext

pub record RouteTarget : Type 0 where
  pub provider : String
  pub primary_model : String
  pub fallback_model : String

pub record RouteResolver (W E : Type 0) : Type 0 where
  pub resolve : String → Action W E RouteTarget

pub record Breaker (W E : Type 0) : Type 0 where
  pub choose : String → String → Action W E String
  pub allow : String → Action W E (Unit {0})
  pub record_success : String → Action W E (Unit {0})
  pub record_failure : String → Action W E (Unit {0})

-- The documentation asks that `record` never raises: it returns in the world of the call.
pub record Recorder (W : Type 0) : Type 0 where
  pub record_call : CallContext → W → Option ℕ × W

pub record ResolvedPrompt : Type 0 where
  pub prompt_version_id : String
  pub rendered : String

pub record PromptRegistry (W E : Type 0) : Type 0 where
  pub resolve : String → Option Members → Action W E ResolvedPrompt
