-- ===== src/Chat/Service/Reporting.antt =====
-- app/services/chat_service.py: the breaker is told the outcome of every call that it has admitted.
use atlas_gateway.Common.{String, ◌≡◌, some, List, [], ◌∷◌, Result, ok, err, arith}
use atlas_gateway.Domain.Messages.{Message, ChatResult}
use atlas_gateway.Domain.Openai.{ChatCompletionRequest}
use atlas_gateway.Chat.Run.{
  Call, Error, raised, wrap, breaker_allow, provider_chat, record_success, record_failure, ◌>>=◌,
}
use atlas_gateway.Chat.Ports.{Provider, Breaker}
use atlas_gateway.Chat.Service as Service
use atlas_gateway.Chat.Service.{ChatService}

module _ {E : Type 0} where
  -- What the breaker and the provider are asked, by what they answer.
  abbrev pub dialogue : String → String → Result E (Unit {0}) → Result E ChatResult → List Call
  dialogue id model (err _) answer = breaker_allow id ∷ []
  dialogue id model (ok _) (ok _) = breaker_allow id ∷ provider_chat model ∷ record_success id ∷ []
  dialogue id model (ok _) (err _) = breaker_allow id ∷ provider_chat model ∷ record_failure id ∷ []

  -- What comes of the call: the breaker's refusal, or the provider's answer.
  abbrev pub answered : Result E (Unit {0}) → Result E ChatResult → Result (Error E) ChatResult
  answered (err e) answer = err (raised e)
  answered (ok _) answer = wrap answer

-- A breaker whose reports never raise.
abbrev pub IsQuiet : {W E : Type 0} → Breaker W E → Type 0
IsQuiet {W} b =
    (id : String) (w : W)
    → ((b.record_success id w).0 ≡ ok tt) × ((b.record_failure id w).0 ≡ ok tt)

module _ {W E : Type 0} (s : ChatService W E) where
  -- A breaker whose reports never raise is told the outcome of every call that it admits, once and
  -- after it, and of none that it refuses; and the outcome is its refusal or the provider's answer.
  pub shielded-dialogue :
      (b : Breaker W E) (id : String) (p : Provider W E) (model : String)
      (req : ChatCompletionRequest) (ms : List Message) (w : W)
      → IsQuiet b
      → ((Service.shielded s (some b) (some id) p model req ms w).calls
          ≡ dialogue id model
              (b.allow id w).0
              (p.chat model ms req.max_tokens req.temperature (b.allow id w).1).0)
        × ((Service.shielded s (some b) (some id) p model req ms w).outcome
            ≡ answered
                (b.allow id w).0
                (p.chat model ms req.max_tokens req.temperature (b.allow id w).1).0)
  unfolding Service.shielded Service.ask Service.report ◌>>=◌
  shielded-dialogue b id p model req ms w h =
      let after = (p.chat model ms req.max_tokens req.temperature (b.allow id w).1).1 in
      let (succeeded, failed) = h id after in ground (arith, succeeded, failed)
