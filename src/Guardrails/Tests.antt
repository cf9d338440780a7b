-- ===== src/Guardrails/Tests.antt =====
-- A chain of a check that passes, one that rejects and one that is never run.
use atlas_gateway.Common.{ℕ, String, ◌≡◌, refl, none, List, [], ◌∷◌, ok}
use atlas_gateway.Chat.Ports.{GuardrailContext}
use atlas_gateway.Guardrails.Chain as Chain
use atlas_gateway.Guardrails.Chain.{Guardrail, Failure, rejection, pre, pass, block, Point, run}
use atlas_gateway.Guardrails.Chain.FailFast.{Accounts, run-Accounts}
use atlas_gateway.Guardrails.Size.{init, check, size, total_chars}

abbrev show_some : ℕ → String
show_some n = "n"

abbrev capped : ℕ → Guardrail (Unit {0}) (Unit {0})
capped n = size show_some (record { max_chars = n })

abbrev five_chars : GuardrailContext
five_chars = record {
  tenant_id = "k";
  model = "smart";
  messages = record { role = "user"; content = "hello" } ∷ [];
  result = none;
}

abbrev chain : List (Guardrail (Unit {0}) (Unit {0}))
chain = capped 9 ∷ capped 4 ∷ capped 3 ∷ []

chain_points : (run chain five_chars tt).points ≡ (
    record { guardrail_name = "size"; guardrail_outcome = pass }
    ∷ record { guardrail_name = "size"; guardrail_outcome = block }
    ∷ [])
unfolding run Chain.after_check check total_chars
chain_points = refl

run-Accounts_example :
    Accounts chain (run chain five_chars tt).outcome (run chain five_chars tt).points
run-Accounts_example = run-Accounts chain five_chars tt

init_nine : init 9 ≡ ok (record { max_chars = 9 })
unfolding init
init_nine = refl
