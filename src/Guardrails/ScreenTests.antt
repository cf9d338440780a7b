-- ===== src/Guardrails/ScreenTests.antt =====
-- A request with a number in it, a pattern for each screen, and what the screens do.
use atlas_gateway.Guardrails.Injection.Screen.{AllUnmatched, IsMatched}
use atlas_gateway.Guardrails.Counts.{add_to}
use atlas_gateway.Guardrails.InjectionClassifier.Escalation.{
  Follows, run-both_screens, both_screens,
}
use atlas_gateway.Guardrails.Chain.{pre, rejection, Failure}
use atlas_gateway.Chat.Ports.{GuardrailContext}
use atlas_gateway.Guardrails.ContentPolicy.{ContentRule}
use atlas_gateway.Guardrails.Metrics.Agreement.{run-Agrees, Agrees}
use atlas_gateway.Guardrails.InjectionClassifier.{
  benign, ClassifierVerdict, ClassifierGatewayClient,
}
use atlas_gateway.Guardrails.Pii.{
  scan_with, insert, sorted, entries, summary, add_all, with_messages, placeholder, categories,
  redact, reject, redact_with, redact_text, scan,
}
use atlas_gateway.Common.{
  ◌⊎◌, arith, ◌++ₛ◌, err, map, suc, ◌↔◌, ◌&&◌, ◌∷◌, ◌=ₛ◌, false, refl, some, if◌then◌else◌, Bool,
  ok, Result, [], String, List, ◌≡◌, ℕ,
}
use atlas_gateway.Guardrails.Pii.Redacted.{
  check-redacted, redacted, check-AllClean, AllClean, LeavesUnmatched,
}
use atlas_gateway.Guardrails.Pii as Pii
use atlas_gateway.Guardrails.ContentPolicy as ContentPolicy
use atlas_gateway.Guardrails.Chain as Chain
use atlas_gateway.Guardrails.Metrics as Metrics

abbrev said : String → GuardrailContext
said text = record {
  tenant_id = "k";
  model = "smart";
  messages = record { role = "user"; content = text } ∷ [];
  result = some (record {
    model = "m";
    content = text;
    finish_reason = "stop";
    usage = record {
      input_tokens = 1;
      output_tokens = 1;
      cache_creation_input_tokens = 0;
      cache_read_input_tokens = 0;
    };
  });
}

-- One text is a phone number, and no other text has a match.
abbrev one_phone : String → String → String → String × ℕ
one_phone category place text =
    if category =ₛ "PHONE" then if text =ₛ "call" then (place, 1) else (text, 0) else (text, 0)

one_phone-LeavesUnmatched : LeavesUnmatched one_phone
unfolding LeavesUnmatched
one_phone-LeavesUnmatched category place text e = ground arith

abbrev show_some : ℕ → String
show_some n = "n"

call_redacted :
    ◌≡◌ {A = Result (Failure (Unit {0})) GuardrailContext × Unit {0}}
      (Pii.check one_phone show_some redact (said "call") tt)
      (
        ok (
            with_messages
              (said "call")
              (record { role = "user"; content = "[REDACTED_PHONE]" } ∷ [])),
        tt,
      )
unfolding Pii.check Pii.decide scan scan_with redact_text redact_with categories placeholder
    Pii.counted add_to add_all
call_redacted = refl

call_rejected :
    ◌≡◌ {A = Result (Failure (Unit {0})) GuardrailContext × Unit {0}}
      (Pii.check one_phone show_some reject (said "call") tt)
      (err (rejection "pii" pre "PII detected: PHONE=n"), tt)
unfolding Pii.check Pii.decide scan scan_with redact_text redact_with categories placeholder
    Pii.counted add_to add_all summary entries sorted insert
call_rejected = refl

check-redacted_example :
    ◌≡◌ {A = Result (Failure (Unit {0})) GuardrailContext × Unit {0}}
      (Pii.check one_phone show_some redact (said "call") tt)
      (ok (with_messages (said "call") (map (redacted one_phone) (said "call").messages)), tt)
check-redacted_example =
    check-redacted one_phone show_some (said "call") tt one_phone-LeavesUnmatched

check-AllClean_example :
    ◌≡◌ {A = Result (Failure (Unit {0})) GuardrailContext × Unit {0}}
      (Pii.check one_phone show_some reject (said "call") tt)
      (ok (said "call"), tt)
    ↔ AllClean one_phone (said "call").messages
check-AllClean_example =
    check-AllClean one_phone show_some (said "call") tt one_phone-LeavesUnmatched

abbrev two_rules : List ContentRule
two_rules =
    record { label = "first"; search = λ text. false }
    ∷ record { label = "second"; search = λ text. text =ₛ "call" }
    ∷ []

-- The model flags every request, and counts how often it is asked.
abbrev strict_client : ClassifierGatewayClient ℕ (Unit {0})
strict_client model tenant messages asked = (ok ClassifierVerdict.injection, suc asked)

abbrev one_label : String → String → Bool
one_label label text = (label =ₛ "developer-mode") && (text =ₛ "debug mode")

run-both_screens_example :
    let reply = Chain.run (both_screens one_label strict_client) (said "call") 0 in
    ((label : String) × IsMatched one_label (said "call").messages label
      × (reply.world ≡ 0)
      × (reply.outcome
          ≡ err (rejection "injection" pre ("prompt-injection pattern matched: " ++ₛ label))))
    ⊎ (AllUnmatched one_label (said "call").messages
        × (reply.world ≡ 1)
        × ((reply.outcome ≡ ok (said "call")) ↔ (
            ◌≡◌ {A = Result (Failure (Unit {0})) ClassifierVerdict}
              (ok ClassifierVerdict.injection)
              (ok benign)))
        × Follows (said "call") (ok ClassifierVerdict.injection) reply.outcome)
run-both_screens_example = run-both_screens one_label strict_client (said "call") 0

run-Agrees_example :
    Agrees
      (record { passes = []; blocks = [] })
      (Metrics.run
        (both_screens one_label strict_client)
        (said "call")
        0
        (record { passes = []; blocks = [] }))
      (Chain.run (both_screens one_label strict_client) (said "call") 0)
run-Agrees_example =
    run-Agrees (both_screens one_label strict_client) (said "call") 0
      (record { passes = []; blocks = [] })
