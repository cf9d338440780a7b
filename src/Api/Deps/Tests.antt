-- ===== src/Api/Deps/Tests.antt =====
-- app/api/deps.py: a deployment with a number in its requests, and its keys.
use atlas_gateway.Limits.Budget.{monthly_period}
use atlas_gateway.Guardrails.Injection.Screen.{AllUnmatched}
use atlas_gateway.Guardrails.Size.{total_chars}
use atlas_gateway.Guardrails.Pii.{with_messages}
use atlas_gateway.Chat.Ports.{GuardrailContext}
use atlas_gateway.Api.Deps.{
  Credentials, invalid_api_key, build_budget, build_rate_limiter, build_guardrails, build_cache,
  require_api_key, wired_chain, Matchers, Settings, prod, missing_bearer_token,
}
use atlas_gateway.Api.Deps.Wired.{build_guardrails-redacted}
use atlas_gateway.Api.Deps.Keys.{require_api_key_iff, IsActive}
use atlas_gateway.Guardrails.Pii.Redacted.{LeavesUnmatched, redacted}
use atlas_gateway.Guardrails.Chain.{run_pre}
use atlas_gateway.Common.{
  String, ◌≤◌, Option, map, ◌↔◌, true, err, ok, ◌≡◌, false, ◌&&◌, none, if◌then◌else◌, ℕ, [], some,
  ◌∷◌, arith, ◌=ₛ◌, refl,
}

-- A deployment without a flag, with two keys and with Redis.
abbrev deployed : Settings
deployed = record {
  environment = prod;
  api_keys = "a" ∷ "b" ∷ [];
  redis_url = some "redis";
  cache_enabled = false;
  rate_limit_enabled = false;
  budget_enabled = false;
  guardrails_enabled = false;
  auth_db_enabled = true;
}

-- Patterns that match one text each.
abbrev matchers : Matchers
matchers = record {
  injection_search = λ label text. text =ₛ "ignore";
  content_search = λ label text. text =ₛ "secret";
  subn = λ category place text.
      if (category =ₛ "PHONE") && (text =ₛ "555") then (place, 1) else (text, 0);
  show = λ n. "1";
}

matchers-LeavesUnmatched : LeavesUnmatched matchers.subn
unfolding LeavesUnmatched
matchers-LeavesUnmatched category place text e = ground arith

abbrev request : GuardrailContext
request = record {
  tenant_id = "a";
  model = "smart";
  messages =
      record { role = "user"; content = "555" } ∷ record { role = "user"; content = "hi" } ∷ [];
  result = none;
}

-- The limiter and the budget are made without their flags, the cache is not.
collaborators :
    (build_cache deployed (λ url. url) ≡ none)
    × (build_rate_limiter deployed (λ url. url) ≡ some "redis")
    × (build_budget {A = String × ℕ} deployed
          (record { year = 2026; month = 5; day = 20 })
          (λ url period resets_on. (period, resets_on.day))
        ≡ some ("2026-05", 1))
unfolding build_cache build_rate_limiter build_budget monthly_period
collaborators = (refl, refl, refl)

missing :
    require_api_key (λ s. s) (λ s. s) deployed (λ pool key. key =ₛ "c") (some tt) none
    ≡ err missing_bearer_token
unfolding require_api_key
missing = refl

refused :
    require_api_key
      (λ s. s)
      (λ s. s)
      deployed
      (λ pool key. key =ₛ "c")
      (some tt)
      (some (record { scheme = "bearer"; credentials = "a" }))
    ≡ err invalid_api_key
unfolding require_api_key
refused = refl

build_guardrails-redacted_example :
    (build_guardrails {W = Unit} {X = ℕ} matchers deployed ≡ some (wired_chain matchers))
    × ((run_pre (wired_chain {W = Unit} {X = ℕ} matchers) request tt).outcome
          ≡ ok (with_messages request (map (redacted matchers.subn) request.messages))
        → (total_chars request.messages ≤ 100000)
          × AllUnmatched matchers.injection_search request.messages
          × (with_messages request (map (redacted matchers.subn) request.messages)
              ≡ with_messages request (map (redacted matchers.subn) request.messages)))
build_guardrails-redacted_example =
    build_guardrails-redacted matchers deployed request
      (with_messages request (map (redacted matchers.subn) request.messages)) tt
      (λ e. absurd (ground arith)) matchers-LeavesUnmatched

require_api_key_iff_example :
    (require_api_key
        (λ s. s)
        (λ s. s)
        deployed
        (λ pool key. key =ₛ "c")
        (some tt)
        (some (record { scheme = "bearer"; credentials = "c" }))
      ≡ ok "c")
    ↔ ((c : Credentials) × (◌≡◌ {A = Option Credentials}
          (some (record { scheme = "bearer"; credentials = "c" }))
          (some c))
        × (c.scheme ≡ "bearer")
        × (c.credentials ≡ "c")
        × IsActive deployed (λ pool key. key =ₛ "c") (some tt) "c")
require_api_key_iff_example =
    require_api_key_iff (λ s. s) (λ s. s) deployed (λ pool key. key =ₛ "c") (some tt)
      (some (record { scheme = "bearer"; credentials = "c" })) "c"
