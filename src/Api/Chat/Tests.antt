-- ===== src/Api/Chat/Tests.antt =====
-- app/api/v1/chat.py: a gateway with a limiter that refuses, and a budget of one day.
use atlas_gateway.Guardrails.Chain.{other}
use atlas_gateway.Domain.Openai.{ChatCompletionRequest}
use atlas_gateway.Common.{
  none, ◌+◌, false, ◌∷◌, refl, ◌=ₛ◌, true, suc, ok, if◌then◌else◌, err, arith, some, ◌≡◌, String, ℕ,
  [],
}
use atlas_gateway.Chat.Ports.{Provider, RateLimiter}
use atlas_gateway.Api.Chat.{
  status, by_guardrail, toordinal, budget_retry_after, Formats, Exc, by_limiter, too_many,
  rate_limit_body, not_found,
}
use atlas_gateway.Api.Chat.Refused.{answer, rate_limited, build_budget-retry_after}
use atlas_gateway.Api.Deps.{build_budget, prod, Settings}
use atlas_gateway.Limits.Budget.{monthly_period, Date, Enforcer}
use atlas_gateway.Limits.RateLimit as RateLimit
use atlas_gateway.Chat.Stream as Stream
use atlas_gateway.Chat.Service as Service
use atlas_gateway.Chat.Run.{◌>>=◌}
use atlas_gateway.Chat.Service.{ChatService}

abbrev formats : Formats
formats = record {
  repr = λ name. name;
  show = λ n. "7";
  cents = λ n. "100.00";
  isoformat = λ d. "2026-05-01";
}

abbrev date : ℕ → ℕ → ℕ → Date
date year month day = record { year = year; month = month; day = day }

-- The last day of a year and of a month before a leap day, and days until the reset.
days :
    (toordinal (date 2026 1 1) ≡ suc (toordinal (date 2025 12 31)))
    × (toordinal (date 2024 3 1) ≡ 2 + toordinal (date 2024 2 28))
    × (budget_retry_after (date 2026 6 1) (date 2026 5 30) ≡ 172800)
    × (budget_retry_after (date 2026 5 1) (date 2026 5 30) ≡ 1)
unfolding toordinal budget_retry_after
days = (refl, refl, refl, refl)

abbrev silent : Provider Unit (Exc ℕ)
silent = record {
  name = "mock";
  chat = λ model messages max_tokens temperature w. (err (by_guardrail (other 0)), w);
  chat_stream = λ model messages max_tokens temperature w. (([], none), w);
}

abbrev refusing : RateLimiter Unit (Exc ℕ)
refusing = record {
  check = λ key alias w. (err (by_limiter (RateLimit.rate_limit_exceeded alias 7)), w);
}

abbrev gateway : ChatService Unit (Exc ℕ)
gateway = record {
  registry = λ model. if model =ₛ "mock" then some silent else none;
  guardrails = none;
  cache = none;
  rate_limiter = some refusing;
  budget = none;
  recorder = none;
  router = none;
  breaker = none;
  prompt_registry = none;
  uuid_hex = λ w. "0f";
  time = λ w. 20;
  dump_json = λ r. r.model;
  validate_json = λ t. err (by_guardrail (other 1));
}

abbrev streamed : String → ChatCompletionRequest
streamed model = record {
  model = model;
  messages = record { role = "user"; content = "Hello" } ∷ [];
  max_tokens = none;
  temperature = none;
  stream = true;
  prompt_ref = none;
  prompt_params = none;
}

-- The unknown model of a stream is answered before the limiter is asked.
unknown :
    (answer formats (date 2026 5 20) "k" gateway (streamed "other") tt).response
    ≡ ok (not_found "unknown model: other")
unfolding answer Stream.stream ◌>>=◌ Service.resolve
unknown = refl

unknown_status : status {F = Unit} (not_found "unknown model: other") ≡ 404
unfolding status
unknown_status = refl

rate_limited_example : answer formats (date 2026 5 20) "k" gateway (streamed "mock") tt ≡ record {
  response = ok (too_many (rate_limit_body formats "mock" 7) 7);
  world = tt;
  rejections = ("rate_limit", "k") ∷ [];
}
rate_limited_example =
    rate_limited formats (date 2026 5 20) "k" gateway refusing silent (streamed "mock") tt tt "mock"
      7 refl refl refl

abbrev deployed : Settings
deployed = record {
  environment = prod;
  api_keys = [];
  redis_url = some "redis";
  cache_enabled = false;
  rate_limit_enabled = false;
  budget_enabled = false;
  guardrails_enabled = false;
  auth_db_enabled = false;
}

abbrev enforcer : String → String → Date → Enforcer
enforcer url period resets_on = record {
  cap_usd = 100;
  period = period;
  resets_on = resets_on;
  alert_at_80pct = true;
}

wired_budget :
    build_budget deployed (date 2026 5 20) enforcer
    ≡ some (enforcer "redis" (monthly_period (date 2026 5 1)) (date 2026 5 1))
unfolding build_budget
wired_budget = refl

build_budget-retry_after_example : budget_retry_after (date 2026 5 1) (date 2026 5 30) ≡ 1
build_budget-retry_after_example =
    build_budget-retry_after deployed (date 2026 5 20) (date 2026 5 30) enforcer
      (enforcer "redis" (monthly_period (date 2026 5 1)) (date 2026 5 1))
      (λ url period resets_on. refl) (refl, refl, omega arith) wired_budget
