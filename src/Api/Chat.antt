-- ===== src/Api/Chat.antt =====
-- app/api/v1/chat.py: the answer to a chat completion.
pub mod Refused
mod Tests
use atlas_gateway.Limits.Budget.{Date}
use atlas_gateway.Limits.Budget as Budget
use atlas_gateway.Limits.RateLimit as RateLimit
use atlas_gateway.Guardrails.Chain.{Failure, GuardrailPhase, rejection, other}
use atlas_gateway.Chat.Run.{Error, unknown_model, raised, Run}
use atlas_gateway.Domain.Openai.{ChatCompletionRequest, ChatCompletionResponse}
use atlas_gateway.Common.{
  ◌||◌, not, ◌&&◌, err, ◌==◌, ltb, ◌/◌, ◌∷◌, ◌%◌, [], String, Result, ◌++ₛ◌, ◌+◌, ◌-◌, ok, List,
  Bool, ◌*◌, if◌then◌else◌, ℕ, max,
}

-- The days before a year and, in it, before a month: `date.toordinal` is the sum of these and the day.
unfoldable is_leap : ℕ → Bool
is_leap year = (year % 4 == 0) && (not (year % 100 == 0) || (year % 400 == 0))

unfoldable days_before_year : ℕ → ℕ
days_before_year year = (year - 1) * 365 + (year - 1) / 4 - (year - 1) / 100 + (year - 1) / 400

-- The days before each month of a year without a leap day.
abbrev month_starts : List ℕ
month_starts = 0 ∷ 31 ∷ 59 ∷ 90 ∷ 120 ∷ 151 ∷ 181 ∷ 212 ∷ 243 ∷ 273 ∷ 304 ∷ 334 ∷ []

unfoldable nth : List ℕ → ℕ → ℕ
nth [] n = 0
nth (d ∷ ds) n = if n == 0 then d else nth ds (n - 1)

unfoldable pub toordinal : Date → ℕ
unfolding is_leap days_before_year nth
toordinal d =
    days_before_year d.year
    + nth month_starts (d.month - 1)
    + (if ltb 2 d.month && is_leap d.year then 1 else 0)
    + d.day

-- 24 hours.
abbrev pub seconds_per_day : ℕ
seconds_per_day = 24 * 60 * 60

-- Days that are past count as none, which `max(1, ...)` does not tell from a negative number.
unfoldable pub budget_retry_after : Date → Date → ℕ
unfolding toordinal
budget_retry_after resets_on today =
    max 1 ((toordinal resets_on - toordinal today) * seconds_per_day)

-- The `error` object of the body, whose `param` is null.
pub record ErrorObject : Type 0 where
  pub code : String
  pub message : String
  pub error_type : String

-- What the service raises besides its own exception.
pub data Exc (X : Type 0) : Type 0 where
  by_limiter : RateLimit.Error → Exc X
  by_budget : Budget.Error → Exc X
  by_guardrail : Failure X → Exc X

-- The response; `F` are the frames of a stream.
pub data Response (F : Type 0) : Type 0 where
  completion : ChatCompletionResponse → Response F
  event_stream : F → Response F
  not_found : (detail : String) → Response F
  too_many : ErrorObject → (retry_after : ℕ) → Response F
  unprocessable : (guardrail : String) (phase : GuardrailPhase) (reason : String) → Response F

-- `HTTPException` and `JSONResponse` by their status.
unfoldable pub status : {F : Type 0} → Response F → ℕ
status (completion r) = 200
status (event_stream frames) = 200
status (not_found detail) = 404
status (too_many body retry_after) = 429
status (unprocessable guardrail phase reason) = 422

-- The texts of a name, a number, an amount to the cent and a date.
pub record Formats : Type 0 where
  pub repr : String → String
  pub show : ℕ → String
  pub cents : ℕ → String
  pub isoformat : Date → String

-- `RateLimitExceeded.body`.
unfoldable pub rate_limit_body : Formats → String → ℕ → ErrorObject
rate_limit_body f alias retry_after = record {
  code = "rate_limit_exceeded";
  message =
      "Request rate limit reached for alias "
      ++ₛ (f.repr alias ++ₛ (". Retry after " ++ₛ (f.show retry_after ++ₛ " seconds.")));
  error_type = "rate_limit_error";
}

-- `BudgetExceeded.body`.
unfoldable pub budget_body : Formats → ℕ → Date → ErrorObject
budget_body f cap resets_on = record {
  code = "budget_exceeded";
  message =
      "Monthly spend cap of $"
      ++ₛ (f.cents cap
          ++ₛ (" has been reached for this API key. Cap resets on "
              ++ₛ (f.isoformat resets_on ++ₛ ".")));
  error_type = "budget_error";
}

-- The response or the exception that is not caught, the world that the service leaves, and the calls
-- of `record_rate_limit_rejection` with their arguments.
pub record Answer (W F X : Type 0) : Type 0 where
  pub response : Result (Exc X) (Response F)
  pub world : W
  pub rejections : List (String × String)

module _ {W F X : Type 0} (f : Formats) (today : Date) (key : String) where
  -- The handlers.
  unfoldable pub handle : Error (Exc X) → W → Answer W F X
  unfolding rate_limit_body budget_body budget_retry_after
  handle (unknown_model model) w = record {
    response = ok (not_found ("unknown model: " ++ₛ model));
    world = w;
    rejections = [];
  }
  handle (raised (by_limiter (RateLimit.rate_limit_exceeded alias retry_after))) w = record {
    response = ok (too_many (rate_limit_body f alias retry_after) retry_after);
    world = w;
    rejections = ("rate_limit", key) ∷ [];
  }
  handle (raised (by_budget (Budget.budget_exceeded cap resets_on))) w = record {
    response = ok (too_many (budget_body f cap resets_on) (budget_retry_after resets_on today));
    world = w;
    rejections = ("budget", key) ∷ [];
  }
  handle (raised (by_guardrail (rejection guardrail phase reason))) w = record {
    response = ok (unprocessable guardrail phase reason);
    world = w;
    rejections = [];
  }
  handle (raised e) w = record { response = err e; world = w; rejections = [] }

  unfoldable pub respond :
      {A : Type 0} → (A → Response F) → Result (Error (Exc X)) A → W → Answer W F X
  unfolding handle
  respond made (ok a) w = record { response = ok (made a); world = w; rejections = [] }
  respond made (err e) w = handle e w

  -- `complete` and `stream` are those of the service.
  unfoldable pub chat_completions :
      (ChatCompletionRequest → String → Run W (Exc X) ChatCompletionResponse)
      → (ChatCompletionRequest → String → Run W (Exc X) F)
      → ChatCompletionRequest
      → W
      → Answer W F X
  unfolding respond
  chat_completions complete stream req w =
      if req.stream
      then (let r = stream req key w in respond event_stream r.outcome r.world)
      else (let r = complete req key w in respond completion r.outcome r.world)
