-- ===== src/Api/Chat/Refused.antt =====
-- app/api/v1/chat.py: what a request is answered that the limits refuse.
use atlas_gateway.Domain.Messages.{Message}
use atlas_gateway.Chat.Run.{Call, ◌>>=◌, Reply, rate_limit_check, raised}
use atlas_gateway.Chat.Stream.{Streamed}
use atlas_gateway.Chat.Ports.{Provider, RateLimiter}
use atlas_gateway.Domain.Openai.{ChatCompletionResponse, ChatCompletionRequest}
use atlas_gateway.Common.{
  if◌then◌else◌, ◌*◌, refl, ◌-◌, List, max, false, true, none, [], ap, ok, ◌∙◌, ◌∷◌, Option, Bool,
  sym, arith, subst, err, some, ℕ, ◌≤◌, ◌≡◌, String,
}
use atlas_gateway.Limits.Budget.{Enforcer, Date}
use atlas_gateway.Api.Chat.{
  seconds_per_day, Error, Run, rate_limit_body, too_many, handle, respond, by_limiter, Answer, Exc,
  Formats, budget_retry_after, toordinal, chat_completions,
}
use atlas_gateway.Api.Deps.{when_redis, Settings, build_budget, first_of_month}
use atlas_gateway.Limits.RateLimit as RateLimit
use atlas_gateway.Chat.Service as Service
use atlas_gateway.Chat.Stream as Stream
use atlas_gateway.Chat.Service.{provider_messages, ChatService}

when_redis_cases :
    {A : Type 0} (enabled : Bool) (redis_url : Option String) (make : String → A) (a : A)
    → when_redis enabled redis_url make ≡ some a
    → (url : String) × (make url ≡ a)
unfolding when_redis
when_redis_cases enabled none make a e = absurd (ground arith)
when_redis_cases true (some url) make a e = (url, ground arith)
when_redis_cases false (some url) make a e = absurd (ground arith)

past_days : (first later : ℕ) → first ≤ later → max 1 ((first - later) * seconds_per_day) ≡ 1
past_days first later past = let none_left : first - later ≡ 0 = omega arith in rw none_left refl

past_reset :
    (first later : Date) → toordinal first ≤ toordinal later → budget_retry_after first later ≡ 1
unfolding budget_retry_after
past_reset first later past = past_days (toordinal first) (toordinal later) past

first_of_month-past :
    (today later : Date)
    → (today.year ≡ later.year) × (today.month ≡ later.month) × (1 ≤ later.day)
    → toordinal (first_of_month today) ≤ toordinal later
unfolding toordinal first_of_month
first_of_month-past today later (years, months, day) = rw (years, months) (omega arith)

-- The budget that is wired on a day, by a constructor that keeps the day of the reset it is given,
-- resets on a day of which the answer to a refusal, on the same day or any later one of the month,
-- says that it is one second away.
pub build_budget-retry_after :
    (s : Settings) (today later : Date) (make : String → String → Date → Enforcer) (e : Enforcer)
    → ((url : String) (period : String) (resets_on : Date)
        → (make url period resets_on).resets_on ≡ resets_on)
    → (today.year ≡ later.year) × (today.month ≡ later.month) × (1 ≤ later.day)
    → build_budget s today make ≡ some e
    → budget_retry_after e.resets_on later ≡ 1
unfolding build_budget
build_budget-retry_after s today later make e keeps same built =
    let (url, made) = when_redis_cases _ s.redis_url _ e built in
    subst (λ d. budget_retry_after d later ≡ 1) (sym (keeps url _ _) ∙ ap (λ x. x.resets_on) made)
      (past_reset (first_of_month today) later (first_of_month-past today later same))

raise_first :
    {W E A B : Type 0} (m : Run W E A) (k : A → Run W E B) (w : W) {e : Error E} {w' : W}
    {cs : List Call}
    → m w ≡ record { outcome = err e; world = w'; calls = cs }
    → (m >>= k) w ≡ record { outcome = err e; world = w'; calls = cs }
unfolding ◌>>=◌
raise_first m k w raises = rw raises refl

go_on :
    {W E A B : Type 0} (m : Run W E A) (k : A → Run W E B) (w : W) {x : A} {w' : W}
    → m w ≡ record { outcome = ok x; world = w'; calls = [] }
    → (m >>= k) w ≡ k x w'
unfolding ◌>>=◌
go_on m k w returns = rw returns refl

if_same : {A : Type 0} (b : Bool) (x : A) → (if b then x else x) ≡ x
if_same true x = refl
if_same false x = refl

module _ {W X : Type 0} (f : Formats) (today : Date) (key : String)
    (s : ChatService W (Exc X)) where
  -- The answer of the endpoint with this service.
  unfoldable pub answer : ChatCompletionRequest → W → Answer W (W → Streamed (Exc X) × W) X
  unfolding chat_completions
  answer req w = chat_completions f today key (Service.complete s) (Stream.stream s) req w

  module _ (l : RateLimiter W (Exc X)) (req : ChatCompletionRequest) (w w' : W) (e : Exc X) where
    -- What the service makes of the exception.
    limited : (A : Type 0) → Reply W (Exc X) A
    limited A = record {
      outcome = err (raised e);
      world = w';
      calls = rate_limit_check key req.model ∷ [];
    }

    limit_stage-limited :
        s.rate_limiter ≡ some l
        → l.check key req.model w ≡ (err e, w')
        → Service.limit_stage s s.rate_limiter req key w ≡ limited Unit
    unfolding Service.limit_stage limited
    limit_stage-limited has_limiter refused =
        subst (λ o. Service.limit_stage s o req key w ≡ limited Unit) (sym has_limiter)
          (rw refused refl)

    pre_checks-limited :
        (messages : List Message)
        → s.rate_limiter ≡ some l
        → l.check key req.model w ≡ (err e, w')
        → Service.pre_checks s req messages key w ≡ limited (List Message × String)
    unfolding Service.pre_checks limited
    pre_checks-limited messages has_limiter refused =
        raise_first (Service.limit_stage s s.rate_limiter req key) _ w
          (limit_stage-limited has_limiter refused)

    complete-limited :
        s.rate_limiter ≡ some l
        → l.check key req.model w ≡ (err e, w')
        → Service.complete s req key w ≡ limited ChatCompletionResponse
    unfolding Service.complete limited
    complete-limited has_limiter refused =
        raise_first _ _ w (pre_checks-limited (provider_messages req.messages) has_limiter refused)

    resolved :
        (p : Provider W (Exc X))
        → s.registry req.model ≡ some p
        → Service.resolve s req.model w ≡ record { outcome = ok p; world = w; calls = [] }
    unfolding Service.resolve
    resolved p known = rw (Service.resolve, known) refl

    stream-limited :
        (p : Provider W (Exc X))
        → s.rate_limiter ≡ some l
        → s.registry req.model ≡ some p
        → l.check key req.model w ≡ (err e, w')
        → Stream.stream s req key w ≡ limited (W → Streamed (Exc X) × W)
    unfolding Stream.stream limited
    stream-limited p has_limiter known refused =
        go_on (Service.resolve s req.model) _ w (resolved p known)
        ∙ raise_first _ _ w
            (pre_checks-limited (provider_messages req.messages) has_limiter refused)

  -- A request of a known model that the rate limiter refuses is answered with 429 and the seconds
  -- that the limiter gave, whether or not a stream was asked for, in the state that the limiter
  -- left.
  pub rate_limited :
      (l : RateLimiter W (Exc X)) (p : Provider W (Exc X)) (req : ChatCompletionRequest) (w w' : W)
      (alias : String) (n : ℕ)
      → s.rate_limiter ≡ some l
      → s.registry req.model ≡ some p
      → l.check key req.model w ≡ (err (by_limiter (RateLimit.rate_limit_exceeded alias n)), w')
      → answer req w ≡ record {
        response = ok (too_many (rate_limit_body f alias n) n);
        world = w';
        rejections = ("rate_limit", key) ∷ [];
      }
  unfolding answer respond handle limited
  rate_limited l p req w w' alias n has_limiter known refused =
      let e = by_limiter (RateLimit.rate_limit_exceeded alias n) in
      rw
        (
          complete-limited l req w w' e has_limiter refused,
          stream-limited l req w w' e p has_limiter known refused,
        )
        (if_same req.stream _)
