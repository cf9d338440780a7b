-- ===== src/Chat/Service/Order.antt =====
-- app/services/chat_service.py: the calls of a completion come in the documented order of the
-- stages, each of them once at most.
use atlas_gateway.Common.{
  ℕ, suc, ◌≤◌, String, Option, none, some, List, [], ◌∷◌, ◌++◌, Result, ok, err, arith,
}
use atlas_gateway.Domain.Messages.{Message, ChatResult}
use atlas_gateway.Domain.Openai.{ChatCompletionRequest, ChatCompletionResponse}
use atlas_gateway.Chat.Run.{
  rate_limit_check, budget_check, run_pre, prompt_resolve, cache_get, route_resolve, breaker_choose,
  breaker_allow, provider_chat, record_success, record_failure, account, budget_charge, run_post,
  cache_set, Call, Error, Run, continue, ◌>>=◌,
}
use atlas_gateway.Chat.Ports.{
  Provider, RateLimiter, BudgetEnforcer, ResponseCache, GuardrailRunner, RouteTarget, RouteResolver,
  Breaker, Recorder, PromptRegistry,
}
use atlas_gateway.Chat.Service as Service
use atlas_gateway.Chat.Service.{ChatService}

-- The place of a call in the documented order; the two reports of an outcome share one.
abbrev pub place : Call → ℕ
place (rate_limit_check _ _) = 0
place (budget_check _) = 1
place run_pre = 2
place (prompt_resolve _) = 3
place (cache_get _ _ _) = 4
place (route_resolve _) = 5
place (breaker_choose _ _) = 6
place (breaker_allow _) = 7
place (provider_chat _) = 8
place (record_success _) = 9
place (record_failure _) = 9
place (account _ _ _) = 10
place (budget_charge _) = 11
place run_post = 12
place (cache_set _ _ _) = 13

-- The places rise, from one that is at least `lo` to one that is below `hi`.
abbrev pub Rising : ℕ → List Call → ℕ → Type 0
Rising lo [] hi = lo ≤ hi
Rising lo (c ∷ cs) hi = (lo ≤ place c) × Rising (suc (place c)) cs hi

Rising-widen : (lo mid hi : ℕ) (cs : List Call) → Rising lo cs mid → mid ≤ hi → Rising lo cs hi
Rising-widen lo mid hi [] r h = omega arith
Rising-widen lo mid hi (c ∷ cs) (first, r) h = (first, Rising-widen _ mid hi cs r h)

Rising-lower : (low lo hi : ℕ) (cs : List Call) → low ≤ lo → Rising lo cs hi → Rising low cs hi
Rising-lower low lo hi [] h r = omega arith
Rising-lower low lo hi (c ∷ cs) h (first, r) = (omega arith, r)

Rising-append :
    (lo mid hi : ℕ) (cs ds : List Call)
    → Rising lo cs mid
    → Rising mid ds hi
    → Rising lo (cs ++ ds) hi
Rising-append lo mid hi [] ds r q = Rising-lower lo mid hi ds r q
Rising-append lo mid hi (c ∷ cs) ds (first, r) q = (first, Rising-append _ mid hi cs ds r q)

module _ {W E : Type 0} where
  -- The calls of a part of the code lie between two places, whatever the world.
  abbrev pub Between : {A : Type 0} → ℕ → Run W E A → ℕ → Type 0
  Between lo m hi = (w : W) → Rising lo (m w).calls hi

  module _ {A B : Type 0} (lo mid hi : ℕ) (k : A → Run W E B) where
    Between-continue :
        (r : Result (Error E) A) (w : W) (cs : List Call)
        → mid ≤ hi
        → Rising lo cs mid
        → ((x : A) → Between mid (k x) hi)
        → Rising lo (continue k r w cs).calls hi
    Between-continue (err e) w cs h q rest = Rising-widen lo mid hi cs q h
    Between-continue (ok x) w cs h q rest = Rising-append lo mid hi cs _ q (rest x w)

    pub Between-bind :
        (m : Run W E A)
        → mid ≤ hi
        → Between lo m mid
        → ((x : A) → Between mid (k x) hi)
        → Between lo (m >>= k) hi
    unfolding ◌>>=◌
    Between-bind m h first rest w =
        Between-continue (m w).outcome (m w).world (m w).calls h (first w) rest

module _ {W E : Type 0} (s : ChatService W E) where
  limit_stage-Between :
      (l : Option (RateLimiter W E)) (req : ChatCompletionRequest) (key : String)
      → Between 0 (Service.limit_stage s l req key) 1
  unfolding Service.limit_stage
  limit_stage-Between none req key w = omega arith
  limit_stage-Between (some l) req key w = (omega arith, omega arith)

  budget_stage-Between :
      (b : Option (BudgetEnforcer W E)) (key : String) → Between 1 (Service.budget_stage s b key) 2
  unfolding Service.budget_stage
  budget_stage-Between none key w = omega arith
  budget_stage-Between (some b) key w = (omega arith, omega arith)

  guard_stage-Between :
      (g : Option (GuardrailRunner W E)) (req : ChatCompletionRequest) (key : String)
      (ms : List Message)
      → Between 2 (Service.guard_stage s g req key ms) 3
  unfolding Service.guard_stage
  guard_stage-Between none req key ms = λ w. omega arith
  guard_stage-Between (some g) req key ms =
      Between-bind 2 3 3 _ _ (omega arith) (λ w. (omega arith, omega arith)) (λ x w. omega arith)

  prompt_stage-Between :
      (p : Option (PromptRegistry W E)) (ref : Option String) (req : ChatCompletionRequest)
      (ms : List Message)
      → Between 3 (Service.prompt_stage s p ref req ms) 4
  unfolding Service.prompt_stage
  prompt_stage-Between (some p) (some ref) req ms =
      Between-bind 3 4 4 _ _ (omega arith) (λ w. (omega arith, omega arith)) (λ x w. omega arith)
  prompt_stage-Between (some p) none req ms = λ w. omega arith
  prompt_stage-Between none ref req ms = λ w. omega arith

  pub pre_checks-Between :
      (req : ChatCompletionRequest) (ms : List Message) (key : String)
      → Between 0 (Service.pre_checks s req ms key) 4
  unfolding Service.pre_checks
  pre_checks-Between req ms key =
      Between-bind 0 1 4 _ _ (omega arith) (limit_stage-Between s.rate_limiter req key) (λ _.
        Between-bind 1 2 4 _ _ (omega arith) (budget_stage-Between s.budget key) (λ _.
          Between-bind 2 3 4 _ _ (omega arith) (guard_stage-Between s.guardrails req key ms)
            (λ checked. prompt_stage-Between s.prompt_registry req.prompt_ref req checked)))

  failover-Between :
      (b : Option (Breaker W E)) (target : RouteTarget) → Between 6 (Service.failover s b target) 7
  unfolding Service.failover
  failover-Between none target = λ w. omega arith
  failover-Between (some b) target =
      Between-bind 6 7 7 _ _ (omega arith) (λ w. (omega arith, omega arith)) (λ x w. omega arith)

  route_stage-Between :
      (r : Option (RouteResolver W E)) (req : ChatCompletionRequest)
      → Between 5 (Service.route_stage s r req) 7
  unfolding Service.route_stage
  route_stage-Between none req = λ w. omega arith
  route_stage-Between (some r) req =
      Between-bind 5 6 7 _ _ (omega arith) (λ w. (omega arith, omega arith))
        (failover-Between s.breaker)

  pub resolve-Between : (at : ℕ) (model : String) → Between at (Service.resolve s model) at
  unfolding Service.resolve
  resolve-Between at model w = ground arith

  report-Between :
      (b : Breaker W E) (id : String) (r : Result (Error E) ChatResult)
      → Between 9 (Service.report s b id r) 10
  unfolding Service.report
  report-Between b id (ok _) w = (omega arith, omega arith)
  report-Between b id (err _) w = (omega arith, omega arith)

  shielded-Between :
      (b : Option (Breaker W E)) (id : Option String) (p : Provider W E) (model : String)
      (req : ChatCompletionRequest) (ms : List Message)
      → Between 7 (Service.shielded s b id p model req ms) 10
  unfolding Service.shielded Service.ask
  shielded-Between (some b) (some id) p model req ms =
      Between-bind 7 8 10 _ _ (omega arith) (λ w. (omega arith, omega arith))
        (λ _.
          Between-bind 8 9 10 _ _ (omega arith) (λ w. (omega arith, omega arith))
            (λ r.
              Between-bind 9 10 10 _ _ (omega arith) (report-Between b id r) (λ _ w. omega arith)))
  shielded-Between (some b) none p model req ms = λ w. (omega arith, omega arith)
  shielded-Between none id p model req ms = λ w. (omega arith, omega arith)

  pub call_provider-Between :
      (req : ChatCompletionRequest) (ms : List Message)
      → Between 5 (Service.call_provider s req ms) 10
  unfolding Service.call_provider
  call_provider-Between req ms =
      Between-bind 5 7 10 _ _ (omega arith) (route_stage-Between s.router req) (λ target.
        Between-bind 7 7 10 _ _ (omega arith) (resolve-Between 7 target.0)
          (λ p. shielded-Between s.breaker target.1 p target.0 req ms))

  charge_stage-Between :
      (b : Option (BudgetEnforcer W E)) (key : String) (cost : Option ℕ)
      → Between 11 (Service.charge_stage s b key cost) 12
  unfolding Service.charge_stage ◌>>=◌
  charge_stage-Between (some b) key (some cost) w = (omega arith, omega arith)
  charge_stage-Between (some b) key none w = omega arith
  charge_stage-Between none key cost w = omega arith

  record_with-Between :
      (r : Option (Recorder W)) (result : ChatResult) (key : String) (alias : Option String)
      (version : String)
      → Between 10 (Service.record_with s r result key alias version) 12
  unfolding Service.record_with
  record_with-Between none result key alias version = λ w. omega arith
  record_with-Between (some r) result key alias version =
      Between-bind 10 11 12 _ _ (omega arith) (λ w. (omega arith, omega arith))
        (charge_stage-Between s.budget key)

  post_stage-Between :
      (g : Option (GuardrailRunner W E)) (result : ChatResult) (key : String) (ms : List Message)
      → Between 12 (Service.post_stage s g result key ms) 13
  unfolding Service.post_stage
  post_stage-Between none result key ms = λ w. omega arith
  post_stage-Between (some g) result key ms =
      Between-bind 12 13 13 _ _ (omega arith) (λ w. (omega arith, omega arith)) (λ x w. omega arith)

  set_stage-Between :
      (c : Option (ResponseCache W E)) (req : ChatCompletionRequest) (key : String)
      (ms : List Message) (version : String) (response : ChatCompletionResponse)
      → Between 13 (Service.set_stage s c req key ms version response) 14
  unfolding Service.set_stage
  set_stage-Between none req key ms version response w = omega arith
  set_stage-Between (some c) req key ms version response w = (omega arith, omega arith)

  pub fresh-Between :
      (req : ChatCompletionRequest) (key : String) (ms : List Message) (version : String)
      → Between 5 (Service.fresh s req key ms version) 14
  unfolding Service.fresh Service.record_stage
  fresh-Between req key ms version =
      Between-bind 5 10 14 _ _ (omega arith) (call_provider-Between req ms) (λ result.
        Between-bind 10 10 14 _ _ (omega arith) (λ w. omega arith)
          (λ response.
            Between-bind 10 12 14 _ _ (omega arith)
              (record_with-Between s.recorder result key (some req.model) version)
              (λ _.
                Between-bind 12 13 14 _ _ (omega arith)
                  (post_stage-Between s.guardrails result key ms)
                  (λ _.
                    Between-bind 13 14 14 _ _ (omega arith)
                      (set_stage-Between s.cache req key ms version response)
                      (λ _ w. omega arith)))))

  pub get_stage-Between :
      (c : Option (ResponseCache W E)) (req : ChatCompletionRequest) (key : String)
      (ms : List Message) (version : String)
      → Between 4 (Service.get_stage s c req key ms version) 5
  unfolding Service.get_stage
  get_stage-Between none req key ms version w = omega arith
  get_stage-Between (some c) req key ms version w = (omega arith, omega arith)

  answer-Between :
      (req : ChatCompletionRequest) (key : String) (ms : List Message) (version : String)
      (cached : Option String)
      → Between 5 (Service.answer s req key ms version cached) 14
  unfolding Service.answer
  answer-Between req key ms version (some cached) w = omega arith
  answer-Between req key ms version none w = fresh-Between req key ms version w

  -- The calls of a completion come in the order rate limit, budget, pre-guardrails, prompt, cache
  -- lookup, route, choice and admission of the breaker, provider, outcome, accounting, charge,
  -- post-guardrails, cache store, with none of them made twice, whatever the collaborators do.
  pub complete_in_order :
      (req : ChatCompletionRequest) (key : String) (w : W)
      → Rising 0 (Service.complete s req key w).calls 14
  unfolding Service.complete
  complete_in_order req key =
      Between-bind 0 4 14 _ _ (omega arith) (pre_checks-Between req _ key) (λ checked.
        Between-bind 4 5 14 _ _ (omega arith)
          (get_stage-Between s.cache req key checked.0 checked.1)
          (λ cached. answer-Between req key checked.0 checked.1 cached))
