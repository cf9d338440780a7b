-- ===== src/Chat/Service.antt =====
-- app/services/chat_service.py: `ChatService`, the path of a completion.
pub mod Order
pub mod Admission
pub mod Reporting
-- mod Streaming
use atlas_gateway.Common.{
  ℕ, ◌+◌, String, ◌=ₛ◌, ◌++ₛ◌, Option, none, some, List, [], ◌∷◌, map, Result, ok, err,
  if◌then◌else◌,
}
use atlas_gateway.Domain.Messages.{Message, Usage, ChatResult}
use atlas_gateway.Domain.Openai.{
  ChatMessage, ChatCompletionRequest, ChatCompletionResponse, CompletionUsage,
}
use atlas_gateway.Chat.Run.{
  wrap, rate_limit_check, budget_check, run_pre, prompt_resolve, cache_get, route_resolve,
  breaker_choose, breaker_allow, provider_chat, record_success, record_failure, account,
  budget_charge, run_post, cache_set, Error, unknown_model, Run, return, throw, call, attempt,
  and_then, ◌>>=◌, ◌>>◌,
}
use atlas_gateway.Chat.Ports.{
  Provider, RateLimiter, BudgetEnforcer, ResponseCache, GuardrailRunner, RouteTarget, RouteResolver,
  Breaker, Recorder, PromptRegistry,
}

abbrev pub no_prompt_version : String
no_prompt_version = "none"

-- `ChatService.__init__`: the registry and the optional collaborators; and, of the libraries, the
-- unique id, the clock in whole seconds, and the JSON codec of a response.
pub record ChatService (W E : Type 0) : Type 0 where
  pub registry : String → Option (Provider W E)
  pub guardrails : Option (GuardrailRunner W E)
  pub cache : Option (ResponseCache W E)
  pub rate_limiter : Option (RateLimiter W E)
  pub budget : Option (BudgetEnforcer W E)
  pub recorder : Option (Recorder W)
  pub router : Option (RouteResolver W E)
  pub breaker : Option (Breaker W E)
  pub prompt_registry : Option (PromptRegistry W E)
  pub uuid_hex : W → String
  pub time : W → ℕ
  pub dump_json : ChatCompletionResponse → String
  pub validate_json : String → Result E ChatCompletionResponse

unfoldable pub provider_messages : List ChatMessage → List Message
provider_messages ms = map (λ m. record { role = m.role; content = m.content }) ms

unfoldable pub usage_of : Usage → CompletionUsage
usage_of u = record {
  prompt_tokens = u.input_tokens;
  completion_tokens = u.output_tokens;
  total_tokens = u.input_tokens + u.output_tokens;
}

-- `_to_response`, with the id and the time it takes.
unfoldable pub to_response : String → ℕ → ChatResult → ChatCompletionResponse
unfolding usage_of
to_response hex now r = record {
  id = "chatcmpl-" ++ₛ hex;
  created = now;
  model = r.model;
  choices =
      record {
        index = 0;
        message = record { role = "assistant"; content = r.content };
        finish_reason = r.finish_reason;
      }
      ∷ [];
  usage = usage_of r.usage;
}

module _ {W E : Type 0} (s : ChatService W E) where
  unfoldable pub resolve : String → Run W E (Provider W E)
  resolve model = elim (s.registry model) [ none ↦ throw (unknown_model model) | some p ↦ return p ]

  -- Stage 1.
  unfoldable pub limit_stage :
      Option (RateLimiter W E) → ChatCompletionRequest → String → Run W E (Unit {0})
  limit_stage none req key = return tt
  limit_stage (some l) req key = call (rate_limit_check key req.model) (l.check key req.model)

  -- Stage 2: a probe with no cost.
  unfoldable pub budget_stage : Option (BudgetEnforcer W E) → String → Run W E (Unit {0})
  budget_stage none key = return tt
  budget_stage (some b) key = call (budget_check key) (b.check key 0)

  -- Stage 3.
  unfoldable pub guard_stage :
      Option (GuardrailRunner W E)
      → ChatCompletionRequest
      → String
      → List Message
      → Run W E (List Message)
  guard_stage none req key messages = return messages
  guard_stage (some g) req key messages = do
    ctx ← call run_pre (
        g.run_pre
          (record { tenant_id = key; model = req.model; messages = messages; result = none }))
    return ctx.messages

  -- Stage 4.
  unfoldable pub prompt_stage :
      Option (PromptRegistry W E)
      → Option String
      → ChatCompletionRequest
      → List Message
      → Run W E (List Message × String)
  prompt_stage (some p) (some ref) req messages = do
    resolved ← call (prompt_resolve ref) (p.resolve ref req.prompt_params)
    return (
      record { role = "system"; content = resolved.rendered } ∷ messages,
      resolved.prompt_version_id,
    )
  prompt_stage _ _ req messages = return (messages, no_prompt_version)

  unfoldable pub pre_checks :
      ChatCompletionRequest → List Message → String → Run W E (List Message × String)
  unfolding limit_stage budget_stage guard_stage prompt_stage
  pre_checks req messages key = do
    limit_stage s.rate_limiter req key
    budget_stage s.budget key
    checked ← guard_stage s.guardrails req key messages
    prompt_stage s.prompt_registry req.prompt_ref req checked

  -- Stage 6, the choice: the model, and the provider id if a router is there.
  unfoldable pub failover : Option (Breaker W E) → RouteTarget → Run W E (String × Option String)
  failover none target = return (target.primary_model, some target.provider)
  failover (some b) target = do
    chosen ←
        call (breaker_choose target.provider target.fallback_model)
          (b.choose target.provider target.fallback_model)
    return (
      if chosen =ₛ target.provider then target.primary_model else target.fallback_model,
      some chosen,
    )

  unfoldable pub route_stage :
      Option (RouteResolver W E) → ChatCompletionRequest → Run W E (String × Option String)
  unfolding failover
  route_stage none req = return (req.model, none)
  route_stage (some r) req = do
    target ← call (route_resolve req.model) (r.resolve req.model)
    failover s.breaker target

  unfoldable pub ask :
      Provider W E → String → ChatCompletionRequest → List Message → Run W E ChatResult
  ask p model req messages =
      call (provider_chat model) (p.chat model messages req.max_tokens req.temperature)

  -- What the breaker is told of an outcome; `except Exception` records and raises again.
  unfoldable pub report : Breaker W E → String → Result (Error E) ChatResult → Run W E (Unit {0})
  report b id (ok _) = call (record_success id) (b.record_success id)
  report b id (err _) = call (record_failure id) (b.record_failure id)

  unfoldable pub shielded :
      Option (Breaker W E)
      → Option String
      → Provider W E
      → String
      → ChatCompletionRequest
      → List Message
      → Run W E ChatResult
  unfolding ask report
  shielded (some b) (some id) p model req messages = do
    call (breaker_allow id) (b.allow id)
    r ← attempt (ask p model req messages)
    report b id r
    and_then r
  shielded _ _ p model req messages = ask p model req messages

  unfoldable pub call_provider : ChatCompletionRequest → List Message → Run W E ChatResult
  unfolding route_stage resolve shielded
  call_provider req messages = do
    target ← route_stage s.router req
    p ← resolve target.0
    shielded s.breaker target.1 p target.0 req messages

  -- Stage 7: the cost is charged to the budget, and a failure of that is swallowed.
  unfoldable pub charge_stage : Option (BudgetEnforcer W E) → String → Option ℕ → Run W E (Unit {0})
  charge_stage (some b) key (some cost) = do
    attempt (call (budget_charge key) (b.charge key cost))
    return tt
  charge_stage _ key cost = return tt

  unfoldable pub record_with :
      Option (Recorder W) → ChatResult → String → Option String → String → Run W E (Unit {0})
  unfolding charge_stage
  record_with none result key alias version = return tt
  record_with (some r) result key alias version = do
    cost ← call (account result.model alias version) (λ w.
        let (c, w') =
          r.record_call
            (record {
              api_key_id = key;
              model = result.model;
              usage = result.usage;
              alias = alias;
              prompt_version = version;
            })
            w in
        (ok c, w'))
    charge_stage s.budget key cost

  -- `_record`, which returns at once when there is no recorder.
  unfoldable pub record_stage : ChatResult → String → Option String → String → Run W E (Unit {0})
  unfolding record_with
  record_stage result key alias version = record_with s.recorder result key alias version

  -- Stage 8: what the checks do to the context is dropped.
  unfoldable pub post_stage :
      Option (GuardrailRunner W E) → ChatResult → String → List Message → Run W E (Unit {0})
  post_stage none result key messages = return tt
  post_stage (some g) result key messages = do
    call run_post (
        g.run_post (record {
          tenant_id = key;
          model = result.model;
          messages = messages;
          result = some result;
        }))
    return tt

  -- Stage 9.
  unfoldable pub set_stage :
      Option (ResponseCache W E)
      → ChatCompletionRequest
      → String
      → List Message
      → String
      → ChatCompletionResponse
      → Run W E (Unit {0})
  set_stage none req key messages version response = return tt
  set_stage (some c) req key messages version response =
      call (cache_set key req.model version)
        (c.set key req.model messages (s.dump_json response) version)

  -- `complete` after a miss.
  unfoldable pub fresh :
      ChatCompletionRequest → String → List Message → String → Run W E ChatCompletionResponse
  unfolding call_provider record_stage post_stage set_stage to_response
  fresh req key messages version = do
    result ← call_provider req messages
    response ← λ w. return (to_response (s.uuid_hex w) (s.time w) result) w
    record_stage result key (some req.model) version
    post_stage s.guardrails result key messages
    set_stage s.cache req key messages version response
    return response

  -- Stage 5.
  unfoldable pub get_stage :
      Option (ResponseCache W E)
      → ChatCompletionRequest
      → String
      → List Message
      → String
      → Run W E (Option String)
  get_stage none req key messages version = return none
  get_stage (some c) req key messages version =
      call (cache_get key req.model version) (c.get key req.model messages version)

  -- What a hit gives: the value, parsed again.
  unfoldable pub answer :
      ChatCompletionRequest
      → String
      → List Message
      → String
      → Option String
      → Run W E ChatCompletionResponse
  answer req key messages version (some cached) w = record {
    outcome = wrap (s.validate_json cached);
    world = w;
    calls = [];
  }
  answer req key messages version none w = fresh req key messages version w

  unfoldable pub complete : ChatCompletionRequest → String → Run W E ChatCompletionResponse
  unfolding pre_checks get_stage answer provider_messages
  complete req key = do
    checked ← pre_checks req (provider_messages req.messages) key
    cached ← get_stage s.cache req key checked.0 checked.1
    answer req key checked.0 checked.1 cached
