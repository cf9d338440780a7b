-- ===== src/Chat/CachingTests.antt =====
-- A gateway with nothing but the cache of an hour, over the server in memory.
use atlas_gateway.Common.{
  false, ◌*◌, String, ◌≡◌, refl, Option, none, some, List, [], ◌∷◌, ok, arith,
}
use atlas_gateway.Redis.{second}
use atlas_gateway.Redis.Strings.{strings_in_memory, Entry}
use atlas_gateway.Cache.Exact as Exact
use atlas_gateway.Cache.Exact.{ExactCache}
use atlas_gateway.Domain.Messages.{Message, ChatResult}
use atlas_gateway.Domain.Openai.{ChatCompletionRequest, ChatCompletionResponse}
use atlas_gateway.Chat.Run.{cache_get, ◌>>=◌}
use atlas_gateway.Chat.Ports.{Provider}
use atlas_gateway.Chat.Service as Service
use atlas_gateway.Chat.Service.{ChatService, to_response}
use atlas_gateway.Chat.Caching.{request, cached_service, IsWaved, answered_again}

abbrev Server : Type 0
Server = String → Option Entry

abbrev same_digest : String → String
same_digest s = "cafe"

abbrev hour : ExactCache
hour = record { ttl_seconds = 3600 }

abbrev result_of : String → ChatResult
result_of model = record {
  model = model;
  content = "hi";
  finish_reason = "stop";
  usage = record {
    input_tokens = 2;
    output_tokens = 1;
    cache_creation_input_tokens = 0;
    cache_read_input_tokens = 0;
  };
}

abbrev parrot : Provider Server (Unit {0})
parrot = record {
  name = "mock";
  chat = λ model messages max_tokens temperature w. (ok (result_of model), w);
  chat_stream = λ model messages max_tokens temperature w. (([], none), w);
}

abbrev hi : ChatCompletionResponse
hi = to_response "0f" 20 (result_of "mock")

abbrev plain : ChatService Server (Unit {0})
plain = record {
  registry = λ model. some parrot;
  guardrails = none;
  cache = none;
  rate_limiter = none;
  budget = none;
  recorder = none;
  router = none;
  breaker = none;
  prompt_registry = none;
  uuid_hex = λ w. "0f";
  time = λ w. 20;
  dump_json = λ r. "json";
  validate_json = λ t. ok hi;
}

abbrev hello : ChatCompletionRequest
hello = record {
  model = "mock";
  messages = record { role = "user"; content = "Hello" } ∷ [];
  max_tokens = none;
  temperature = none;
  stream = false;
  prompt_ref = none;
  prompt_params = none;
}

abbrev asked : List Message
asked = record { role = "user"; content = "Hello" } ∷ []

abbrev nothing : Server
nothing k = none

waved : IsWaved same_digest strings_in_memory hour (20 * second) plain hello "k" asked "none" []
unfolding Service.pre_checks Service.provider_messages ◌>>=◌
waved w = refl

first_answer :
    (Service.complete
      (cached_service same_digest strings_in_memory hour (20 * second) plain)
      hello
      "k"
      nothing).outcome
    ≡ ok hi
unfolding Service.complete Service.fresh Service.pre_checks Service.get_stage Service.answer
    Service.call_provider Service.route_stage Service.resolve Service.shielded Service.ask
    Service.record_stage Service.record_with Service.post_stage Service.set_stage
    Service.provider_messages Exact.get ◌>>=◌
first_answer = refl

nothing_stored :
    Exact.get same_digest strings_in_memory hour
      (request "k" "mock" asked "none")
      (20 * second)
      nothing
    ≡ none
unfolding Exact.get
nothing_stored = refl

answered_again_example :
    Service.complete
      (cached_service same_digest strings_in_memory hour (20 * second) plain)
      hello
      "k"
      (Service.complete
        (cached_service same_digest strings_in_memory hour (20 * second) plain)
        hello
        "k"
        nothing).world
    ≡ record {
      outcome = ok hi;
      world =
          (Service.complete
            (cached_service same_digest strings_in_memory hour (20 * second) plain)
            hello
            "k"
            nothing).world;
      calls = cache_get "k" "mock" "none" ∷ [];
    }
answered_again_example =
    answered_again same_digest strings_in_memory hour (20 * second) plain hello "k" asked "none" []
      nothing hi waved nothing_stored (omega arith) refl first_answer
