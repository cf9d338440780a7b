-- ===== src/Chat/Tests.antt =====
-- A gateway with a limiter, a budget, guardrails, a cache, a recorder, the seed's routes and the
-- breaker over the server in memory; its provider answers "hi".
use atlas_gateway.Common.{◌*◌, String, ◌≡◌, refl, false, none, some, [], ◌∷◌, All, ok, err}
use atlas_gateway.Redis.{second}
use atlas_gateway.Redis.Memory.{update, memory, Store, no_keys}
use atlas_gateway.Resilience.Breaker as Circuit
use atlas_gateway.Resilience.Breaker.{CircuitBreaker, Snapshot, closed, opened}
use atlas_gateway.Routing.Aliases as Aliases
use atlas_gateway.Routing.Aliases.{alias_seed, rows_from_seed}
use atlas_gateway.Domain.Json.{get}
use atlas_gateway.Domain.Messages.{Usage}
use atlas_gateway.Domain.Openai.{ChatCompletionRequest}
use atlas_gateway.Chat.Run.{run_pre, provider_chat, record_success, run_post}
use atlas_gateway.Chat.Ports.{Breaker, Provider, RouteTarget, RouteResolver}
use atlas_gateway.Chat.Service as Service
use atlas_gateway.Chat.Service.{ChatService}
use atlas_gateway.Chat.Service.Order.{Rising, complete_in_order}
use atlas_gateway.Chat.Service.Admission.{IsMade}
use atlas_gateway.Chat.Service.Reporting.{dialogue, answered, shielded-dialogue}
use atlas_gateway.Chat.Stream as Stream
use atlas_gateway.Chat.Stream.{Streamed, stream_frames, stream}
use atlas_gateway.Chat.Stream.Frames.{
  IsBare, transcript, said, is_finished, ends_well, stream_says, stream_in_order,
}
use atlas_gateway.Chat.Breaking.{breaker_port, wired, open_breaker_bypassed}

-- The exceptions of the collaborators.
data Exc : Type 0 where
  circuit : Circuit.Error → Exc
  alias_error : Aliases.Error → Exc
  bad_json : Exc

abbrev three : CircuitBreaker
three = record { failure_threshold = 3; cooldown_seconds = 30 }

abbrev no_usage : Usage
no_usage = record {
  input_tokens = 2;
  output_tokens = 1;
  cache_creation_input_tokens = 0;
  cache_read_input_tokens = 0;
}

abbrev mock : Provider Store Exc
mock = record {
  name = "mock";
  chat = λ model messages max_tokens temperature w.
      (ok (record { model = model; content = "hi"; finish_reason = "stop"; usage = no_usage }), w);
  chat_stream = λ model messages max_tokens temperature w. (
    (
      record { content = "h"; finish_reason = none; usage = none }
          ∷ record { content = "i"; finish_reason = none; usage = none }
          ∷ record { content = ""; finish_reason = some "stop"; usage = some no_usage }
          ∷ [],
      none,
    ),
    w,
  );
}

abbrev router : RouteResolver Store Exc
router = record {
  resolve = λ alias w. (
    elim (Aliases.resolve (rows_from_seed alias_seed) alias none) [
      | ok t ↦ ok t
      | err e ↦ err (alias_error e)
    ],
    w,
  );
}

abbrev gateway : ChatService Store Exc
gateway = record {
  registry = λ model. some mock;
  guardrails = some (record { run_pre = λ c w. (ok c, w); run_post = λ c w. (ok c, w) });
  cache = some (record { get = λ t m ms v w. (ok none, w); set = λ t m ms x v w. (ok tt, w) });
  rate_limiter = some (record { check = λ k a w. (ok tt, w) });
  budget = some (record { check = λ k c w. (ok tt, w); charge = λ k c w. (ok tt, w) });
  recorder = some (record { record_call = λ c w. (some 3, w) });
  router = some router;
  breaker = some (breaker_port memory three (20 * second) circuit);
  prompt_registry = none;
  uuid_hex = λ w. "0f";
  time = λ w. 20;
  dump_json = λ r. r.model;
  validate_json = λ t. err bad_json;
}

abbrev hello : String → ChatCompletionRequest
hello model = record {
  model = model;
  messages = record { role = "user"; content = "Hello" } ∷ [];
  max_tokens = none;
  temperature = none;
  stream = false;
  prompt_ref = none;
  prompt_params = none;
}

complete_in_order_example : Rising 0 (Service.complete gateway (hello "smart") "k" no_keys).calls 14
complete_in_order_example = complete_in_order gateway (hello "smart") "k" no_keys

stream_in_order_example : Rising 0 (stream gateway (hello "mock") "k" no_keys).calls 4
stream_in_order_example = stream_in_order gateway (hello "mock") "k" no_keys

mock-IsBare : All IsBare (mock.chat_stream "mock" [] none none no_keys).0.0
unfolding Stream.is_final
mock-IsBare = ((λ e. cc), ((λ e. cc), ((λ e. refl), tt)))

stream_says_example :
    (transcript (stream_frames gateway (hello "mock") mock [] no_keys).0.frames
      ≡ said (mock.chat_stream "mock" [] none none no_keys).0.0)
    × (is_finished (stream_frames gateway (hello "mock") mock [] no_keys).0.frames
        ≡ ends_well (stream_frames gateway (hello "mock") mock [] no_keys).0.cut_off)
stream_says_example = stream_says gateway (hello "mock") mock [] no_keys mock-IsBare

-- A server on which the breaker of google has just opened.
abbrev down : Store
down = Circuit.save memory three "google" opened 3 (4 * second) (4 * second) no_keys

abbrev cooling : Snapshot
cooling = record {
  state = opened;
  failures = 3;
  opened_at = 4 * second;
  effective_state = opened;
  retry_after = 14;
}

abbrev unknown : Snapshot
unknown = record {
  state = closed;
  failures = 0;
  opened_at = 0;
  effective_state = closed;
  retry_after = 0;
}

abbrev balanced : RouteTarget
balanced = record {
  provider = "google";
  primary_model = "gemini-2.5-pro";
  fallback_model = "gemini-2.5-pro";
}

balanced_route : router.resolve "balanced" down ≡ (ok balanced, down)
unfolding Aliases.resolve Aliases.target_of rows_from_seed get
balanced_route = refl

load-down : Circuit.load memory three "google" (20 * second) down ≡ ok cooling
unfolding Circuit.load Circuit.save Circuit.read Circuit.as_int Circuit.as_float Circuit.as_state
    Circuit.state_value Circuit.mapping Circuit.interpret Circuit.ttl_seconds Circuit.key update
    Circuit.whole_seconds
load-down = refl

load-unknown : Circuit.load memory three "gemini-2.5-pro" (20 * second) down ≡ ok unknown
unfolding Circuit.load Circuit.save Circuit.read Circuit.as_int Circuit.as_float Circuit.as_state
    Circuit.state_value Circuit.mapping Circuit.interpret Circuit.ttl_seconds Circuit.key update
    Circuit.whole_seconds
load-unknown = refl

open_breaker_bypassed_example :
    IsMade
      (provider_chat "gemini-2.5-pro")
      (Service.call_provider
        (wired memory three (20 * second) circuit router gateway)
        (hello "balanced")
        []
        down).calls
open_breaker_bypassed_example =
    open_breaker_bypassed memory three (20 * second) circuit router gateway (hello "balanced") []
      balanced mock cooling unknown down balanced_route refl refl refl load-down refl load-unknown
      refl

-- A breaker that admits everything.
abbrev lenient : Breaker Store Exc
lenient = record {
  choose = λ primary fallback w. (ok primary, w);
  allow = λ id w. (ok tt, w);
  record_success = λ id w. (ok tt, w);
  record_failure = λ id w. (ok tt, w);
}

shielded-dialogue_example :
    ((Service.shielded gateway (some lenient) (some "google") mock "m" (hello "m") [] no_keys).calls
      ≡ dialogue {E = Exc} "google" "m" (ok tt) (mock.chat "m" [] none none no_keys).0)
    × ((Service.shielded gateway
          (some lenient)
          (some "google")
          mock
          "m"
          (hello "m")
          []
          no_keys).outcome
        ≡ answered {E = Exc} (ok tt) (mock.chat "m" [] none none no_keys).0)
shielded-dialogue_example =
    shielded-dialogue gateway lenient "google" mock "m" (hello "m") [] no_keys
      (λ id w. (refl, refl))
