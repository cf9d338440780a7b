-- ===== src/Accounting/Events/Tests.antt =====
-- A producer that is down, the default sink, and what a call then costs.
use atlas_gateway.Accounting.Events.Enqueued.{record_call-IsQuiet, IsQuiet}
use atlas_gateway.Common.{false, suc, [], ◌∷◌, err, refl, true, Bool, ok, some, ℕ, none, ◌≡◌}
use atlas_gateway.Domain.Messages.{Usage}
use atlas_gateway.Accounting.Recorder.{compute_cost}
use atlas_gateway.Accounting.Events.{
  publish, publish_record, partition_key, serialize, after_sink, after_send, noop_error_sink,
  KafkaProducer, init, EventPublisher, Codec, CallEvent,
}
use atlas_gateway.Chat.Ports.{CallContext}
use atlas_gateway.Accounting.Adapter.{rates_for, AccountingRecorder, record_call}

abbrev one_use : Usage
one_use = record {
  input_tokens = 10;
  output_tokens = 2;
  cache_creation_input_tokens = 0;
  cache_read_input_tokens = 0;
}

abbrev codec : Codec
codec = record { float_of = λ n. "0.1"; isoformat = λ n. "now"; dumps = λ ms. "payload" }

-- `true` is the exception of a broker that is down.
abbrev broker_down : KafkaProducer ℕ Bool
broker_down topic value key n = (err true, suc n)

abbrev event : CallEvent
event = record {
  event_id = "e";
  api_key_id = "k";
  call_record_id = "c";
  model = "claude";
  provider = "anthropic";
  input_tokens = 10;
  output_tokens = 2;
  cache_creation_input_tokens = 0;
  cache_read_input_tokens = 0;
  computed_cost_usd = 14;
  latency_ms = 0;
  status = 200;
  created_at = 1;
  alias = none;
}

abbrev publisher : EventPublisher ℕ Bool
publisher = init broker_down

quiet : IsQuiet publisher.error_sink
unfolding init noop_error_sink
quiet e exc w = refl

not_sent : publish codec publisher event 0 ≡ (ok false, 1)
unfolding publish init after_send after_sink noop_error_sink serialize partition_key
not_sent = refl

abbrev adapter : AccountingRecorder ℕ Bool
adapter = record {
  recorder = λ r n. (ok tt, n);
  rates = ("smart", record { in_per_1m = 1; out_per_1m = 2 }) ∷ [];
  publisher = some (publish_record codec (λ n. "e") (λ n. n) publisher);
  app_name = "gateway";
  uuid4 = λ n. "c";
  api_key_uuid = λ k. k;
}

abbrev call : CallContext
call = record {
  api_key_id = "k";
  model = "claude";
  usage = one_use;
  alias = some "smart";
  prompt_version = "";
}

record_call-IsQuiet_example :
    (record_call adapter call 0).0
    ≡ some (compute_cost one_use (rates_for adapter.rates (some "smart") "claude"))
record_call-IsQuiet_example =
    record_call-IsQuiet codec adapter publisher (λ n. "e") (λ n. n) call 0 refl quiet refl
