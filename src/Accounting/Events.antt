-- ===== src/Accounting/Events.antt =====
-- app/accounting/events.py: the accounting event of a recorded call and its publisher.
pub mod Enqueued
mod Tests
use atlas_gateway.Accounting.Recorder.{CallRecord}
use atlas_gateway.Domain.Json.{no_members, float, integer, null, str, member, Json, Members}
use atlas_gateway.Common.{
  pos, err, none, false, true, Bool, some, Option, ok, Action, Result, ℕ, String,
}

abbrev pub calls_topic : String
calls_topic = "atlas.calls.v1"

-- `CallEvent`; ids are the texts of UUIDs, and a time is a number of microseconds.
pub record CallEvent : Type 0 where
  pub event_id : String
  pub api_key_id : String
  pub call_record_id : String
  pub model : String
  pub provider : String
  pub input_tokens : ℕ
  pub output_tokens : ℕ
  pub cache_creation_input_tokens : ℕ
  pub cache_read_input_tokens : ℕ
  pub computed_cost_usd : ℕ
  pub latency_ms : ℕ
  pub status : ℕ
  pub created_at : ℕ
  pub alias : Option String

-- `given or fresh`.
abbrev pub or_fresh : {A : Type 0} → Option A → A → A
or_fresh none fresh = fresh
or_fresh (some given) fresh = given

-- `from_record`, where `uuid4` and `now` are what `uuid.uuid4()` and `datetime.now(UTC)` return.
unfoldable pub from_record :
    (uuid4 : String) (now : ℕ) → CallRecord → Option String → Option ℕ → CallEvent
from_record uuid4 now r event_id created_at = record {
  event_id = or_fresh event_id uuid4;
  api_key_id = r.api_key_id;
  call_record_id = r.id;
  model = r.model;
  provider = r.provider;
  input_tokens = r.usage.input_tokens;
  output_tokens = r.usage.output_tokens;
  cache_creation_input_tokens = r.usage.cache_creation_input_tokens;
  cache_read_input_tokens = r.usage.cache_read_input_tokens;
  computed_cost_usd = r.cost;
  latency_ms = r.latency_ms;
  status = r.status;
  created_at = or_fresh created_at now;
  alias = r.alias;
}

abbrev pub text_or_null : Option String → Json
text_or_null none = null
text_or_null (some s) = str s

-- What the code takes of the language: `float` of a cost (its text), `isoformat` and `json.dumps`.
pub record Codec : Type 0 where
  pub float_of : ℕ → String
  pub isoformat : ℕ → String
  pub dumps : Members → String

module _ (codec : Codec) where
  unfoldable pub to_payload : CallEvent → Members
  to_payload e = member "event_id" (str e.event_id) (
      member "api_key_id" (str e.api_key_id) (
        member "call_record_id" (str e.call_record_id) (
          member "alias" (text_or_null e.alias) (
            member "model" (str e.model) (
              member "provider" (str e.provider) (
                member "input_tokens" (integer (pos e.input_tokens)) (
                  member "output_tokens" (integer (pos e.output_tokens)) (
                    member "cache_creation_input_tokens"
                      (integer (pos e.cache_creation_input_tokens))
                      (member "cache_read_input_tokens" (integer (pos e.cache_read_input_tokens)) (
                        member "computed_cost_usd" (float (codec.float_of e.computed_cost_usd)) (
                          member "latency_ms" (integer (pos e.latency_ms)) (
                            member "status" (integer (pos e.status)) (
                              member "created_at" (str (codec.isoformat e.created_at))
                                no_members)))))))))))))

  -- `serialize`; the bytes are the text that they encode.
  unfoldable pub serialize : CallEvent → String
  unfolding to_payload
  serialize e = codec.dumps (to_payload e)

-- `partition_key`.
unfoldable pub partition_key : CallEvent → String
partition_key e = e.api_key_id

-- `KafkaProducer`: `send` with the topic, the value and the key.
abbrev pub KafkaProducer : Type 0 → Type 0 → Type 0
KafkaProducer W E = String → String → String → Action W E (Unit {0})

-- `ErrorSink`: called with the event and the exception; it may raise.
abbrev pub ErrorSink : Type 0 → Type 0 → Type 0
ErrorSink W E = CallEvent → E → Action W E (Unit {0})

-- The default sink.
unfoldable pub noop_error_sink : {W E : Type 0} → ErrorSink W E
noop_error_sink event exc w = (ok tt, w)

pub record EventPublisher (W E : Type 0) : Type 0 where
  pub producer : KafkaProducer W E
  pub topic : String
  pub error_sink : ErrorSink W E

module _ {W E : Type 0} where
  unfoldable pub init : KafkaProducer W E → EventPublisher W E
  unfolding noop_error_sink
  init producer = record { producer = producer; topic = calls_topic; error_sink = noop_error_sink }

  -- After the sink: what it raises is raised.
  unfoldable pub after_sink : Result E (Unit {0}) → W → Result E Bool × W
  after_sink (ok done) w = (ok false, w)
  after_sink (err e) w = (err e, w)

  unfoldable pub after_send :
      EventPublisher W E → CallEvent → Result E (Unit {0}) → W → Result E Bool × W
  unfolding after_sink
  after_send p event (ok sent) w = (ok true, w)
  after_send p event (err exc) w = let (reply, w') = p.error_sink event exc w in after_sink reply w'

  unfoldable pub publish : Codec → EventPublisher W E → CallEvent → Action W E Bool
  unfolding after_send serialize partition_key
  publish codec p event w =
      let (sent, w') = p.producer p.topic (serialize codec event) (partition_key event) w in
      after_send p event sent w'

  -- `publish_record`; `uuid4` and `now` read the world.
  unfoldable pub publish_record :
      Codec → (W → String) → (W → ℕ) → EventPublisher W E → CallRecord → Action W E Bool
  unfolding publish from_record
  publish_record codec uuid4 now p r w =
      publish codec p (from_record (uuid4 w) (now w) r none none) w
