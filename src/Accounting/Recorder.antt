-- ===== src/Accounting/Recorder.antt =====
-- app/accounting/recorder.py: the cost formula and the idempotent insert.
--
-- Prices are whole numbers of a unit (a ten-thousandth of a dollar for the columns' NUMERIC(10,4)),
-- and a cost is a whole number of that unit divided by 10^8: 10^6 for the price per million tokens
-- and 100 for the multipliers 1.25 and 0.10. The code's Decimal is exact while a cost has at most
-- 28 digits.
pub mod Price
pub mod Once
pub mod Memory
mod Tests
use atlas_gateway.Common.{
  Result, ℕ, ◌+◌, ◌*◌, ◌≤◌, String, ◌≡◌, ◌≢◌, Option, none, some, List, [], ◌∷◌,
}
use atlas_gateway.Domain.Messages.{Usage}
use atlas_gateway.Accounting.Postgres.{Value, text, number, null, Insert, Table, DbError}

abbrev pub cache_creation_multiplier : ℕ
cache_creation_multiplier = 125

abbrev pub cache_read_multiplier : ℕ
cache_read_multiplier = 10

pub record Rates : Type 0 where
  pub in_per_1m : ℕ
  pub out_per_1m : ℕ

unfoldable pub compute_cost : Usage → Rates → ℕ
compute_cost u r =
    u.input_tokens * (r.in_per_1m * 100)
    + u.output_tokens * (r.out_per_1m * 100)
    + u.cache_creation_input_tokens * (r.in_per_1m * cache_creation_multiplier)
    + u.cache_read_input_tokens * (r.in_per_1m * cache_read_multiplier)

-- `CallRecord`; ids are the texts of UUIDs, and the provider is its value.
pub record CallRecord : Type 0 where
  pub id : String
  pub api_key_id : String
  pub app : String
  pub model : String
  pub provider : String
  pub usage : Usage
  pub cost : ℕ
  pub latency_ms : ℕ
  pub status : ℕ
  pub alias : Option String
  pub prompt_version_id : Option String

-- `_INSERT_SQL`.
unfoldable pub insert_sql : Insert
insert_sql = record {
  into = "call_records";
  columns =
      "id" ∷ "api_key_id" ∷ "app" ∷ "prompt_version_id" ∷ "alias" ∷ "model" ∷ "provider"
      ∷ "input_tokens" ∷ "output_tokens" ∷ "cache_creation_input_tokens" ∷ "cache_read_input_tokens"
      ∷ "computed_cost_usd" ∷ "latency_ms" ∷ "status" ∷ [];
  on_conflict = some "id";
}

-- `None` is NULL.
unfoldable pub text_or_null : Option String → Value
text_or_null none = null
text_or_null (some t) = text t

-- The arguments of `execute`, in their order.
unfoldable pub arguments : CallRecord → List Value
unfolding text_or_null
arguments r =
    text r.id
    ∷ text r.api_key_id
    ∷ text r.app
    ∷ text_or_null r.prompt_version_id
    ∷ text_or_null r.alias
    ∷ text r.model
    ∷ text r.provider
    ∷ number r.usage.input_tokens
    ∷ number r.usage.output_tokens
    ∷ number r.usage.cache_creation_input_tokens
    ∷ number r.usage.cache_read_input_tokens
    ∷ number r.cost
    ∷ number r.latency_ms
    ∷ number r.status
    ∷ []

-- `CallRecorder.record`.
unfoldable pub record_call : (table : Table) → CallRecord → table.Db → Result DbError table.Db
unfolding insert_sql arguments
record_call table r db = table.execute insert_sql (arguments r) db
