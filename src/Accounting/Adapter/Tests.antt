-- ===== src/Accounting/Adapter/Tests.antt =====
-- The adapter over the table in memory, with a publisher that counts.
use atlas_gateway.Common.{err, ◌++ₛ◌, ◌≡◌, refl, true, none, some, ok}
use atlas_gateway.Chat.Ports.{CallContext}
use atlas_gateway.Routing.Aliases.{alias_seed}
use atlas_gateway.Accounting.Recorder as Recorder
use atlas_gateway.Accounting.Recorder.Memory as Memory
use atlas_gateway.Accounting.Postgres.{column}
use atlas_gateway.Accounting.Recorder.{CallRecord, Rates, compute_cost}
use atlas_gateway.Accounting.Recorder.Memory.{memory, Rows}
use atlas_gateway.Accounting.Adapter.{
  AccountingRecorder, rates_from_seed, rates_for, find_rates, provider_for_model, lower_starts_with,
  to_record, publish, after_record, record_call,
}

abbrev adapter : AccountingRecorder Rows (Unit {0})
adapter = record {
  recorder = λ r db. elim (Recorder.record_call memory r db) [
    | ok db' ↦ (ok tt, db')
    | err e ↦ (err tt, db)
  ];
  rates = rates_from_seed alias_seed;
  publisher = some (λ r db. (ok true, db));
  app_name = "atlas-gateway";
  uuid4 = λ db. "c1";
  api_key_uuid = λ key. "u" ++ₛ key;
}

abbrev no_rows : Rows
no_rows i = none

abbrev smart_call : CallContext
smart_call = record {
  api_key_id = "k";
  model = "Claude-sonnet-4-6";
  usage = record {
    input_tokens = 10;
    output_tokens = 20;
    cache_creation_input_tokens = 0;
    cache_read_input_tokens = 0;
  };
  alias = some "smart";
  prompt_version = "v1";
}

provider_of_call : provider_for_model "Claude-sonnet-4-6" ≡ "anthropic"
unfolding provider_for_model lower_starts_with
provider_of_call = refl

cost_of_call : (record_call adapter smart_call no_rows).0 ≡ some 330000000
unfolding record_call after_record publish to_record rates_from_seed rates_for find_rates
    compute_cost Recorder.record_call Memory.execute column
cost_of_call = refl
