-- ===== src/Accounting/Recorder/Tests.antt =====
-- Two calls, the first of them sent again with another latency.
use atlas_gateway.Accounting.Postgres.{unique_violation, number, column, Value, DbError}
use atlas_gateway.Common.{
  err, Option, Result, ok, ℕ, ◌*◌, String, ◌≡◌, refl, none, some, List, [], ◌∷◌,
}
use atlas_gateway.Domain.Messages.{Usage}
use atlas_gateway.Accounting.Recorder.{
  arguments, insert_sql, record_call, CallRecord, Rates, compute_cost,
}
use atlas_gateway.Accounting.Recorder.Memory.{insert_over, insert_with, execute, memory, Rows}
use atlas_gateway.Accounting.Recorder.Once.{run}

abbrev tokens : ℕ → Usage
tokens n = record {
  input_tokens = n;
  output_tokens = 2 * n;
  cache_creation_input_tokens = 3;
  cache_read_input_tokens = 4;
}

-- The alias `smart`, 3 and 15 dollars.
abbrev smart : Rates
smart = record { in_per_1m = 30000; out_per_1m = 150000 }

cost_smart : compute_cost (tokens 10) smart ≡ 342450000
unfolding compute_cost
cost_smart = refl

abbrev sent : String → ℕ → CallRecord
sent i ms = record {
  id = i;
  api_key_id = "k";
  app = "a";
  model = "claude-sonnet-4-6";
  provider = "anthropic";
  usage = tokens 10;
  cost = 342450000;
  latency_ms = ms;
  status = 200;
  alias = some "smart";
  prompt_version_id = none;
}

abbrev retried : List CallRecord
retried = sent "c1" 5 ∷ sent "c2" 6 ∷ sent "c1" 7 ∷ []

abbrev no_rows : Rows
no_rows i = none

abbrev latency_of : Result DbError Rows → Option Value
latency_of (ok db) = elim (db "c1") [ none ↦ none | some row ↦ column "latency_ms" row ]
latency_of (err e) = none

-- The retry has not changed the row.
first_latency : latency_of (run memory retried no_rows) ≡ some (number 5)
unfolding record_call execute insert_with insert_over insert_sql arguments column
first_latency = refl

-- The same statement without its conflict clause.
without_clause :
    execute (record insert_sql { on_conflict = none }) (arguments (sent "c1" 7)) (λ i. some [])
    ≡ err unique_violation
unfolding execute insert_with insert_over insert_sql arguments column
without_clause = refl
