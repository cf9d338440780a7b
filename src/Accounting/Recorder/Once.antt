-- ===== src/Accounting/Recorder/Once.antt =====
-- app/accounting/recorder.py: a call is recorded once, in the columns that are meant, however often
-- it is sent.
use atlas_gateway.Common.{
  ◌=ₛ◌, [], if◌then◌else◌, err, ◌∷◌, true, none, Result, some, ok, Option, String, ◌≡◌, List,
}
use atlas_gateway.Accounting.Postgres.{null, zip, Value, text, number, Row, column, Table, DbError}
use atlas_gateway.Accounting.Recorder.{CallRecord, record_call, insert_sql, arguments}

-- The first of the records with an id.
abbrev pub first_with : String → List CallRecord → Option CallRecord
first_with i [] = none
first_with i (r ∷ rs) = if r.id =ₛ i then some r else first_with i rs

-- A column that may be NULL.
unfoldable pub Holds : Option Value → Option String → Type 0
Holds v none = v ≡ some null
Holds v (some t) = v ≡ some (text t)

-- The row says what the record does, column by column.
unfoldable pub Shows : Row → CallRecord → Type 0
Shows row r =
    (column "id" row ≡ some (text r.id))
    × (column "api_key_id" row ≡ some (text r.api_key_id))
    × (column "app" row ≡ some (text r.app))
    × Holds (column "prompt_version_id" row) r.prompt_version_id
    × Holds (column "alias" row) r.alias
    × (column "model" row ≡ some (text r.model))
    × (column "provider" row ≡ some (text r.provider))
    × (column "input_tokens" row ≡ some (number r.usage.input_tokens))
    × (column "output_tokens" row ≡ some (number r.usage.output_tokens))
    × (column "cache_creation_input_tokens" row ≡ some (number r.usage.cache_creation_input_tokens))
    × (column "cache_read_input_tokens" row ≡ some (number r.usage.cache_read_input_tokens))
    × (column "computed_cost_usd" row ≡ some (number r.cost))
    × (column "latency_ms" row ≡ some (number r.latency_ms))
    × (column "status" row ≡ some (number r.status))

-- What a row becomes when records are sent, of which the given one is the first with its id.
unfoldable pub BecomesRow : Option Row → Option Row → Option CallRecord → Type 0
BecomesRow (some old) now first = now ≡ some old
BecomesRow none now none = now ≡ none
BecomesRow none now (some r) = (row : Row) × (now ≡ some row) × Shows row r

abbrev sent_row : CallRecord → Row
sent_row r = zip insert_sql.columns (arguments r)

module _ (table : Table) where
  open table use {Db, row, accepts}

  -- The constraints of the table besides its key hold of a row that says what the record does.
  unfoldable pub Accepts : CallRecord → Type 0
  Accepts r = (new_row : Row) → Shows new_row r → accepts new_row ≡ true

  abbrev pub run : List CallRecord → Db → Result DbError Db
  run [] db = ok db
  run (r ∷ rs) db = elim (record_call table r db) [ ok db' ↦ run rs db' | err e ↦ err e ]
