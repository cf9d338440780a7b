-- ===== src/Accounting/Adapter.antt =====
-- app/accounting/adapter.py: the recorder's adapter, which prices a call, has it recorded and
-- published, and swallows what fails. Lower case is that of ASCII letters, which model ids are of.
pub mod Swallowed
mod Tests
use Prim.Native.Char.{Char, code}
use Prim.Native.String.{[] as no_chars, ◌∷◌ as ◌∷ₛ◌}
use atlas_gateway.Common.{
  ℕ, ◌+◌, ◌*◌, String, Bool, true, false, ◌&&◌, ◌||◌, Option, none, some, List, [], ◌∷◌, map, ltb,
  leb, ◌==◌, ◌=ₛ◌, if◌then◌else◌, Result, ok, err, Action,
}
use atlas_gateway.Domain.Messages.{Usage}
use atlas_gateway.Chat.Ports.{CallContext, Recorder}
use atlas_gateway.Routing.Aliases.{AliasSeed}
use atlas_gateway.Accounting.Recorder.{Rates, CallRecord, compute_cost}

abbrev pub zero_rates : Rates
zero_rates = record { in_per_1m = 0; out_per_1m = 0 }

-- `lowered.startswith(prefix)` for a prefix in lower case.
unfoldable pub lower_code : ℕ → ℕ
lower_code n = if leb 65 n && leb n 90 then n + 32 else n

unfoldable pub lower_starts_with : String → String → Bool
unfolding lower_code
lower_starts_with s no_chars = true
lower_starts_with no_chars (p ∷ₛ ps) = false
lower_starts_with (c ∷ₛ s) (p ∷ₛ ps) = (lower_code (code c) == code p) && lower_starts_with s ps

-- The value of the provider's enumeration.
unfoldable pub provider_for_model : String → String
unfolding lower_starts_with
provider_for_model model =
    if lower_starts_with model "claude"
    then "anthropic"
    else if lower_starts_with model "gemini" || lower_starts_with model "text-embedding-004"
    then "google"
    else "openai"

-- `rates_from_seed`: cents of the seed are a hundred of the ten-thousandths of a price.
unfoldable pub rates_from_seed : List AliasSeed → List (String × Rates)
rates_from_seed seed =
    map
      (λ row. (
        row.alias,
        record { in_per_1m = row.in_price_per_1m * 100; out_per_1m = row.out_price_per_1m * 100 },
      ))
      seed

unfoldable pub find_rates : List (String × Rates) → String → Option Rates
find_rates [] name = none
find_rates ((a, r) ∷ rs) name = if a =ₛ name then some r else find_rates rs name

abbrev pub rates_or : Option Rates → Rates → Rates
rates_or none r = r
rates_or (some s) r = s

-- The rates of `_to_record`: by the alias, then by the model, then zero.
unfoldable pub rates_for : List (String × Rates) → Option String → String → Rates
unfolding find_rates
rates_for rates none model = rates_or (find_rates rates model) zero_rates
rates_for rates (some alias) model =
    rates_or (find_rates rates alias) (rates_or (find_rates rates model) zero_rates)

-- `AccountingRecorder.__init__`: the call recorder and the publisher may raise; `uuid4` and
-- `api_key_uuid` are texts of ids.
pub record AccountingRecorder (W E : Type 0) : Type 0 where
  pub recorder : CallRecord → Action W E (Unit {0})
  pub rates : List (String × Rates)
  pub publisher : Option (CallRecord → Action W E Bool)
  pub app_name : String
  pub uuid4 : W → String
  pub api_key_uuid : String → String

module _ {W E : Type 0} (a : AccountingRecorder W E) where
  -- `_to_record`, with the id that it makes.
  unfoldable pub to_record : String → CallContext → CallRecord
  unfolding rates_for provider_for_model
  to_record id call = record {
    id = id;
    api_key_id = a.api_key_uuid call.api_key_id;
    app = a.app_name;
    model = call.model;
    provider = provider_for_model call.model;
    usage = call.usage;
    cost = compute_cost call.usage (rates_for a.rates call.alias call.model);
    latency_ms = 0;
    status = 200;
    alias = call.alias;
    prompt_version_id = none;
  }

  -- The publisher's turn; what it returns is not looked at.
  abbrev pub published : ℕ → Result E Bool → Option ℕ
  published cost (ok _) = some cost
  published cost (err _) = none

  unfoldable pub publish : Option (CallRecord → Action W E Bool) → CallRecord → W → Option ℕ × W
  publish none r w = (some r.cost, w)
  publish (some p) r w = let (sent, w') = p r w in (published r.cost sent, w')

  -- What is left of `record` when the row was sent.
  unfoldable pub after_record : CallRecord → Result E (Unit {0}) → W → Option ℕ × W
  unfolding publish
  after_record r (ok _) w = publish a.publisher r w
  after_record r (err _) w = (none, w)

  unfoldable pub record_call : CallContext → W → Option ℕ × W
  unfolding after_record to_record
  record_call call w =
      let r = to_record (a.uuid4 w) call in
      let (sent, w') = a.recorder r w in after_record r sent w'

  -- The adapter as the service's port.
  abbrev pub recorder_port : Recorder W
  recorder_port = record { record_call = record_call }
