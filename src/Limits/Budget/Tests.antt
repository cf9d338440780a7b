-- ===== src/Limits/Budget/Tests.antt =====
-- A cap of 100 units, and the calls of two keys.
use atlas_gateway.Common.{
  ℕ, ◌*◌, ◌≡◌, refl, true, false, List, [], ◌∷◌, arith, ok, err, if◌then◌else◌, ltb,
}
use atlas_gateway.Redis.{second}
use atlas_gateway.Redis.Memory.{memory, no_keys, update}
use atlas_gateway.Limits.Budget as Budget
use atlas_gateway.Limits.Budget.{Enforcer, current_spend, budget_exceeded}
use atlas_gateway.Limits.Budget.Account.{checking, charging}
use atlas_gateway.Limits.Budget.Run.{
  Call, run, run-refines, replies, replies_of, calls_of, account_after, no_spend,
}
use atlas_gateway.Limits.Budget.Alerts.{alerts_once, alert_count, cost_of_accepted}

abbrev hundred : Enforcer
hundred = record {
  cap_usd = 100;
  period = "2026-05";
  resets_on = record { year = 2026; month = 6; day = 1 };
  alert_at_80pct = true;
}

abbrev may : List Call
may =
    record { at = 1 * second; api_key_id = "a"; op = charging; cost = 70 }
    ∷ record { at = 2 * second; api_key_id = "b"; op = charging; cost = 90 }
    ∷ record { at = 3 * second; api_key_id = "a"; op = charging; cost = 20 }
    ∷ record { at = 4 * second; api_key_id = "a"; op = charging; cost = 15 }
    ∷ record { at = 5 * second; api_key_id = "a"; op = checking; cost = 0 }
    ∷ []

run-refines_example :
    (replies memory hundred "a" may no_keys ≡ replies_of hundred (calls_of "a" may) no_spend)
    × (current_spend memory hundred "a" (6 * second) (run memory hundred may no_keys)
        ≡ ok (account_after hundred (calls_of "a" may) no_spend).spend)
run-refines_example =
    run-refines memory hundred "a" may 0 (6 * second) no_keys (λ u f. refl) (omega arith)
      (omega arith)

alerts_once_example :
    (spent : ℕ) × (current_spend memory hundred "a" (6 * second) (run memory hundred may no_keys)
      ≡ ok spent)
    × (spent ≡ cost_of_accepted (calls_of "a" may) (replies memory hundred "a" may no_keys))
    × (alert_count (replies memory hundred "a" may no_keys)
        ≡ (if true then if ltb (spent * 100) (100 * 80) then 0 else 1 else 0))
alerts_once_example =
    alerts_once memory hundred "a" may 0 (6 * second) no_keys (omega arith) (λ u f. refl)
      (omega arith) (omega arith)

-- The last call is refused: 105 of 100 are spent.
refused :
    replies memory hundred "a" may no_keys
    ≡ ok (record { spend = 70; cap_usd = 100; alert_fired = false })
      ∷ ok (record { spend = 90; cap_usd = 100; alert_fired = true })
      ∷ ok (record { spend = 105; cap_usd = 100; alert_fired = false })
      ∷ err (budget_exceeded 100 (record { year = 2026; month = 6; day = 1 }))
      ∷ []
unfolding Budget.check Budget.charge Budget.accrue Budget.txn_read Budget.txn Budget.key
    Budget.as_decimal Budget.as_flag update
refused = refl
