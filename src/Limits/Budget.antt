-- ===== src/Limits/Budget.antt =====
-- app/limits/budget.py: the monthly spend of an API key against its cap.
--
-- Amounts are whole numbers of a unit of money so small that every price is a whole number of it;
-- the code's `Decimal` has 28 digits, and the model has no bound.
pub mod Account
pub mod Run
pub mod Alerts
mod Tests
use atlas_gateway.Common.{
  ◌-◌, ◌%◌, ◌/◌, ℕ, ◌+◌, ◌*◌, String, ◌++ₛ◌, Bool, true, false, ◌&&◌, not, Option, none, some, List,
  [], ◌∷◌, ◌++◌, leb, ltb, ◌==◌, ◌=ₛ◌, if◌then◌else◌, Result, ok, err, ◌>>=◌, ℤ, pos, negsuc,
}
use atlas_gateway.Redis.{Redis, Value, text, num, Fields}

pub record Date : Type 0 where
  pub year : ℕ
  pub month : ℕ
  pub day : ℕ

pub data Error : Type 0 where
  value_error : Error
  invalid_operation : Error
  budget_exceeded : (cap_usd : ℕ) (resets_on : Date) → Error

pub record BudgetState : Type 0 where
  pub spend : ℕ
  pub cap_usd : ℕ
  pub alert_fired : Bool

-- `_Accrual`.
pub record Accrual : Type 0 where
  pub spend : ℕ
  pub exceeded : Bool
  pub alert_fired : Bool

-- `MonthlyBudgetEnforcer` without its client.
pub record Enforcer : Type 0 where
  pub cap_usd : ℕ
  pub period : String
  pub resets_on : Date
  pub alert_at_80pct : Bool

-- `__init__`.
unfoldable pub init : ℤ → String → Date → Bool → Result Error Enforcer
init (negsuc n) period resets_on alert = err value_error
init (pos cap) period resets_on alert =
    if cap == 0
    then err value_error
    else if period =ₛ ""
    then err value_error
    else ok
        (record { cap_usd = cap; period = period; resets_on = resets_on; alert_at_80pct = alert })

abbrev digits : List String
digits = "0" ∷ "1" ∷ "2" ∷ "3" ∷ "4" ∷ "5" ∷ "6" ∷ "7" ∷ "8" ∷ "9" ∷ []

unfoldable nth_text : List String → ℕ → String
nth_text [] n = ""
nth_text (t ∷ ts) n = if n == 0 then t else nth_text ts (n - 1)

-- The formats `02d` and `04d`, of a number that has no more digits.
unfoldable two_digits : ℕ → String
unfolding nth_text
two_digits n = nth_text digits (n / 10 % 10) ++ₛ nth_text digits (n % 10)

unfoldable pub monthly_period : Date → String
unfolding two_digits
monthly_period d =
    two_digits (d.year / 100) ++ₛ (two_digits (d.year % 100) ++ₛ ("-" ++ₛ two_digits d.month))

-- 35 days.
abbrev pub period_ttl_seconds : ℕ
period_ttl_seconds = 35 * 24 * 60 * 60

unfoldable pub key : Enforcer → String → String
key e api_key_id = "atlas:budget:" ++ₛ (api_key_id ++ₛ (":" ++ₛ e.period))

unfoldable pub as_decimal : Option Value → ℕ → Result Error ℕ
as_decimal none default = ok default
as_decimal (some (num n)) default = ok n
as_decimal (some (text s)) default = err invalid_operation

-- The flag is written as "1", the text of the number 1.
unfoldable pub as_flag : Option Value → Bool
as_flag none = false
as_flag (some (num n)) = n == 1
as_flag (some (text s)) = false

-- `spend >= cap * Decimal("0.80")`, both sides times 100.
unfoldable pub at_threshold : Enforcer → ℕ → Bool
at_threshold e spend = leb (e.cap_usd * 80) (spend * 100)

-- `crossed`.
unfoldable pub crosses : Enforcer → Bool → ℕ → ℕ → Bool
unfolding at_threshold
crosses e already_alerted spend new_spend =
    e.alert_at_80pct
    && (not already_alerted && (not (at_threshold e spend) && at_threshold e new_spend))

-- The mapping that `_txn` writes.
unfoldable pub mapping : ℕ → Bool → Fields
mapping new_spend crossed =
    ("spend", num new_spend) ∷ (if crossed then ("alerted", num 1) ∷ [] else [])

module _ (redis : Redis) (e : Enforcer) where
  open redis use {Db, hget, hset, expire}

  -- `_txn` with the two fields that it has read.
  unfoldable pub txn : String → ℕ → Bool → ℕ → Db → ℕ → Bool → Accrual × Db
  unfolding crosses mapping
  txn api_key_id cost enforce now db spend already_alerted =
      if enforce && leb e.cap_usd spend
      then (record { spend = spend; exceeded = true; alert_fired = false }, db)
      else let k = key e api_key_id in
        let new_spend = spend + cost in
        let crossed = crosses e already_alerted spend new_spend in
        (
          record { spend = new_spend; exceeded = false; alert_fired = crossed },
          expire now k period_ttl_seconds (hset now k (mapping new_spend crossed) db),
        )

  -- `_txn` with what Redis has answered for the spend.
  unfoldable pub txn_read : String → ℕ → Bool → ℕ → Db → Result Error ℕ → Result Error Accrual × Db
  txn_read api_key_id cost enforce now db (err x) = (err x, db)
  txn_read api_key_id cost enforce now db (ok spend) =
      let (a, db') =
        txn api_key_id cost enforce now db spend
          (as_flag (hget now db (key e api_key_id) "alerted")) in
      (ok a, db')

  -- `_accrue`.
  unfoldable pub accrue : String → ℤ → Bool → ℕ → Db → Result Error Accrual × Db
  accrue api_key_id (negsuc n) enforce now db = (err value_error, db)
  accrue api_key_id (pos cost) enforce now db =
      txn_read api_key_id cost enforce now db
        (as_decimal (hget now db (key e api_key_id) "spend") 0)

  -- The end of `check` and of `charge`.
  abbrev pub budget_state : Accrual → BudgetState
  budget_state a = record { spend = a.spend; cap_usd = e.cap_usd; alert_fired = a.alert_fired }

  unfoldable pub check : String → ℤ → ℕ → Db → Result Error BudgetState × Db
  check api_key_id cost now db =
      let (r, db') = accrue api_key_id cost true now db in
      (
        r >>= (λ a.
            if a.exceeded
            then err (budget_exceeded e.cap_usd e.resets_on)
            else ok (budget_state a)),
        db',
      )

  unfoldable pub charge : String → ℤ → ℕ → Db → Result Error BudgetState × Db
  charge api_key_id cost now db =
      let (r, db') = accrue api_key_id cost false now db in (r >>= (λ a. ok (budget_state a)), db')

  unfoldable pub current_spend : String → ℕ → Db → Result Error ℕ
  current_spend api_key_id now db = as_decimal (hget now db (key e api_key_id) "spend") 0
