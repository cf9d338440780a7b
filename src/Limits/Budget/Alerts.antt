-- ===== src/Limits/Budget/Alerts.antt =====
-- What the replies of a period add up to: the spend, the refusals and the one alert.
use atlas_gateway.Common.{
  sym, ℕ, ◌+◌, ◌*◌, ◌<◌, String, ◌≡◌, ap, ◌∙◌, Bool, true, false, List, [], ◌∷◌, arith, ltb,
  if◌then◌else◌, Bool-cases, inl, inr, Result, ok, err,
}
use atlas_gateway.Redis.{Redis, second}
use atlas_gateway.Limits.Budget.{Enforcer, Error, BudgetState, period_ttl_seconds, current_spend}
use atlas_gateway.Limits.Budget.Account.{
  Account, Op, checking, charging, is_high, refuses, after, reply,
}
use atlas_gateway.Limits.Budget.Run.{
  Call, InOrder, IsFresh, no_spend, calls_of, account_after, replies_of, replies, run, run-refines,
}

-- How many replies carry the alert.
abbrev pub alert_count : List (Result Error BudgetState) → ℕ
alert_count [] = 0
alert_count (err x ∷ rs) = alert_count rs
alert_count (ok s ∷ rs) = (if s.alert_fired then 1 else 0) + alert_count rs

-- The costs of the calls that were answered by a state, added up.
abbrev pub cost_of_accepted : List Call → List (Result Error BudgetState) → ℕ
cost_of_accepted [] rs = 0
cost_of_accepted (c ∷ cs) [] = 0
cost_of_accepted (c ∷ cs) (err x ∷ rs) = cost_of_accepted cs rs
cost_of_accepted (c ∷ cs) (ok s ∷ rs) = c.cost + cost_of_accepted cs rs

abbrev flag : Bool → ℕ
flag true = 1
flag false = 0

module _ (e : Enforcer) where
  -- The alert has been given exactly if it is enabled and the spend is high.
  abbrev InStep : Account → Type 0
  InStep a = a.alerted ≡ (if e.alert_at_80pct then is_high e a.spend else false)

  after-InStep : (op : Op) (cost : ℕ) (a : Account) → InStep a → InStep (after e op cost a)
  after-InStep checking cost a h = ground arith
  after-InStep charging cost a h = ground arith

  alert_count-reply :
      (op : Op) (cost : ℕ) (a : Account) (rs : List (Result Error BudgetState))
      → InStep a
      → flag a.alerted + alert_count (reply e op cost a ∷ rs)
        ≡ flag (after e op cost a).alerted + alert_count rs
  alert_count-reply checking cost a rs h = ground arith
  alert_count-reply charging cost a rs h = ground arith

  alert_count-replies :
      (cs : List Call) (a : Account)
      → InStep a
      → flag a.alerted + alert_count (replies_of e cs a) ≡ flag (account_after e cs a).alerted
  alert_count-replies [] a h = omega arith
  alert_count-replies (c ∷ cs) a h =
      alert_count-reply c.op c.cost a (replies_of e cs (after e c.op c.cost a)) h
      ∙ alert_count-replies cs (after e c.op c.cost a) (after-InStep c.op c.cost a h)

  InStep-account_after : (cs : List Call) (a : Account) → InStep a → InStep (account_after e cs a)
  InStep-account_after [] a h = h
  InStep-account_after (c ∷ cs) a h =
      InStep-account_after cs (after e c.op c.cost a) (after-InStep c.op c.cost a h)

  spend-account_after :
      (cs : List Call) (a : Account)
      → (account_after e cs a).spend ≡ a.spend + cost_of_accepted cs (replies_of e cs a)
  spend-account_after [] a = omega arith
  spend-account_after (c ∷ cs) a =
      spend-account_after cs (after e c.op c.cost a)
      ∙ elim (Bool-cases (refuses e c.op a)) [ inl r ↦ rw r | inr r ↦ rw r (omega arith) ]

  no_spend-InStep : 0 < e.cap_usd → InStep no_spend
  no_spend-InStep h = ground arith

  flag-InStep :
      (a : Account)
      → InStep a
      → flag a.alerted
        ≡ (if e.alert_at_80pct then if ltb (a.spend * 100) (e.cap_usd * 80) then 0 else 1 else 0)
  flag-InStep a h = ground arith

module _ (redis : Redis) (e : Enforcer) where
  open redis use {Db}

  -- In a period of at most 35 days that starts with no spend of the key: the spend at the end is
  -- the sum of the costs of the key's calls that were not refused, and of the replies to them
  -- exactly one carries the alert if it is enabled and the spend has reached 80% of the cap, and
  -- none otherwise.
  pub alerts_once :
      (k : String) (cs : List Call) (first last : ℕ) (db : Db)
      → 0 < e.cap_usd
      → IsFresh redis e k db
      → InOrder first last cs
      → last < first + period_ttl_seconds * second
      → (spent : ℕ) × (current_spend redis e k last (run redis e cs db) ≡ ok spent)
        × (spent ≡ cost_of_accepted (calls_of k cs) (replies redis e k cs db))
        × (alert_count (replies redis e k cs db)
            ≡ (if e.alert_at_80pct then if ltb (spent * 100) (e.cap_usd * 80) then 0 else 1 else 0))
  alerts_once k cs first last db positive fresh ordered ttl =
      let (r, s) = run-refines redis e k cs first last db fresh ordered ttl in
      let own = calls_of k cs in
      let a = account_after e own no_spend in
      let start = no_spend-InStep e positive in
      (
        a.spend,
        s,
        omega (arith, spend-account_after e own no_spend)
            ∙ ap (λ rs. cost_of_accepted own rs) (sym r),
        ap alert_count r
            ∙ omega (arith, alert_count-replies e own no_spend start)
            ∙ flag-InStep e a (InStep-account_after e own no_spend start),
      )
