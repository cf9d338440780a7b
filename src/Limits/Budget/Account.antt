-- ===== src/Limits/Budget/Account.antt =====
-- The account of one key in one period, and the methods over Redis that implement it.
use atlas_gateway.Common.{
  ℕ, ◌+◌, ◌*◌, ◌≤◌, ◌<◌, String, ◌++ₛ◌, ◌≡◌, ◌≢◌, ap, lt→ltb, ◌∙◌, inl, inr, Bool, true, false,
  arith, leb, if◌then◌else◌, Bool-cases, Result, ok, err, pos, prefix_ne,
}
use package.text.Mathlib.TextLemmas.{append_cancel_right}
use atlas_gateway.Redis.{Redis, text, second}
use atlas_gateway.Redis.Written.{hget-expire-hset}
use atlas_gateway.Limits.Budget.{
  Enforcer, Error, budget_exceeded, BudgetState, period_ttl_seconds, key, as_decimal, as_flag,
  at_threshold, crosses, mapping, txn, txn_read, accrue, check, charge,
}

pub record Account : Type 0 where
  pub spend : ℕ
  pub alerted : Bool

-- A call of `check` or of `charge`.
pub data Op : Type 0 where
  checking charging : Op

module _ (e : Enforcer) where
  -- Four fifths of the cap are reached.
  abbrev pub is_high : ℕ → Bool
  is_high spend = leb (4 * e.cap_usd) (5 * spend)

  -- The one time at which the alert is due.
  abbrev pub fires : Account → ℕ → Bool
  fires a new_spend =
      if e.alert_at_80pct
      then if a.alerted then false else if is_high a.spend then false else is_high new_spend
      else false

  abbrev pub refuses : Op → Account → Bool
  refuses checking a = leb e.cap_usd a.spend
  refuses charging a = false

  abbrev pub accepted : ℕ → Account → Account
  accepted cost a = record {
    spend = a.spend + cost;
    alerted = if fires a (a.spend + cost) then true else a.alerted;
  }

  abbrev pub after : Op → ℕ → Account → Account
  after op cost a = if refuses op a then a else accepted cost a

  abbrev pub reply : Op → ℕ → Account → Result Error BudgetState
  reply op cost a =
      if refuses op a
      then err (budget_exceeded e.cap_usd e.resets_on)
      else ok (record {
        spend = a.spend + cost;
        cap_usd = e.cap_usd;
        alert_fired = fires a (a.spend + cost);
      })

  abbrev pub enforces : Op → Bool
  enforces checking = true
  enforces charging = false

  crosses-fires : (a : Account) (n : ℕ) → crosses e a.alerted a.spend n ≡ fires a n
  unfolding crosses at_threshold
  crosses-fires a n = ground arith

-- The keys of two API keys differ, for one enforcer.
pub key_ne : (e : Enforcer) (a b : String) → a ≢ b → key e a ≢ key e b
unfolding key
key_ne e a b h =
    prefix_ne "atlas:budget:" (a ++ₛ (":" ++ₛ e.period)) (b ++ₛ (":" ++ₛ e.period))
      (λ q. h (append_cancel_right a b (":" ++ₛ e.period) q))

module _ (redis : Redis) (e : Enforcer) where
  open redis use {Db, hget, hset, expire}

  -- The method of an operation.
  abbrev pub method : Op → String → ℕ → ℕ → Db → Result Error BudgetState × Db
  method checking k cost now db = check redis e k (pos cost) now db
  method charging k cost now db = charge redis e k (pos cost) now db

  -- From one time to another the database has the account of the key.
  pub record Holds (k : String) (from until : ℕ) (db : Db) (a : Account) : Type 0 where
    pub spend_at :
        (u : ℕ) → from ≤ u → u ≤ until → as_decimal (hget u db (key e k) "spend") 0 ≡ ok a.spend
    pub alerted_at :
        (u : ℕ) → from ≤ u → u ≤ until → as_flag (hget u db (key e k) "alerted") ≡ a.alerted

  -- The database after `_txn` has written.
  abbrev write : String → ℕ → ℕ → Account → Db → Db
  write k cost now a db =
      expire now (key e k) period_ttl_seconds
        (hset now (key e k) (mapping (a.spend + cost) (fires e a (a.spend + cost))) db)

  -- What `_txn` writes is read back as the account after it.
  write-Holds :
      (k : String) (t until now cost : ℕ) (db : Db) (a : Account)
      → Holds k t until db a
      → t ≤ now
      → now ≤ until
      → until < now + period_ttl_seconds * second
      → Holds k now until (write k cost now a db) (accepted e cost a)
  unfolding mapping as_decimal as_flag
  write-Holds k t until now cost db a h le before ttl = record {
    spend_at = λ u lu le'.
        rw (hget-expire-hset redis now u (key e k) "spend" _ _ db lu)
          (rw (lt→ltb u (now + period_ttl_seconds * second) (omega arith)));
    alerted_at = λ u lu le'. rw (hget-expire-hset redis now u (key e k) "alerted" _ _ db lu) (
        rw (lt→ltb u (now + period_ttl_seconds * second) (omega arith))
          (elim (Bool-cases (fires e a (a.spend + cost))) [
            | inl f ↦ rw f
            | inr f ↦ rw f (h.alerted_at now le before)
          ]));
  }

  txn-eq :
      (op : Op) (k : String) (now cost : ℕ) (db : Db) (a : Account)
      → txn redis e k cost (enforces e op) now db a.spend a.alerted ≡ (
          if refuses e op a
          then (record { spend = a.spend; exceeded = true; alert_fired = false }, db)
          else (
            record {
              spend = a.spend + cost;
              exceeded = false;
              alert_fired = fires e a (a.spend + cost);
            },
            write k cost now a db,
          ))
  unfolding txn
  txn-eq checking k now cost db a = rw (crosses-fires e a (a.spend + cost))
  txn-eq charging k now cost db a = rw (crosses-fires e a (a.spend + cost))

  accrue-eq :
      (op : Op) (k : String) (t until now cost : ℕ) (db : Db) (a : Account)
      → Holds k t until db a
      → t ≤ now
      → now ≤ until
      → accrue redis e k (pos cost) (enforces e op) now db ≡ (
          if refuses e op a
          then (ok (record { spend = a.spend; exceeded = true; alert_fired = false }), db)
          else (
            ok (record {
              spend = a.spend + cost;
              exceeded = false;
              alert_fired = fires e a (a.spend + cost);
            }),
            write k cost now a db,
          ))
  unfolding accrue txn_read
  accrue-eq op k t until now cost db a h le before =
      ap (txn_read redis e k cost (enforces e op) now db) (h.spend_at now le before)
      ∙ rw (h.alerted_at now le before, txn-eq op k now cost db a)
          (elim (Bool-cases (refuses e op a)) [ inl r ↦ rw r | inr r ↦ rw r ])

  -- The reply of a method, and what it leaves of the database.
  pub method-eq :
      (op : Op) (k : String) (t until now cost : ℕ) (db : Db) (a : Account)
      → Holds k t until db a
      → t ≤ now
      → now ≤ until
      → method op k cost now db
        ≡ (reply e op cost a, if refuses e op a then db else write k cost now a db)
  unfolding check charge
  method-eq checking k t until now cost db a h le before =
      rw (accrue-eq checking k t until now cost db a h le before)
        (elim (Bool-cases (leb e.cap_usd a.spend)) [ inl r ↦ rw r | inr r ↦ rw r ])
  method-eq charging k t until now cost db a h le before =
      rw (accrue-eq charging k t until now cost db a h le before)

  pub Holds-method :
      (op : Op) (k : String) (t until now cost : ℕ) (db : Db) (a : Account)
      → Holds k t until db a
      → t ≤ now
      → now ≤ until
      → until < now + period_ttl_seconds * second
      → Holds k now until (method op k cost now db).1 (after e op cost a)
  Holds-method op k t until now cost db a h le before ttl =
      rw (method-eq op k t until now cost db a h le before) (elim (Bool-cases (refuses e op a)) [
        | inl r ↦ rw r (record {
          spend_at = λ u lu le'. h.spend_at u (omega arith) le';
          alerted_at = λ u lu le'. h.alerted_at u (omega arith) le';
        })
        | inr r ↦ rw r (write-Holds k t until now cost db a h le before ttl)
      ])
