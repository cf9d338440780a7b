-- ===== src/Limits/Budget/Run.antt =====
-- Any calls of `check` and `charge` of many API keys in one billing period.
use atlas_gateway.Common.{
  none, ℕ, ◌+◌, ◌*◌, ◌≤◌, ◌<◌, String, ◌≡◌, refl, ◌≢◌, ap, ◌∙◌, sym, subst, inl, inr, Bool, true,
  false, List, [], ◌∷◌, arith, ◌&&◌, leb, ◌=ₛ◌, =ₛ_iff, ne_of_test, if◌then◌else◌, subst, sym, ap,
  ◌∙◌, Bool-cases, Result, ok, err,
}
use native.Mathlib.Nat.{le_refl}
use atlas_gateway.Redis.{Redis, second}
use atlas_gateway.Redis.Written.{hget-expire-hset_ne}
use atlas_gateway.Limits.Budget.{
  current_spend, Enforcer, Error, BudgetState, period_ttl_seconds, key, as_decimal, as_flag, txn,
  txn_read, accrue, check, charge, mapping, crosses,
}
use atlas_gateway.Limits.Budget.Account.{
  Account, Op, checking, charging, after, reply, Holds, Holds-method, method, method-eq, key_ne,
}

pub record Call : Type 0 where
  pub at : ℕ
  pub api_key_id : String
  pub op : Op
  pub cost : ℕ

-- The calls come in the order of their times, none before the first time or after the last.
abbrev pub InOrder : ℕ → ℕ → List Call → Type 0
InOrder first last [] = first ≤ last
InOrder first last (c ∷ cs) = (first ≤ c.at) × InOrder c.at last cs

abbrev pub no_spend : Account
no_spend = record { spend = 0; alerted = false }

-- The calls of one key.
abbrev pub calls_of : String → List Call → List Call
calls_of k [] = []
calls_of k (c ∷ cs) = let rest = calls_of k cs in if c.api_key_id =ₛ k then c ∷ rest else rest

InOrder-le : (t last : ℕ) (cs : List Call) → InOrder t last cs → t ≤ last
InOrder-le t last [] h = h
InOrder-le t last (c ∷ cs) h = omega (arith, InOrder-le c.at last cs h.1)

module _ (e : Enforcer) where
  -- The account after some calls, and the replies to them.
  abbrev pub account_after : List Call → Account → Account
  account_after [] a = a
  account_after (c ∷ cs) a = account_after cs (after e c.op c.cost a)

  abbrev pub replies_of : List Call → Account → List (Result Error BudgetState)
  replies_of [] a = []
  replies_of (c ∷ cs) a = reply e c.op c.cost a ∷ replies_of cs (after e c.op c.cost a)

module _ (redis : Redis) (e : Enforcer) where
  open redis use {Db, hget, hset, expire}

  txn_read_ne :
      (k j f : String) (cost : ℕ) (enforce : Bool) (now u : ℕ) (db : Db) (r : Result Error ℕ)
      → k ≢ j
      → hget u (txn_read redis e k cost enforce now db r).1 (key e j) f ≡ hget u db (key e j) f
  unfolding txn_read txn
  txn_read_ne k j f cost enforce now u db (err x) ne = refl
  txn_read_ne k j f cost enforce now u db (ok spend) ne =
      let fired = crosses e (as_flag (hget now db (key e k) "alerted")) spend (spend + cost) in
      elim (Bool-cases (enforce && leb e.cap_usd spend)) [
        | inl h ↦ rw h
        | inr h ↦ rw h (
            hget-expire-hset_ne redis now u (key e k) (key e j) f (mapping (spend + cost) fired)
              period_ttl_seconds db (key_ne e k j ne))
      ]

  -- A call for one key leaves the fields of the others.
  pub hget-method_ne :
      (op : Op) (k j f : String) (cost now u : ℕ) (db : Db)
      → k ≢ j
      → hget u (method redis e op k cost now db).1 (key e j) f ≡ hget u db (key e j) f
  unfolding check charge accrue
  hget-method_ne checking k j f cost now u db ne = txn_read_ne k j f cost true now u db _ ne
  hget-method_ne charging k j f cost now u db ne = txn_read_ne k j f cost false now u db _ ne

  abbrev pub run : List Call → Db → Db
  run [] db = db
  run (c ∷ cs) db = run cs (method redis e c.op c.api_key_id c.cost c.at db).1

  -- The replies to the calls of one key.
  abbrev pub replies : String → List Call → Db → List (Result Error BudgetState)
  replies k [] db = []
  replies k (c ∷ cs) db =
      let (r, db') = method redis e c.op c.api_key_id c.cost c.at db in
      let rest = replies k cs db' in if c.api_key_id =ₛ k then r ∷ rest else rest

  -- The replies to the key's calls are those of the account, and the database holds the account.
  abbrev Agrees : String → ℕ → List Call → Db → List Call → Account → Type 0
  Agrees k last cs db own a =
      (replies k cs db ≡ replies_of e own a)
      × Holds redis e k last last (run cs db) (account_after e own a)

  Agrees-step :
      (k : String) (t last : ℕ) (cs : List Call) (db : Db) (a : Account)
      → Holds redis e k t last db a
      → InOrder t last cs
      → last < t + period_ttl_seconds * second
      → Agrees k last cs db (calls_of k cs) a
  Agrees-step k t last [] db a h le ttl = (
    refl,
    record {
      spend_at = λ u lu le'. h.spend_at u (omega arith) le';
      alerted_at = λ u lu le'. h.alerted_at u (omega arith) le';
    },
  )
  Agrees-step k t last (c ∷ cs) db a h (le, rest) ttl =
      let before = InOrder-le c.at last cs rest in
      elim (Bool-cases (c.api_key_id =ₛ k)) [
        | inl same ↦
            let own = (=ₛ_iff c.api_key_id k).0 same in
            let r =
              ap (λ j. (method redis e c.op j c.cost c.at db).0) own
              ∙ ap (λ x. x.0) (method-eq redis e c.op k t last c.at c.cost db a h le before) in
            let moved =
              subst
                (λ j.
                  Holds redis e k c.at last (method redis e c.op j c.cost c.at db).1
                    (after e c.op c.cost a))
                (sym own)
                (Holds-method redis e c.op k t last c.at c.cost db a h le before (omega arith)) in
            let ih =
              Agrees-step k c.at last cs _ (after e c.op c.cost a) moved rest (omega arith) in
            rw same (cc (r, ih.0), ih.1)
        | inr other ↦
            let apart = ne_of_test c.api_key_id k other in
            let still : Holds redis e k c.at last
                (method redis e c.op c.api_key_id c.cost c.at db).1 a =
              record {
                spend_at = λ u lu le'.
                    ap (λ v. as_decimal v 0)
                      (hget-method_ne c.op c.api_key_id k "spend" c.cost c.at u db apart)
                    ∙ h.spend_at u (omega arith) le';
                alerted_at = λ u lu le'.
                    ap as_flag (hget-method_ne c.op c.api_key_id k "alerted" c.cost c.at u db apart)
                    ∙ h.alerted_at u (omega arith) le';
              } in
            rw other (Agrees-step k c.at last cs _ a still rest (omega arith))
      ]

  -- The server has nothing under the key of an API key.
  abbrev pub IsFresh : String → Db → Type 0
  IsFresh k db = (u : ℕ) (f : String) → hget u db (key e k) f ≡ none

  Holds-IsFresh :
      (k : String) (t last : ℕ) (db : Db) → IsFresh k db → Holds redis e k t last db no_spend
  unfolding as_decimal as_flag
  Holds-IsFresh k t last db h = record {
    spend_at = λ u lu le. rw (h u "spend");
    alerted_at = λ u lu le. rw (h u "alerted");
  }

  -- In a period of at most 35 days that starts with no spend of the key, whatever calls are made
  -- for this key and for others, in the order of their times: the replies to the key's calls are
  -- those that an account of its own gives to them alone, and `current_spend` is the spend of that
  -- account. No key expires in the period.
  pub run-refines :
      (k : String) (cs : List Call) (first last : ℕ) (db : Db)
      → IsFresh k db
      → InOrder first last cs
      → last < first + period_ttl_seconds * second
      → (replies k cs db ≡ replies_of e (calls_of k cs) no_spend)
        × (current_spend redis e k last (run cs db)
            ≡ ok (account_after e (calls_of k cs) no_spend).spend)
  unfolding current_spend
  run-refines k cs first last db fresh ordered ttl =
      let (r, h) =
        Agrees-step k first last cs db no_spend (Holds-IsFresh k first last db fresh) ordered ttl in
      (r, h.spend_at last (le_refl last) (le_refl last))
