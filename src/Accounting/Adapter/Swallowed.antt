-- ===== src/Accounting/Adapter/Swallowed.antt =====
-- app/accounting/adapter.py: what the service learns of the accounting.
use atlas_gateway.Common.{
  sym, ℕ, String, ◌≡◌, refl, Bool, Option, none, some, Result, ok, err, Action, arith,
}
use atlas_gateway.Chat.Ports.{CallContext}
use atlas_gateway.Accounting.Recorder.{CallRecord, compute_cost}
use atlas_gateway.Accounting.Adapter.{
  AccountingRecorder, rates_for, to_record, published, publish, after_record, record_call,
}

some_inj : {m n : ℕ} → ◌≡◌ {A = Option ℕ} (some m) (some n) → m ≡ n
some_inj e = ground arith

module _ {W E : Type 0} (a : AccountingRecorder W E) where
  published-cost :
      (cost : ℕ) (sent : Result E Bool) (c : ℕ) → published a cost sent ≡ some c → cost ≡ c
  published-cost cost (ok _) c e = some_inj e
  published-cost cost (err _) c e = cc

  publish-cost :
      (p : Option (CallRecord → Action W E Bool)) (r : CallRecord) (w : W) (c : ℕ)
      → (publish a p r w).0 ≡ some c
      → r.cost ≡ c
  unfolding publish
  publish-cost none r w c e = some_inj e
  publish-cost (some p) r w c e = published-cost r.cost (p r w).0 c e

  after_record-cost :
      (r : CallRecord) (sent : Result E (Unit {0})) (w : W) (c : ℕ)
      → (after_record a r sent w).0 ≡ some c
      → (sent ≡ ok tt) × (r.cost ≡ c)
  unfolding after_record
  after_record-cost r (ok _) w c e = (refl, publish-cost a.publisher r w c e)
  after_record-cost r (err _) w c e = cc

  -- A cost that the service is given, to charge the budget with, is that of the call's tokens at the
  -- rates of its alias, and the call has been recorded with this cost.
  pub record_call-cost :
      (call : CallContext) (w : W) (c : ℕ)
      → (record_call a call w).0 ≡ some c
      → (c ≡ compute_cost call.usage (rates_for a.rates call.alias call.model))
        × ((a.recorder (to_record a (a.uuid4 w) call) w).0 ≡ ok tt)
        × ((to_record a (a.uuid4 w) call).cost ≡ c)
  unfolding record_call to_record
  record_call-cost call w c e =
      let r = to_record a (a.uuid4 w) call in
      let (sent, cost) = after_record-cost r (a.recorder r w).0 (a.recorder r w).1 c e in
      (sym cost, sent, cost)

  -- The prompt version of a call changes nothing of what is recorded, published and returned.
  pub prompt_version_dropped :
      (call : CallContext) (version : String) (w : W)
      → record_call a (record call { prompt_version = version }) w ≡ record_call a call w
  unfolding record_call to_record
  prompt_version_dropped call version w = refl
