-- ===== src/Accounting/Events/Enqueued.antt =====
-- app/accounting/events.py behind app/accounting/adapter.py: what a failed publication costs.
use atlas_gateway.Chat.Ports.{CallContext}
use atlas_gateway.Accounting.Recorder.{compute_cost, CallRecord}
use atlas_gateway.Accounting.Events.{
  from_record, publish_record, serialize, EventPublisher, partition_key, CallEvent, after_send,
  publish, after_sink, ErrorSink, Codec,
}
use atlas_gateway.Accounting.Adapter as Adapter
use atlas_gateway.Accounting.Adapter.{
  AccountingRecorder, published, after_record, record_call, to_record, rates_for,
}
use atlas_gateway.Common.{
  none, ◌∙◌, ap, some, Bool, ℕ, refl, inr, arith, inl, ◌⊎◌, err, true, false, ok, ◌≡◌, Result,
  String,
}

-- The sink does not raise.
abbrev pub IsQuiet : {W E : Type 0} → ErrorSink W E → Type 0
IsQuiet {W = W} {E = E} sink = (event : CallEvent) (exc : E) (w : W) → (sink event exc w).0 ≡ ok tt

module _ {W E : Type 0} (codec : Codec) where
  sink-quiet :
      (reply : Result E (Unit {0})) (w : W) → reply ≡ ok tt → (after_sink reply w).0 ≡ ok false
  unfolding after_sink
  sink-quiet (ok done) w e = refl
  sink-quiet (err x) w e = absurd (ground arith)

  after_send-quiet :
      (p : EventPublisher W E) (event : CallEvent) (sent : Result E (Unit {0})) (w : W)
      → IsQuiet p.error_sink
      → ((after_send p event sent w).0 ≡ ok true × (sent ≡ ok tt))
        ⊎ ((after_send p event sent w).0 ≡ ok false × ((exc : E) × (sent ≡ err exc)))
  unfolding after_send
  after_send-quiet p event (ok done) w quiet = inl (refl, refl)
  after_send-quiet p event (err exc) w quiet =
      let (reply, w') = p.error_sink event exc w in
      inr (sink-quiet reply w' (quiet event exc w), (exc, refl))

  -- If the sink does not raise, publish returns, and returns true exactly if the producer took the
  -- message, which has the event's payload as its value and the tenant's id as its key.
  pub publish-IsQuiet :
      (p : EventPublisher W E) (event : CallEvent) (w : W)
      → IsQuiet p.error_sink
      → ((publish codec p event w).0 ≡ ok true
          × ((p.producer p.topic (serialize codec event) event.api_key_id w).0 ≡ ok tt))
        ⊎ ((publish codec p event w).0 ≡ ok false
            × ((exc : E) × ((p.producer p.topic (serialize codec event) event.api_key_id w).0
                  ≡ err exc)))
  unfolding publish partition_key
  publish-IsQuiet p event w quiet =
      let (sent, w') = p.producer p.topic (serialize codec event) event.api_key_id w in
      after_send-quiet p event sent w' quiet

  -- A publisher that returns leaves the cost to be returned.
  published_cost :
      (a : AccountingRecorder W E) (cost : ℕ) (sent : Result E Bool) (b : Bool)
      → sent ≡ ok b
      → published a cost sent ≡ some cost
  published_cost a cost (ok _) b e = refl
  published_cost a cost (err _) b e = absurd (ground arith)

  enqueued_cost :
      (a : AccountingRecorder W E) (p : EventPublisher W E) (uuid4 : W → String) (now : W → ℕ)
      (r : CallRecord) (w : W)
      → IsQuiet p.error_sink
      → (Adapter.publish a (some (publish_record codec uuid4 now p)) r w).0 ≡ some r.cost
  unfolding Adapter.publish publish_record
  enqueued_cost a p uuid4 now r w quiet =
      elim (publish-IsQuiet p (from_record (uuid4 w) (now w) r none none) w quiet) [
        | inl (e, _) ↦ published_cost a r.cost _ true e
        | inr (e, _) ↦ published_cost a r.cost _ false e
      ]

  after_record_cost :
      (a : AccountingRecorder W E) (p : EventPublisher W E) (uuid4 : W → String) (now : W → ℕ)
      (r : CallRecord) (sent : Result E (Unit {0})) (w : W)
      → a.publisher ≡ some (publish_record codec uuid4 now p)
      → IsQuiet p.error_sink
      → sent ≡ ok tt
      → (after_record a r sent w).0 ≡ some r.cost
  unfolding after_record
  after_record_cost a p uuid4 now r (err x) w has_publisher quiet e = absurd (ground arith)
  after_record_cost a p uuid4 now r (ok _) w has_publisher quiet e =
      ap (λ o. (Adapter.publish a o r w).0) has_publisher ∙ enqueued_cost a p uuid4 now r w quiet

  -- In an adapter with this publisher, whose sink does not raise, a call that was recorded has its
  -- cost returned, for the budget to be charged with, whatever the producer raises: the cost of the
  -- call's tokens at the rates of its alias.
  pub record_call-IsQuiet :
      (a : AccountingRecorder W E) (p : EventPublisher W E) (uuid4 : W → String) (now : W → ℕ)
      (call : CallContext) (w : W)
      → a.publisher ≡ some (publish_record codec uuid4 now p)
      → IsQuiet p.error_sink
      → (a.recorder (to_record a (a.uuid4 w) call) w).0 ≡ ok tt
      → (record_call a call w).0
        ≡ some (compute_cost call.usage (rates_for a.rates call.alias call.model))
  unfolding record_call to_record
  record_call-IsQuiet a p uuid4 now call w has_publisher quiet recorded =
      let r = to_record a (a.uuid4 w) call in
      let (sent, w') = a.recorder r w in
      after_record_cost a p uuid4 now r sent w' has_publisher quiet recorded
