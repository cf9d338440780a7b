-- ===== src/Resilience/Breaker/Refinement.antt =====
-- The methods over Redis implement the state machine of Spec.
use atlas_gateway.Common.{
  sym, subst, =ₛ_iff, ne_of_test, none, ◌≢◌, inl, inr, Bool-cases, Result, ok, err, ℕ, ◌+◌, ◌*◌,
  ◌≤◌, String, ◌≡◌, refl, ◌≢◌, inl, inr, false, ◌&&◌, ap, ◌∙◌, sym, List, [], ◌∷◌, arith, ◌=ₛ◌, ltb,
  if◌then◌else◌, Bool-cases, Result, ok, err,
}
use atlas_gateway.Redis.{Redis, second}
use atlas_gateway.Resilience.Breaker.{
  CircuitState, closed, opened, half_open, CircuitBreaker, Snapshot, ttl_seconds, interpret,
  remaining, failed, is_opened, is_half_open, load, save, admit,
}
use atlas_gateway.Resilience.Breaker as Breaker
use atlas_gateway.Resilience.Breaker.Storage.{load-save, load-save_ne}
use atlas_gateway.Resilience.Breaker.Spec.{
  Phase, healthy, cooling, probing, Event, allow, success, failure, Known, phase_at, next,
}

-- The stored fields of a breaker.
pub record Stored : Type 0 where
  pub state : CircuitState
  pub failures : ℕ
  pub opened_at : ℕ
  pub forgotten_at : ℕ

module _ (b : CircuitBreaker) where
  -- What a load at a time finds of the stored fields.
  abbrev pub found : Stored → ℕ → Snapshot
  found c u =
      if ltb u c.forgotten_at
      then interpret b c.state c.failures c.opened_at u
      else interpret b closed 0 0 u

  abbrev pub phase_of : CircuitState → ℕ → ℕ → Phase
  phase_of closed failures opened_at = healthy failures
  phase_of opened failures opened_at = cooling (opened_at + b.cooldown_seconds * second)
  phase_of half_open failures opened_at = probing

  abbrev pub known : Stored → Known
  known c = record {
    phase = phase_of c.state c.failures c.opened_at;
    forgotten_at = c.forgotten_at;
  }

  -- An OPEN breaker has its failures.
  abbrev pub Tripped : Stored → Type 0
  Tripped c = c.state ≡ opened → b.failure_threshold ≤ c.failures

  abbrev pub stored_next : Event → ℕ → Stored → Stored
  stored_next allow now c =
      let s = found c now in
      if is_opened s.state && is_half_open s.effective_state
      then record {
        state = half_open;
        failures = s.failures;
        opened_at = s.opened_at;
        forgotten_at = now + ttl_seconds b * second;
      }
      else c
  stored_next success now c = record {
    state = closed;
    failures = 0;
    opened_at = 0;
    forgotten_at = now + ttl_seconds b * second;
  }
  stored_next failure now c =
      let o = failed b (found c now) now in
      record {
        state = o.new_state;
        failures = o.new_failures;
        opened_at = o.new_opened_at;
        forgotten_at = now + ttl_seconds b * second;
      }

  -- The phase that a snapshot shows.
  abbrev pub seen : Snapshot → Phase
  seen s = phase_of s.effective_state s.failures s.opened_at

  seen-found : (c : Stored) (u : ℕ) → seen (found c u) ≡ phase_at u (known c)
  unfolding interpret
  seen-found c u = ground arith

  known-next :
      (e : Event) (now : ℕ) (c : Stored)
      → Tripped c
      → known (stored_next e now c) ≡ next b e now (known c)
  unfolding interpret failed
  known-next allow now c h = ground arith
  known-next success now c h = refl
  known-next failure now c h = ground arith

  Tripped-next : (e : Event) (now : ℕ) (c : Stored) → Tripped c → Tripped (stored_next e now c)
  unfolding interpret failed
  Tripped-next allow now c h = ground arith
  Tripped-next success now c h = ground arith
  Tripped-next failure now c h = ground arith

-- A call of a method, at a time.
pub record Call : Type 0 where
  pub at : ℕ
  pub provider : String
  pub event : Event

-- The calls come in the order of their times, none before the first time or after the last.
abbrev pub InOrder : ℕ → ℕ → List Call → Type 0
InOrder first last [] = first ≤ last
InOrder first last (c ∷ cs) = (first ≤ c.at) × InOrder c.at last cs

ltb-zero : (u : ℕ) → ltb u 0 ≡ false
ltb-zero u = ground arith

module _ (redis : Redis) (b : CircuitBreaker) where
  open redis use {Db}

  abbrev pub apply : Event → String → ℕ → Db → Db
  apply allow p now db = (Breaker.allow redis b p now db).1
  apply success p now db = Breaker.record_success redis b p now db
  apply failure p now db = (Breaker.record_failure redis b p now db).1

  abbrev pub run : List Call → Db → Db
  run [] db = db
  run (c ∷ cs) db = run cs (apply c.event c.provider c.at db)

  abbrev pub spec_run : String → List Call → Known → Known
  spec_run p [] k = k
  spec_run p (c ∷ cs) k = spec_run p cs (if c.provider =ₛ p then next b c.event c.at k else k)

  -- From a time on, the database has these fields for the provider.
  abbrev Holds : String → ℕ → Db → Stored → Type 0
  Holds p now db c = (u : ℕ) → now ≤ u → load redis b p u db ≡ ok (found b c u)

  load-allow_read :
      (p : String) (now u : ℕ) (db : Db) (s : Snapshot)
      → now ≤ u
      → load redis b p u (Breaker.allow_read redis b p now db (ok s)).1 ≡ (
          if is_opened s.state && is_half_open s.effective_state
          then ok (
              found b
                (record {
                  state = half_open;
                  failures = s.failures;
                  opened_at = s.opened_at;
                  forgotten_at = now + ttl_seconds b * second;
                })
                u)
          else load redis b p u db)
  unfolding Breaker.allow_read
  load-allow_read p now u db s lu =
      elim (Bool-cases (is_opened s.state && is_half_open s.effective_state)) [
        | inl e ↦ rw e (load-save redis b p half_open s.failures s.opened_at now u db lu)
        | inr e ↦ rw e
      ]

  Holds-apply :
      (e : Event) (p : String) (t now : ℕ) (db : Db) (c : Stored)
      → Holds p t db c
      → t ≤ now
      → Holds p now (apply e p now db) (stored_next b e now c)
  unfolding Breaker.allow Breaker.record_success Breaker.record_failure Breaker.fail_read
  Holds-apply allow p t now db c h le u lu =
      let s = found b c now in
      ap (λ r. load redis b p u (Breaker.allow_read redis b p now db r).1) (h now le)
      ∙ load-allow_read p now u db s lu
      ∙ elim (Bool-cases (is_opened s.state && is_half_open s.effective_state)) [
        | inl e ↦ rw e
        | inr e ↦ rw e (h u (omega arith))
      ]
  Holds-apply success p t now db c h le u lu = load-save redis b p closed 0 0 now u db lu
  Holds-apply failure p t now db c h le u lu =
      let o = failed b (found b c now) now in
      ap (λ r. load redis b p u (Breaker.fail_read redis b p now db r).1) (h now le)
      ∙ load-save redis b p o.new_state o.new_failures o.new_opened_at now u db lu

  allow_read_ne :
      (p q : String) (now u : ℕ) (db : Db) (r : Result Breaker.Error Snapshot)
      → p ≢ q
      → load redis b q u (Breaker.allow_read redis b p now db r).1 ≡ load redis b q u db
  unfolding Breaker.allow_read
  allow_read_ne p q now u db (err e) ne = refl
  allow_read_ne p q now u db (ok s) ne =
      elim (Bool-cases (is_opened s.state && is_half_open s.effective_state)) [
        | inl e ↦ rw e (load-save_ne redis b p q half_open s.failures s.opened_at now u db ne)
        | inr e ↦ rw e
      ]

  fail_read_ne :
      (p q : String) (now u : ℕ) (db : Db) (r : Result Breaker.Error Snapshot)
      → p ≢ q
      → load redis b q u (Breaker.fail_read redis b p now db r).1 ≡ load redis b q u db
  unfolding Breaker.fail_read
  fail_read_ne p q now u db (err e) ne = refl
  fail_read_ne p q now u db (ok s) ne =
      let o = failed b s now in
      load-save_ne redis b p q o.new_state o.new_failures o.new_opened_at now u db ne

  pub load-apply_ne :
      (e : Event) (p q : String) (now u : ℕ) (db : Db)
      → p ≢ q
      → load redis b q u (apply e p now db) ≡ load redis b q u db
  unfolding Breaker.allow Breaker.record_success Breaker.record_failure
  load-apply_ne allow p q now u db ne = allow_read_ne p q now u db (load redis b p now db) ne
  load-apply_ne success p q now u db ne = load-save_ne redis b p q closed 0 0 now u db ne
  load-apply_ne failure p q now u db ne = fail_read_ne p q now u db (load redis b p now db) ne

  -- A load at a time returns a snapshot that shows the phase.
  abbrev pub Shows : String → ℕ → Db → Known → Type 0
  Shows p t db k = (s : Snapshot) × (load redis b p t db ≡ ok s) × (seen b s ≡ phase_at t k)

  Holds-run :
      (p : String) (cs : List Call) (t last : ℕ) (db : Db) (c : Stored)
      → Holds p t db c
      → Tripped b c
      → InOrder t last cs
      → Shows p last (run cs db) (spec_run p cs (known b c))
  Holds-run p [] t last db c h trip le = (found b c last, h last le, seen-found b c last)
  Holds-run p (call ∷ cs) t last db c h trip (le, rest) = elim (Bool-cases (call.provider =ₛ p)) [
    | inl e ↦
        let c' = stored_next b call.event call.at c in
        let db' = apply call.event call.provider call.at db in
        let moved =
          subst (λ q. Holds p call.at (apply call.event q call.at db) c')
            (sym ((=ₛ_iff call.provider p).0 e)) (Holds-apply call.event p t call.at db c h le) in
        subst (λ k. Shows p last (run cs db') (spec_run p cs k))
          (known-next b call.event call.at c trip ∙ rw e)
          (Holds-run p cs call.at last db' c' moved (Tripped-next b call.event call.at c trip) rest)
    | inr e ↦
        let db' = apply call.event call.provider call.at db in
        let still : Holds p call.at db' c = λ u lu.
          load-apply_ne call.event call.provider p call.at u db (ne_of_test _ _ e)
          ∙ h u (omega arith) in
        subst (λ k. Shows p last (run cs db') (spec_run p cs k)) (rw e)
          (Holds-run p cs call.at last db' c still trip rest)
  ]

  -- The server has no key of the provider's breaker, at a time or later.
  abbrev pub IsFresh : String → ℕ → Db → Type 0
  IsFresh p t db = (u : ℕ) (f : String) → t ≤ u → redis.hget u db (Breaker.key p) f ≡ none

  abbrev pub forgotten : Known
  forgotten = record { phase = healthy 0; forgotten_at = 0 }

  Holds-IsFresh :
      (p : String) (t : ℕ) (db : Db)
      → IsFresh p t db
      → Holds p t db (record { state = closed; failures = 0; opened_at = 0; forgotten_at = 0 })
  unfolding load Breaker.read Breaker.as_int Breaker.as_float Breaker.as_state
  Holds-IsFresh p t db h u lu =
      rw (h u "state" lu, h u "failures" lu, h u "opened_at" lu, ltb-zero u)

  -- From a server without the provider's key, after any calls of the three methods for any
  -- providers, in the order of their times, a load at a later time returns a snapshot, and the
  -- snapshot shows the phase in which the state machine of Spec is after the calls for this
  -- provider alone.
  pub run-Shows :
      (p : String) (cs : List Call) (first last : ℕ) (db : Db)
      → IsFresh p first db
      → InOrder first last cs
      → Shows p last (run cs db) (spec_run p cs forgotten)
  run-Shows p cs first last db fresh ordered =
      Holds-run p cs first last db _ (Holds-IsFresh p first db fresh) (λ e. cc) ordered
