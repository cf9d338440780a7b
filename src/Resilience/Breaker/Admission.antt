-- ===== src/Resilience/Breaker/Admission.antt =====
-- Which calls `allow` and `choose` let through, and what they say where they do not.
use atlas_gateway.Common.{
  sym, ◌=ₛ◌, ne_of_test, inr, inl, Bool-cases, ◌⊎◌, subst, ◌↔◌, both_returned, ℕ, ◌+◌, ◌-◌, ◌*◌,
  ◌≤◌, ◌<◌, min, String, ◌≡◌, refl, ◌≢◌, true, false, ap, ◌∙◌, List, [], ◌∷◌, arith, =ₛ_iff,
  if◌then◌else◌, Result, ok, err,
}
use atlas_gateway.Redis.{Redis, second}
use atlas_gateway.Resilience.Breaker as Breaker
use atlas_gateway.Resilience.Breaker.{
  CircuitBreaker, CircuitState, closed, opened, half_open, Error, circuit_open,
  all_providers_unavailable, value_error, Snapshot, init, interpret, whole_seconds, is_opened,
  is_half_open, load, read, choose,
}
use atlas_gateway.Resilience.Breaker.Spec.{phase_at, Phase, cooling, admits}
use atlas_gateway.Resilience.Breaker.Refinement.{
  seen, Call, InOrder, IsFresh, run, spec_run, forgotten, run-Shows,
}

-- What `__init__` lets through.
pub record IsConfigured (b : CircuitBreaker) : Type 0 where
  pub some_failures : 1 ≤ b.failure_threshold
  pub some_cooldown : 1 ≤ b.cooldown_seconds

-- A breaker is made exactly of a threshold and a cooldown of at least 1; it then has them.
pub init-IsConfigured :
    (threshold cooldown : ℕ) (b : CircuitBreaker)
    → (init threshold cooldown ≡ ok b)
      ↔ (IsConfigured b × (b.failure_threshold ≡ threshold) × (b.cooldown_seconds ≡ cooldown))
unfolding init
init-IsConfigured threshold cooldown b = (λ h. ground arith, λ h. ground arith)

-- What `allow` answers in a phase: a cooling breaker names the rest of its cooldown.
abbrev pub verdict : String → ℕ → Phase → Result Error (Unit {0})
verdict p now (cooling d) = err (circuit_open p (whole_seconds (d - now)))
verdict p now _ = ok tt

-- A rest of the cooldown is rounded up to whole seconds.
pub whole_seconds_bounds :
    (r : ℕ)
    → 0 < r
    → (1 ≤ whole_seconds r)
      × (r ≤ whole_seconds r * second)
      × (whole_seconds r * second < r + second)
unfolding whole_seconds
whole_seconds_bounds r h = ground arith

answer : String → Snapshot → Result Error (Unit {0})
answer p s = if is_opened s.effective_state then err (circuit_open p s.retry_after) else ok tt

answer-interpret :
    (b : CircuitBreaker) (p : String) (st : CircuitState) (n o now : ℕ)
    → answer p (interpret b st n o now) ≡ verdict p now (seen b (interpret b st n o now))
unfolding answer interpret
answer-interpret b p closed n o now = refl
answer-interpret b p opened n o now = ground arith
answer-interpret b p half_open n o now = refl

module _ (redis : Redis) (b : CircuitBreaker) where
  open redis use {Db}

  -- A load with numbers in its number fields returns.
  load-interpret :
      (p : String) (now : ℕ) (db : Db) (s : Snapshot)
      → load redis b p now db ≡ ok s
      → (st : CircuitState) × (n : ℕ) × (o : ℕ) × (interpret b st n o now ≡ s)
  unfolding load read
  load-interpret p now db s h =
      let k = Breaker.key p in
      let (n, en, e) = both_returned _ (Breaker.as_int (redis.hget now db k "failures") 0) h in
      let (o, eo, e') = both_returned _ (Breaker.as_float (redis.hget now db k "opened_at") 0) e in
      (Breaker.as_state (redis.hget now db k "state"), n, o, cc e')

  -- The answer of `allow` is the verdict on the phase that a load shows.
  pub allow-verdict :
      (p : String) (now : ℕ) (db : Db) (s : Snapshot)
      → load redis b p now db ≡ ok s
      → (Breaker.allow redis b p now db).0 ≡ verdict p now (seen b s)
  unfolding Breaker.allow Breaker.allow_read answer
  allow-verdict p now db s h =
      let (st, n, o, e) = load-interpret p now db s h in
      rw h (subst (λ x. answer p x ≡ verdict p now (seen b x)) e (answer-interpret b p st n o now))

  -- From a server without the provider's key, after any calls in the order of their times, `allow`
  -- answers as the state machine of Spec does: it raises CircuitOpenError exactly in a cooling
  -- phase, with the whole seconds that are left.
  pub allow_after_run :
      (p : String) (cs : List Call) (first now : ℕ) (db : Db)
      → IsFresh redis b p first db
      → InOrder first now cs
      → (Breaker.allow redis b p now (run redis b cs db)).0
        ≡ verdict p now (phase_at now (spec_run redis b p cs (forgotten redis b)))
  allow_after_run p cs first now db fresh ordered =
      let (s, e, shows) = run-Shows redis b p cs first now db fresh ordered in
      allow-verdict p now (run redis b cs db) s e ∙ ap (verdict p now) shows

  -- For the snapshots that the two loads return, one of four cases holds. The primary does not cool,
  -- and is returned. It cools, the fallback is another provider that does not cool, and the
  -- fallback is returned. Both cool and differ, and AllProvidersUnavailable names both and the
  -- smaller wait. Or the primary cools and has no other fallback, and the error names it alone.
  pub choose_cases :
      (p q : String) (now : ℕ) (db : Db) (later : ℕ) (db' : Db) (s s' : Snapshot)
      → load redis b p now db ≡ ok s
      → load redis b q later db' ≡ ok s'
      → ((admits (seen b s) ≡ true) × (choose redis b p q now db later db' ≡ ok p))
        ⊎ (((admits (seen b s) ≡ false)
              × (p ≢ q)
              × (admits (seen b s') ≡ true)
              × (choose redis b p q now db later db' ≡ ok q))
            ⊎ (((admits (seen b s) ≡ false)
                  × (p ≢ q)
                  × (admits (seen b s') ≡ false)
                  × (choose redis b p q now db later db'
                      ≡ err (
                          all_providers_unavailable
                            (p ∷ q ∷ [])
                            (min s.retry_after s'.retry_after))))
                ⊎ ((admits (seen b s) ≡ false)
                    × (p ≡ q)
                    × (choose redis b p q now db later db'
                        ≡ err (all_providers_unavailable (p ∷ []) s.retry_after)))))
  unfolding choose
  choose_cases p q now db later db' s s' h h' =
      let same = =ₛ_iff q p in
      elim (Bool-cases (admits (seen b s))) [
        | inl a ↦ inl (a, ground arith)
        | inr a ↦ elim (Bool-cases (q =ₛ p)) [
          | inl e ↦ inr (inr (inr (a, sym (same.0 e), ground arith)))
          | inr e ↦ elim (Bool-cases (admits (seen b s'))) [
            | inl a' ↦ inr (inl (a, (λ x. ne_of_test q p e (sym x)), a', ground arith))
            | inr a' ↦ inr (inr (inl (a, (λ x. ne_of_test q p e (sym x)), a', ground arith)))
          ]
        ]
      ]
