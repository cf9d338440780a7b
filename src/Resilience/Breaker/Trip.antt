-- ===== src/Resilience/Breaker/Trip.antt =====
-- How failures open a breaker, and how it comes back.
use atlas_gateway.Common.{
  ℕ, suc, ◌+◌, ◌-◌, ◌*◌, ◌≤◌, ◌<◌, String, ◌≡◌, refl, true, ap, ◌∙◌, List, [], ◌∷◌, ◌++◌, arith,
  ltb, =ₛ-refl, if◌then◌else◌, length, ok, err,
}
use native.Mathlib.Nat.{le_refl}
use atlas_gateway.Redis.{Redis, second}
use atlas_gateway.Resilience.Breaker as Breaker
use atlas_gateway.Resilience.Breaker.{
  CircuitBreaker, Error, circuit_open, ttl_seconds, whole_seconds,
}
use atlas_gateway.Resilience.Breaker.Spec.{
  Phase, healthy, cooling, probing, Event, allow, failure, Known, phase_at, admits, written, next,
}
use atlas_gateway.Resilience.Breaker.Refinement.{Call, InOrder, IsFresh, run, spec_run, forgotten}
use atlas_gateway.Resilience.Breaker.Admission.{IsConfigured, verdict, allow_after_run}

-- The last of the times.
abbrev pub last : ℕ → List ℕ → ℕ
last t [] = t
last t (u ∷ us) = last u us

abbrev pub calls : Event → String → List ℕ → List Call
calls e p [] = []
calls e p (t ∷ ts) = record { at = t; provider = p; event = e } ∷ calls e p ts

module _ (b : CircuitBreaker) where
  -- Each time comes after the one before it, and before the breaker is forgotten.
  abbrev pub IsSteady : ℕ → List ℕ → Type 0
  IsSteady t [] = Unit
  IsSteady t (u ∷ us) = (t ≤ u) × (u < t + ttl_seconds b * second) × IsSteady u us

  -- The phase after n failures in a row, the last of them at the time t.
  abbrev pub counted : ℕ → ℕ → Phase
  counted t n =
      if ltb n b.failure_threshold then healthy n else cooling (t + b.cooldown_seconds * second)

  next-counted :
      (t u n : ℕ)
      → t ≤ u
      → u < t + ttl_seconds b * second
      → next b failure u (written b t (counted t n)) ≡ written b u (counted u (suc n))
  next-counted t u n le lt = ground arith

  first-counted :
      (t : ℕ)
      → next b failure t (record { phase = healthy 0; forgotten_at = 0 })
        ≡ written b t (counted t 1)
  first-counted t = ground arith

  -- Right after the failure that opens the breaker the whole cooldown is left.
  whole_cooldown :
      (t : ℕ)
      → 1 ≤ b.cooldown_seconds
      → whole_seconds (t + b.cooldown_seconds * second - t) ≡ b.cooldown_seconds
  unfolding whole_seconds
  whole_cooldown t h = ground arith

  verdict-counted :
      (p : String) (t n : ℕ)
      → IsConfigured b
      → verdict p t (phase_at t (written b t (counted t n)))
        ≡ (if ltb n b.failure_threshold then ok tt else err (circuit_open p b.cooldown_seconds))
  unfolding ttl_seconds
  verdict-counted p t n conf = ground (arith, whole_cooldown t conf.some_cooldown)

  InOrder-calls :
      (e : Event) (p : String) (t : ℕ) (ts : List ℕ)
      → IsSteady t ts
      → InOrder t (last t ts) (calls e p ts)
  InOrder-calls e p t [] h = omega arith
  InOrder-calls e p t (u ∷ us) h = (h.0, InOrder-calls e p u us h.2)

module _ (redis : Redis) (b : CircuitBreaker) where
  open redis use {Db}

  spec_run_self :
      (e : Event) (p : String) (t : ℕ) (cs : List Call) (k : Known)
      → spec_run redis b p (record { at = t; provider = p; event = e } ∷ cs) k
        ≡ spec_run redis b p cs (next b e t k)
  spec_run_self e p t cs k =
      ap (λ x. spec_run redis b p cs (if x then next b e t k else k)) (=ₛ-refl p)

  spec_run-failures :
      (p : String) (t n : ℕ) (ts : List ℕ)
      → IsSteady b t ts
      → spec_run redis b p (calls failure p ts) (written b t (counted b t n))
        ≡ written b (last t ts) (counted b (last t ts) (n + length ts))
  spec_run-failures p t n [] h = ap (λ m. written b t (counted b t m)) (omega arith)
  spec_run-failures p t n (u ∷ us) h =
      spec_run_self failure p u (calls failure p us) (written b t (counted b t n))
      ∙ ap (spec_run redis b p (calls failure p us)) (next-counted b t u n h.0 h.1)
      ∙ spec_run-failures p u (suc n) us h.2
      ∙ ap (λ m. written b (last u us) (counted b (last u us) m)) (omega arith)

  -- From a server without the provider's key, n failures in a row, each before the breaker is
  -- forgotten, leave it open exactly if n reaches the threshold: `allow` then raises
  -- CircuitOpenError with the whole cooldown, and before it lets the call through.
  pub trips_at_threshold :
      (p : String) (t : ℕ) (ts : List ℕ) (db : Db)
      → IsConfigured b
      → IsFresh redis b p t db
      → IsSteady b t ts
      → (Breaker.allow redis b p (last t ts) (run redis b (calls failure p (t ∷ ts)) db)).0 ≡ (
          if ltb (length (t ∷ ts)) b.failure_threshold
          then ok tt
          else err (circuit_open p b.cooldown_seconds))
  trips_at_threshold p t ts db conf fresh steady =
      allow_after_run redis b p (calls failure p (t ∷ ts)) t (last t ts) db fresh
        (le_refl t, InOrder-calls b failure p t ts steady)
      ∙ ap (λ k. verdict p (last t ts) (phase_at (last t ts) k))
          (spec_run_self failure p t (calls failure p ts) (forgotten redis b)
            ∙ ap (spec_run redis b p (calls failure p ts)) (first-counted b t)
            ∙ spec_run-failures p t 1 ts steady)
      ∙ verdict-counted b p (last t ts) (1 + length ts) conf
      ∙ ap
          (λ n.
            if ltb n b.failure_threshold then ok tt else err (circuit_open p b.cooldown_seconds))
          (omega arith)

-- From the time on the breaker does not cool.
abbrev IsOpenTo : ℕ → Known → Type 0
IsOpenTo t k = (u : ℕ) → t ≤ u → admits (phase_at u k) ≡ true

probing-IsOpenTo : (t : ℕ) (k : Known) → phase_at t k ≡ probing → IsOpenTo t k
probing-IsOpenTo t k h u le = ground arith

allow-IsOpenTo :
    (b : CircuitBreaker) (t u : ℕ) (k : Known)
    → t ≤ u
    → IsOpenTo t k
    → IsOpenTo u (next b allow u k)
allow-IsOpenTo b t u k le h v lv = ground (arith, h v, h u)

-- The times come in order.
abbrev pub IsRising : ℕ → List ℕ → Type 0
IsRising t [] = Unit
IsRising t (u ∷ us) = (t ≤ u) × IsRising u us

InOrder-append-calls :
    (e : Event) (p : String) (first now : ℕ) (cs : List Call) (ts : List ℕ)
    → InOrder first now cs
    → IsRising now ts
    → InOrder first (last now ts) (cs ++ calls e p ts)
InOrder-append-calls e p first now [] [] h r = h
InOrder-append-calls e p first now [] (u ∷ us) h r =
    (omega arith, InOrder-append-calls e p u u [] us (le_refl u) r.1)
InOrder-append-calls e p first now (c ∷ cs) ts h r =
    (h.0, InOrder-append-calls e p c.at now cs ts h.1 r)

module _ (redis : Redis) (b : CircuitBreaker) where
  open redis use {Db}

  spec_run-append :
      (p : String) (cs ds : List Call) (k : Known)
      → spec_run redis b p (cs ++ ds) k ≡ spec_run redis b p ds (spec_run redis b p cs k)
  spec_run-append p [] ds k = refl
  spec_run-append p (c ∷ cs) ds k = spec_run-append p cs ds _

  spec_run-allows :
      (p : String) (t : ℕ) (ts : List ℕ) (k : Known)
      → IsRising t ts
      → IsOpenTo t k
      → admits (phase_at (last t ts) (spec_run redis b p (calls allow p ts) k)) ≡ true
  spec_run-allows p t [] k r h = h t (le_refl t)
  spec_run-allows p t (u ∷ us) k r h =
      ap (λ x. admits (phase_at (last u us) x))
        (spec_run_self redis b allow p u (calls allow p us) k)
      ∙ spec_run-allows p u us (next b allow u k) r.1 (allow-IsOpenTo b t u k r.0 h)

  verdict-admits : (p : String) (now : ℕ) (ph : Phase) → admits ph ≡ true → verdict p now ph ≡ ok tt
  verdict-admits p now ph h = ground arith

  -- A breaker that is due for its probe admits any number of calls before an outcome is recorded:
  -- after any further calls of `allow` in the order of their times, the next one is let through.
  pub probes_not_exclusive :
      (p : String) (cs : List Call) (first now : ℕ) (ts : List ℕ) (db : Db)
      → IsFresh redis b p first db
      → InOrder first now cs
      → phase_at now (spec_run redis b p cs (forgotten redis b)) ≡ probing
      → IsRising now ts
      → (Breaker.allow redis b p (last now ts) (run redis b (cs ++ calls allow p ts) db)).0 ≡ ok tt
  probes_not_exclusive p cs first now ts db fresh ordered due rising =
      let k = spec_run redis b p cs (forgotten redis b) in
      allow_after_run redis b p (cs ++ calls allow p ts) first (last now ts) db fresh
        (InOrder-append-calls allow p first now cs ts ordered rising)
      ∙ ap (λ x. verdict p (last now ts) (phase_at (last now ts) x))
          (spec_run-append p cs (calls allow p ts) (forgotten redis b))
      ∙ verdict-admits p (last now ts) _
          (spec_run-allows p now ts k rising (probing-IsOpenTo now k due))
