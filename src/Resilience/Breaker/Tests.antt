-- ===== src/Resilience/Breaker/Tests.antt =====
-- A breaker with a threshold of 3 and a cooldown of 30 seconds, over the server in memory.
use atlas_gateway.Common.{
  ◌++◌, String, err, if◌then◌else◌, ltb, ℕ, ◌*◌, ◌≤◌, ◌≡◌, refl, List, [], ◌∷◌, arith, ok,
}
use atlas_gateway.Redis.{second}
use atlas_gateway.Redis.Memory.{memory, Store, no_keys, update}
use atlas_gateway.Resilience.Breaker as Breaker
use atlas_gateway.Resilience.Breaker.{
  CircuitBreaker, Snapshot, closed, opened, circuit_open, all_providers_unavailable, init, load,
  whole_seconds, choose,
}
use atlas_gateway.Resilience.Breaker.Spec.{allow, failure, success, cooling, phase_at}
use atlas_gateway.Resilience.Breaker.Refinement.{
  Call, InOrder, IsFresh, Shows, run, spec_run, forgotten, run-Shows,
}
use atlas_gateway.Resilience.Breaker.Admission.{IsConfigured, verdict, allow_after_run}
use atlas_gateway.Resilience.Breaker.Trip.{trips_at_threshold, calls, probes_not_exclusive}

abbrev three : CircuitBreaker
three = record { failure_threshold = 3; cooldown_seconds = 30 }

-- Three failures of one provider, with a success of another between them.
abbrev outage : List Call
outage =
    record { at = 1 * second; provider = "anthropic"; event = failure }
    ∷ record { at = 2 * second; provider = "openai"; event = success }
    ∷ record { at = 3 * second; provider = "anthropic"; event = failure }
    ∷ record { at = 4 * second; provider = "anthropic"; event = failure }
    ∷ []

no_keys-IsFresh : (p : String) (t : ℕ) → IsFresh memory three p t no_keys
no_keys-IsFresh p t u f le = refl

outage-InOrder : (t : ℕ) → 4 * second ≤ t → InOrder 0 t outage
outage-InOrder t h = omega arith

outage_phase :
    spec_run memory three "anthropic" outage (forgotten memory three)
    ≡ record { phase = cooling (34 * second); forgotten_at = 124 * second }
unfolding Breaker.ttl_seconds
outage_phase = refl

run-Shows_example :
    Shows memory three "anthropic"
      (20 * second)
      (run memory three outage no_keys)
      (spec_run memory three "anthropic" outage (forgotten memory three))
run-Shows_example =
    run-Shows memory three "anthropic" outage 0 (20 * second) no_keys
      (no_keys-IsFresh "anthropic" 0) (outage-InOrder (20 * second) (omega arith))

allow_after_run_example :
    (Breaker.allow memory three "anthropic" (20 * second) (run memory three outage no_keys)).0
    ≡ verdict "anthropic"
        (20 * second)
        (phase_at (20 * second) (spec_run memory three "anthropic" outage (forgotten memory three)))
allow_after_run_example =
    allow_after_run memory three "anthropic" outage 0 (20 * second) no_keys
      (no_keys-IsFresh "anthropic" 0) (outage-InOrder (20 * second) (omega arith))

-- Sixteen seconds after the third failure `allow` asks for fourteen more.
rejected :
    (Breaker.allow memory three "anthropic" (20 * second) (run memory three outage no_keys)).0
    ≡ err (circuit_open "anthropic" 14)
unfolding Breaker.allow Breaker.allow_read Breaker.record_failure Breaker.fail_read
    Breaker.record_success Breaker.load Breaker.save Breaker.read Breaker.as_int Breaker.as_float
    Breaker.as_state Breaker.state_value Breaker.mapping Breaker.interpret Breaker.failed
    Breaker.ttl_seconds Breaker.key update whole_seconds Breaker.admit
rejected = refl

abbrev later : List ℕ
later = (2 * second) ∷ (3 * second) ∷ []

three-IsConfigured : IsConfigured three
three-IsConfigured = omega arith

trips_at_threshold_example :
    (Breaker.allow memory three "openai"
      (3 * second)
      (run memory three (calls failure "openai" (1 * second ∷ later)) no_keys)).0
    ≡ (if ltb 3 3 then ok tt else err (circuit_open "openai" 30))
unfolding Breaker.ttl_seconds
trips_at_threshold_example =
    trips_at_threshold memory three "openai" (1 * second) later no_keys three-IsConfigured
      (no_keys-IsFresh "openai" (1 * second)) (omega arith)

-- At 34 seconds the cooldown is over, and two calls in a row are admitted.
probes_not_exclusive_example :
    (Breaker.allow memory three "anthropic" (36 * second) (
      run memory three
        (outage ++ calls allow "anthropic" (35 * second ∷ 36 * second ∷ []))
        no_keys)).0
    ≡ ok tt
unfolding Breaker.ttl_seconds
probes_not_exclusive_example =
    probes_not_exclusive memory three "anthropic" outage 0 (34 * second)
      (35 * second ∷ 36 * second ∷ []) no_keys (no_keys-IsFresh "anthropic" 0)
      (outage-InOrder (34 * second) (omega arith)) refl (omega arith)

-- What `_read` makes of the primary's fields after the outage, and of no fields.
abbrev tripped : Snapshot
tripped = record {
  state = opened;
  failures = 3;
  opened_at = 4 * second;
  effective_state = opened;
  retry_after = 14;
}

abbrev untouched : Snapshot
untouched = record {
  state = closed;
  failures = 0;
  opened_at = 0;
  effective_state = closed;
  retry_after = 0;
}

load-tripped :
    load memory three "anthropic" (20 * second) (run memory three outage no_keys) ≡ ok tripped
unfolding Breaker.allow Breaker.record_failure Breaker.fail_read Breaker.record_success Breaker.load
    Breaker.save Breaker.read Breaker.as_int Breaker.as_float Breaker.as_state Breaker.state_value
    Breaker.mapping Breaker.interpret Breaker.failed Breaker.ttl_seconds Breaker.key update
    whole_seconds
load-tripped = refl

load-untouched :
    load memory three "gpt-4.1" (20 * second) (run memory three outage no_keys) ≡ ok untouched
unfolding Breaker.allow Breaker.record_failure Breaker.fail_read Breaker.record_success Breaker.load
    Breaker.save Breaker.read Breaker.as_int Breaker.as_float Breaker.as_state Breaker.state_value
    Breaker.mapping Breaker.interpret Breaker.failed Breaker.ttl_seconds Breaker.key update
    whole_seconds
load-untouched = refl

-- The state of the server after the outage.
abbrev tried : Store
tried = run memory three outage no_keys
