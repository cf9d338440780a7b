-- ===== src/Resilience/Breaker/Spec.antt =====
-- What the breaker promises: the state machine of docs/diagrams/circuit-breaker-state.md for one
-- provider, with the time at which an idle breaker is forgotten. It is the reference that the
-- methods over Redis are compared with.
use atlas_gateway.Common.{ℕ, ◌+◌, ◌*◌, Bool, true, false, ◌&&◌, leb, ltb, if◌then◌else◌}
use atlas_gateway.Redis.{second}
use atlas_gateway.Resilience.Breaker.{CircuitBreaker, ttl_seconds}

-- `healthy n`: calls flow, after n failures in a row. `cooling d`: no call before the time d.
pub data Phase : Type 0 where
  healthy : ℕ → Phase
  cooling : ℕ → Phase
  probing : Phase

pub data Event : Type 0 where
  allow success failure : Event

-- The phase that was written last, and the time at which it is forgotten.
pub record Known : Type 0 where
  pub phase : Phase
  pub forgotten_at : ℕ

-- What a phase has become by a time.
abbrev pub elapse : ℕ → Phase → Phase
elapse t (cooling d) = if leb d t then probing else cooling d
elapse t phase = phase

abbrev pub phase_at : ℕ → Known → Phase
phase_at t k = if ltb t k.forgotten_at then elapse t k.phase else healthy 0

-- A breaker sheds load exactly while it cools.
abbrev pub admits : Phase → Bool
admits (cooling d) = false
admits _ = true

module _ (b : CircuitBreaker) where
  abbrev pub after_failure : ℕ → Phase → Phase
  after_failure now (healthy n) =
      if ltb (n + 1) b.failure_threshold
      then healthy (n + 1)
      else cooling (now + b.cooldown_seconds * second)
  after_failure now _ = cooling (now + b.cooldown_seconds * second)

  abbrev pub written : ℕ → Phase → Known
  written now phase = record { phase = phase; forgotten_at = now + ttl_seconds b * second }

  -- An admission writes only where it starts the probe of a cooled breaker.
  abbrev pub probe : ℕ → Known → Phase → Known
  probe now k (cooling d) = if ltb now k.forgotten_at && leb d now then written now probing else k
  probe now k _ = k

  abbrev pub next : Event → ℕ → Known → Known
  next allow now k = probe now k k.phase
  next success now k = written now (healthy 0)
  next failure now k = written now (after_failure now (phase_at now k))
