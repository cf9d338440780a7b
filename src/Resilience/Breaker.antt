-- ===== src/Resilience/Breaker.antt =====
-- app/resilience/circuit_breaker.py: the state of a provider's breaker and its methods.
pub mod Storage
pub mod Spec
pub mod Refinement
pub mod Admission
pub mod Trip
mod Tests
use atlas_gateway.Common.{
  ℕ, ◌+◌, ◌-◌, ◌*◌, ◌/◌, ◌%◌, max, min, String, ◌++ₛ◌, ◌≡◌, Bool, true, false, ◌&&◌, Option, none,
  some, List, [], ◌∷◌, leb, ltb, ◌==◌, ◌=ₛ◌, if◌then◌else◌, Result, ok, err, ◌>>=◌,
}
use atlas_gateway.Redis.{Redis, Value, text, num, Fields, second}

pub data CircuitState : Type 0 where
  closed opened half_open : CircuitState

-- `CircuitState.value`.
unfoldable pub state_value : CircuitState → String
state_value closed = "closed"
state_value opened = "open"
state_value half_open = "half_open"

pub data Error : Type 0 where
  circuit_open : (provider : String) (retry_after : ℕ) → Error
  all_providers_unavailable : (providers : List String) (retry_after : ℕ) → Error
  value_error : Error

pub record CircuitBreaker : Type 0 where
  pub failure_threshold : ℕ
  pub cooldown_seconds : ℕ

-- `__init__`.
unfoldable pub init : ℕ → ℕ → Result Error CircuitBreaker
init threshold cooldown =
    if ltb threshold 1
    then err value_error
    else if ltb cooldown 1
    then err value_error
    else ok (record { failure_threshold = threshold; cooldown_seconds = cooldown })

-- `_Snapshot`; `opened_at` in microseconds.
pub record Snapshot : Type 0 where
  pub state : CircuitState
  pub failures : ℕ
  pub opened_at : ℕ
  pub effective_state : CircuitState
  pub retry_after : ℕ

unfoldable pub key : String → String
key provider = "atlas:circuit:" ++ₛ provider

unfoldable pub ttl_seconds : CircuitBreaker → ℕ
ttl_seconds b = max (b.cooldown_seconds * 4) 60

unfoldable pub as_int : Option Value → ℕ → Result Error ℕ
as_int none default = ok default
as_int (some (num n)) default = ok n
as_int (some (text s)) default = err value_error

unfoldable pub as_float : Option Value → ℕ → Result Error ℕ
as_float none default = ok default
as_float (some (num n)) default = ok n
as_float (some (text s)) default = err value_error

-- An unknown text, a number for one, is read as CLOSED.
unfoldable pub as_state : Option Value → CircuitState
as_state none = closed
as_state (some (num n)) = closed
as_state (some (text s)) =
    if s =ₛ "closed"
    then closed
    else if s =ₛ "open"
    then opened
    else if s =ₛ "half_open"
    then half_open
    else closed

-- What is left of the cooldown: 0 where `remaining <= 0` in the code.
unfoldable pub remaining : CircuitBreaker → ℕ → ℕ → ℕ
remaining b opened_at now = b.cooldown_seconds * second + opened_at - now

-- `max(1, int(remaining) + (1 if remaining % 1 else 0))`.
unfoldable pub whole_seconds : ℕ → ℕ
whole_seconds r = max 1 (r / second + (if r % second == 0 then 0 else 1))

-- The body of `_read`, its fields read.
unfoldable pub interpret : CircuitBreaker → CircuitState → ℕ → ℕ → ℕ → Snapshot
unfolding remaining
interpret b opened failures opened_at now =
    let left = remaining b opened_at now in
    if left == 0
    then record {
      state = opened;
      failures = failures;
      opened_at = opened_at;
      effective_state = half_open;
      retry_after = 0;
    }
    else record {
      state = opened;
      failures = failures;
      opened_at = opened_at;
      effective_state = opened;
      retry_after = whole_seconds left;
    }
interpret b state failures opened_at now = record {
  state = state;
  failures = failures;
  opened_at = opened_at;
  effective_state = state;
  retry_after = 0;
}

unfoldable pub read :
    CircuitBreaker → Option Value → Option Value → Option Value → ℕ → Result Error Snapshot
read b raw_state raw_failures raw_opened_at now = do
  failures ← as_int raw_failures 0
  opened_at ← as_float raw_opened_at 0
  ok (interpret b (as_state raw_state) failures opened_at now)

-- `snapshot.effective_state is CircuitState.OPEN`, and so for the others.
abbrev pub is_opened : CircuitState → Bool
is_opened opened = true
is_opened _ = false

abbrev pub is_half_open : CircuitState → Bool
is_half_open half_open = true
is_half_open _ = false

-- What `record_failure` writes.
pub record Outcome : Type 0 where
  pub new_state : CircuitState
  pub new_failures : ℕ
  pub new_opened_at : ℕ

unfoldable pub failed : CircuitBreaker → Snapshot → ℕ → Outcome
failed b s now =
    if is_half_open s.effective_state
    then record {
      new_state = opened;
      new_failures = max s.failures b.failure_threshold;
      new_opened_at = now;
    }
    else if leb b.failure_threshold (s.failures + 1)
    then record { new_state = opened; new_failures = s.failures + 1; new_opened_at = now }
    else record { new_state = closed; new_failures = s.failures + 1; new_opened_at = s.opened_at }

-- The three fields of the hash.
unfoldable pub mapping : CircuitState → ℕ → ℕ → Fields
mapping state failures opened_at =
    ("state", text (state_value state))
    ∷ ("failures", num failures)
    ∷ ("opened_at", num opened_at)
    ∷ []

module _ (redis : Redis) (b : CircuitBreaker) where
  open redis use {Db, hget, hset, expire}

  unfoldable pub load : String → ℕ → Db → Result Error Snapshot
  load provider now db =
      let k = key provider in
      read b (hget now db k "state") (hget now db k "failures") (hget now db k "opened_at") now

  -- HSET and EXPIRE in one MULTI block.
  unfoldable pub save : String → CircuitState → ℕ → ℕ → ℕ → Db → Db
  save provider state failures opened_at now db =
      let k = key provider in
      expire now k (ttl_seconds b) (hset now k (mapping state failures opened_at) db)

  unfoldable pub state : String → ℕ → Db → Result Error CircuitState
  state provider now db = do s ← load provider now db; ok s.effective_state

  -- The transaction of `allow`: the probe is written down when the cooldown is over.
  unfoldable pub admit : String → Snapshot → ℕ → Db → Db
  admit provider s now db =
      if is_opened s.state && is_half_open s.effective_state
      then save provider half_open s.failures s.opened_at now db
      else db

  -- `allow` with what the transaction has read.
  unfoldable pub allow_read : String → ℕ → Db → Result Error Snapshot → Result Error (Unit {0}) × Db
  unfolding admit
  allow_read provider now db (err e) = (err e, db)
  allow_read provider now db (ok s) = (
    if is_opened s.effective_state then err (circuit_open provider s.retry_after) else ok tt,
    admit provider s now db,
  )

  unfoldable pub allow : String → ℕ → Db → Result Error (Unit {0}) × Db
  allow provider now db = allow_read provider now db (load provider now db)

  -- The fields that the code reads first are not used.
  unfoldable pub record_success : String → ℕ → Db → Db
  record_success provider now db = save provider closed 0 0 now db

  -- `record_failure` with what the transaction has read.
  unfoldable pub fail_read : String → ℕ → Db → Result Error Snapshot → Result Error (Unit {0}) × Db
  fail_read provider now db (err e) = (err e, db)
  fail_read provider now db (ok s) =
      let o = failed b s now in
      (ok tt, save provider o.new_state o.new_failures o.new_opened_at now db)

  unfoldable pub record_failure : String → ℕ → Db → Result Error (Unit {0}) × Db
  record_failure provider now db = fail_read provider now db (load provider now db)

  -- `choose` after the primary's breaker was found OPEN; `later` is the time of the second load.
  unfoldable pub fail_over : String → String → Snapshot → ℕ → Db → Result Error String
  fail_over primary fallback p later db =
      if fallback =ₛ primary
      then err (all_providers_unavailable (primary ∷ []) p.retry_after)
      else (load fallback later db >>= λ f.
          if is_opened f.effective_state
          then err (
              all_providers_unavailable (primary ∷ fallback ∷ []) (min p.retry_after f.retry_after))
          else ok fallback)

  -- The database may have changed between the two loads: `db'` is what the second one finds.
  unfoldable pub choose : String → String → ℕ → Db → ℕ → Db → Result Error String
  unfolding fail_over
  choose primary fallback now db later db' = do
    p ← load primary now db
    if is_opened p.effective_state then fail_over primary fallback p later db' else ok primary
