-- ===== src/Limits/RateLimit.antt =====
-- app/limits/ratelimit.py: one token bucket for each API key.
--
-- The code's floats are whole numbers here: times in microseconds, the refill rate in millionths of
-- a token for a second, and so a level of tokens in units of which 10 ^ 12 are one token. Then
-- `(now - last_ts) * refill_per_sec` is the product of the two numbers, with no rounding.
pub mod Bucket
pub mod Rate
mod Tests
use atlas_gateway.Common.{
  ℕ, ◌+◌, ◌-◌, ◌*◌, ◌/◌, max, min, String, ◌++ₛ◌, Bool, true, false, Option, none, some, List, [],
  ◌∷◌, ltb, ◌==◌, if◌then◌else◌, Result, ok, err, ◌>>=◌, ℤ, pos, negsuc,
}
use atlas_gateway.Redis.{Redis, Value, text, num, Fields, second}

-- The units of a level that make one token, and the units of a rate that make a token a second.
abbrev pub token : ℕ
token = 1000000000000

abbrev pub per_second : ℕ
per_second = 1000000

pub data Error : Type 0 where
  value_error : Error
  rate_limit_exceeded : (alias : String) (retry_after : ℕ) → Error

-- `_Decision`.
pub record Decision : Type 0 where
  pub allowed : Bool
  pub retry_after : ℕ

-- `TokenBucketRateLimiter` without its client.
pub record Limiter : Type 0 where
  pub capacity : ℕ
  pub refill_per_sec : ℕ

-- `__init__`.
unfoldable pub init : ℤ → ℤ → Result Error Limiter
init (negsuc n) rate = err value_error
init (pos n) (negsuc r) = err value_error
init (pos n) (pos r) =
    if n == 0
    then err value_error
    else if r == 0
    then err value_error
    else ok (record { capacity = n; refill_per_sec = r })

unfoldable pub key : String → String
key api_key_id = "atlas:ratelimit:" ++ₛ api_key_id

-- `math.ceil` of a fraction.
unfoldable pub ceil_div : ℕ → ℕ → ℕ
ceil_div a b = (a + b - 1) / b

unfoldable pub ttl_seconds : Limiter → ℕ
unfolding ceil_div
ttl_seconds l = max 1 (ceil_div (l.capacity * per_second) l.refill_per_sec)

unfoldable pub as_float : Option Value → ℕ → Result Error ℕ
as_float none default = ok default
as_float (some (num n)) default = ok n
as_float (some (text s)) default = err value_error

-- The lazy refill, clamped to the capacity.
unfoldable pub refill : Limiter → ℕ → ℕ → ℕ → ℕ
refill l tokens last_ts now = min (l.capacity * token) (tokens + (now - last_ts) * l.refill_per_sec)

-- The whole seconds until the next token.
unfoldable pub retry_seconds : Limiter → ℕ → ℕ
retry_seconds l tokens = max 1 (ceil_div (token - tokens) (l.refill_per_sec * per_second))

unfoldable pub mapping : ℕ → ℕ → Fields
mapping tokens now = ("tokens", num tokens) ∷ ("ts", num now) ∷ []

module _ (redis : Redis) (l : Limiter) where
  open redis use {Db, hget, hset, expire}

  -- The tokens of a key at a time: the first half of `_consume`.
  unfoldable pub level : String → ℕ → Db → Result Error ℕ
  level api_key_id now db = do
    tokens ← as_float (hget now db (key api_key_id) "tokens") (l.capacity * token)
    last_ts ← as_float (hget now db (key api_key_id) "ts") now
    ok (refill l tokens last_ts now)

  unfoldable pub write : String → ℕ → ℕ → Db → Db
  write api_key_id tokens now db =
      let k = key api_key_id in expire now k (ttl_seconds l) (hset now k (mapping tokens now) db)

  -- The second half of `_consume`.
  unfoldable pub consume : String → ℕ → Db → Result Error ℕ → Result Error Decision × Db
  consume api_key_id now db (err x) = (err x, db)
  consume api_key_id now db (ok tokens) =
      if ltb tokens token
      then (
        ok (record { allowed = false; retry_after = retry_seconds l tokens }),
        write api_key_id tokens now db,
      )
      else (
        ok (record { allowed = true; retry_after = 1 }),
        write api_key_id (tokens - token) now db,
      )

  unfoldable pub check : String → String → ℕ → Db → Result Error (Unit {0}) × Db
  check api_key_id alias now db =
      let (r, db') = consume api_key_id now db (level api_key_id now db) in
      (r >>= (λ d. if d.allowed then ok tt else err (rate_limit_exceeded alias d.retry_after)), db')
