-- ===== src/Redis.antt =====
-- The Redis server as the adapters use it (redis.asyncio behind app/limits/_redis_typing.py).
-- It is not code of the repository: an adapter takes it as a parameter, with the documented
-- behaviour of HGET, HSET, EXPIRE and DEL-by-expiry as laws. Times are whole microseconds.
--
-- `run_transaction` is WATCH/MULTI/EXEC, so the closure that it is given runs as one atomic step:
-- an adapter's method is a function of the database that the successful attempt has read.
pub mod Memory
pub mod Written
pub mod Strings
use atlas_gateway.Common.{
  ℕ, ◌+◌, ◌*◌, ◌≤◌, String, ◌≡◌, ◌≢◌, Option, none, some, List, [], ◌∷◌, ltb, ◌=ₛ◌, if◌then◌else◌,
}

-- One second of the clock `time.time()`.
abbrev pub second : ℕ
second = 1000000

-- What a hash field holds. Redis keeps texts: `num n` is the text that `str` writes for a number,
-- which `int`, `float` and `Decimal` read back; `text` is any other one.
pub data Value : Type 0 where
  text : String → Value
  num : ℕ → Value

abbrev pub Fields : Type 0
Fields = List (String × Value)

-- The value that a mapping gives to a field, or what was there before.
abbrev pub lookup_or : String → Fields → Option Value → Option Value
lookup_or f [] old = old
lookup_or f ((g, v) ∷ m) old = if g =ₛ f then some v else lookup_or f m old

pub record Redis : Type 1 where
  pub Db : Type 0
  -- HGET key field, at a time.
  pub hget : ℕ → Db → String → String → Option Value
  -- HSET key mapping, at a time.
  pub hset : ℕ → String → Fields → Db → Db
  -- EXPIRE key seconds, at a time.
  pub expire : ℕ → String → ℕ → Db → Db
  pub hget-hset :
      (t : ℕ) (k f : String) (m : Fields) (db : Db)
      → hget t (hset t k m db) k f ≡ lookup_or f m (hget t db k f)
  pub hget-hset_ne :
      (t u : ℕ) (k j f : String) (m : Fields) (db : Db)
      → k ≢ j
      → hget u (hset t k m db) j f ≡ hget u db j f
  -- What the key holds now it holds until the deadline, and then it is gone.
  pub hget-expire :
      (t u : ℕ) (k f : String) (n : ℕ) (db : Db)
      → t ≤ u
      → hget u (expire t k n db) k f ≡ (if ltb u (t + n * second) then hget t db k f else none)
  pub hget-expire_ne :
      (t u : ℕ) (k j f : String) (n : ℕ) (db : Db)
      → k ≢ j
      → hget u (expire t k n db) j f ≡ hget u db j f
