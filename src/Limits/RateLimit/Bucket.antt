-- ===== src/Limits/RateLimit/Bucket.antt =====
-- The token bucket of one key, and the method over Redis that implements it. A key that has expired
-- reads as a full bucket, and it expires only when it is full.
use atlas_gateway.Common.{
  not-ltb→le, sym, prefix_ne, ℕ, ◌+◌, ◌-◌, ◌*◌, ◌≤◌, ◌<◌, String, ◌≡◌, ◌≢◌, refl, ap, ◌∙◌, arith,
  ltb, if◌then◌else◌, Bool-cases, inl, inr, Result, ok, err,
}
use atlas_gateway.Redis.{Redis, second}
use atlas_gateway.Redis.Written.{hget-expire-hset, hget-expire-hset_ne}
use atlas_gateway.Limits.RateLimit.{
  Limiter, Error, rate_limit_exceeded, token, per_second, ceil_div, ttl_seconds, refill,
  retry_seconds, level, write, consume, check, key, mapping, as_float,
}

-- What `__init__` lets through.
pub record IsConfigured (l : Limiter) : Type 0 where
  pub some_capacity : 1 ≤ l.capacity
  pub some_refill : 1 ≤ l.refill_per_sec

-- A level, and the time at which it was right.
pub record Bucket : Type 0 where
  pub tokens : ℕ
  pub ts : ℕ

pub ceil_div-le : (a b : ℕ) → 0 < b → a ≤ ceil_div a b * b
unfolding ceil_div
ceil_div-le a b h = grind arith

pub ceil_div-lt : (a b : ℕ) → 0 < a → 0 < b → (ceil_div a b - 1) * b < a
unfolding ceil_div
ceil_div-lt a b h k = grind arith

pub mul_mono : (a b c : ℕ) → a ≤ b → a * c ≤ b * c
mul_mono a b c h = grind arith

pub mul_sum : (x y z r : ℕ) → z ≡ x + y → x * r + y * r ≡ z * r
mul_sum x y z r e = omega (arith, ap (λ (t : ℕ). t * r) e)

module _ (l : Limiter) where
  abbrev pub level_at : ℕ → Bucket → ℕ
  level_at u b = refill l b.tokens b.ts u

  -- When a key expires its bucket would be full.
  full_when_expired :
      (tokens ts u : ℕ)
      → IsConfigured l
      → ts + ttl_seconds l * second ≤ u
      → refill l tokens ts u ≡ l.capacity * token
  unfolding refill ttl_seconds
  full_when_expired tokens ts u conf h =
      let q = ceil_div (l.capacity * per_second) l.refill_per_sec in
      let enough = ceil_div-le (l.capacity * per_second) l.refill_per_sec conf.some_refill in
      let waited = mul_mono (q * second) (u - ts) l.refill_per_sec (omega arith) in
      omega (arith, enough, waited)

  -- A level that is right at a time gives the right level later.
  pub refill-level_at :
      (b : Bucket) (now u : ℕ)
      → b.ts ≤ now
      → now ≤ u
      → refill l (level_at now b) now u ≡ level_at u b
  unfolding refill
  refill-level_at b now u le lu =
      omega (arith, mul_sum (now - b.ts) (u - now) (u - b.ts) l.refill_per_sec (omega arith))

  refill_full : (u : ℕ) → refill l (l.capacity * token) u u ≡ l.capacity * token
  unfolding refill
  refill_full u = omega arith

  -- The tokens that a check at a time leaves.
  abbrev pub taken : ℕ → Bucket → Bucket
  taken now b =
      let n = level_at now b in record { tokens = if ltb n token then n else n - token; ts = now }

  abbrev pub answer : String → ℕ → Bucket → Result Error (Unit {0})
  answer alias now b =
      let n = level_at now b in
      if ltb n token then err (rate_limit_exceeded alias (retry_seconds l n)) else ok tt

pub key_ne : (a b : String) → a ≢ b → key a ≢ key b
unfolding key
key_ne a b h = prefix_ne "atlas:ratelimit:" a b h

module _ (redis : Redis) (l : Limiter) where
  open redis use {Db, hget, hset, expire}

  -- From a time on the database has the bucket of the key.
  abbrev pub Holds : String → ℕ → Db → Bucket → Type 0
  Holds k now db b = (u : ℕ) → now ≤ u → level redis l k u db ≡ ok (level_at l u b)

  Holds-write :
      (k : String) (tokens now : ℕ) (db : Db)
      → IsConfigured l
      → Holds k now (write redis l k tokens now db) (record { tokens = tokens; ts = now })
  unfolding level write mapping as_float
  Holds-write k tokens now db conf u lu =
      rw
        (
          hget-expire-hset redis now u (key k) "tokens" _ _ db lu,
          hget-expire-hset redis now u (key k) "ts" _ _ db lu,
        )
        (elim (Bool-cases (ltb u (now + ttl_seconds l * second))) [
          | inl e ↦ rw e
          | inr e ↦ rw e (
              ap ok
                (refill_full l u ∙ sym (full_when_expired l tokens now u conf (not-ltb→le _ _ e))))
        ])

  check-eq :
      (k alias : String) (t now : ℕ) (db : Db) (b : Bucket)
      → Holds k t db b
      → t ≤ now
      → check redis l k alias now db
        ≡ (answer l alias now b, write redis l k (taken l now b).tokens now db)
  unfolding check consume
  check-eq k alias t now db b h le =
      rw (h now le)
        (elim (Bool-cases (ltb (level_at l now b) token)) [ inl e ↦ rw e | inr e ↦ rw e ])

  level-write_ne :
      (k j : String) (tokens now u : ℕ) (db : Db)
      → k ≢ j
      → level redis l j u (write redis l k tokens now db) ≡ level redis l j u db
  unfolding level write
  level-write_ne k j tokens now u db ne =
      simp (hget-expire-hset_ne redis now u (key k) (key j), key_ne k j ne)

  level-consume_ne :
      (k j : String) (now u : ℕ) (db : Db) (r : Result Error ℕ)
      → k ≢ j
      → level redis l j u (consume redis l k now db r).1 ≡ level redis l j u db
  unfolding consume
  level-consume_ne k j now u db (err x) ne = refl
  level-consume_ne k j now u db (ok n) ne = elim (Bool-cases (ltb n token)) [
    | inl e ↦ rw e (level-write_ne k j n now u db ne)
    | inr e ↦ rw e (level-write_ne k j (n - token) now u db ne)
  ]

  -- A check for one key leaves the levels of the others.
  pub level-check_ne :
      (k j alias : String) (now u : ℕ) (db : Db)
      → k ≢ j
      → level redis l j u (check redis l k alias now db).1 ≡ level redis l j u db
  unfolding check
  level-check_ne k j alias now u db ne = level-consume_ne k j now u db (level redis l k now db) ne

  -- A check answers as the bucket does, and leaves the bucket that it has taken from.
  pub check-refines :
      (k alias : String) (t now : ℕ) (db : Db) (b : Bucket)
      → IsConfigured l
      → Holds k t db b
      → t ≤ now
      → ((check redis l k alias now db).0 ≡ answer l alias now b)
        × Holds k now (check redis l k alias now db).1 (taken l now b)
  check-refines k alias t now db b conf h le =
      rw (check-eq k alias t now db b h le) (refl, Holds-write k (taken l now b).tokens now db conf)
