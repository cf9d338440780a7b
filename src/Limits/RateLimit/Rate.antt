-- ===== src/Limits/RateLimit/Rate.antt =====
-- What the buckets promise: a bound on the admitted calls of a key, and a wait that is enough.
use native.Mathlib.Nat.{le_refl}
use atlas_gateway.Common.{
  ℕ, ◌+◌, ◌-◌, ◌*◌, ◌≤◌, ◌<◌, String, ◌≡◌, sym, subst, ap, ◌∙◌, none, List, [], ◌∷◌, arith, ◌=ₛ◌,
  =ₛ_iff, ne_of_test, if◌then◌else◌, Bool-cases, inl, inr, Result, ok, err,
}
use atlas_gateway.Redis.{Redis, second}
use atlas_gateway.Limits.RateLimit.{
  Limiter, rate_limit_exceeded, token, per_second, ceil_div, refill, retry_seconds, level, check,
  key, as_float,
}
use atlas_gateway.Limits.RateLimit.Bucket.{
  ceil_div-lt, ceil_div-le, IsConfigured, Bucket, level_at, taken, answer, Holds, check-refines,
  level-check_ne, mul_sum, mul_mono,
}

pub record Call : Type 0 where
  pub at : ℕ
  pub api_key_id : String
  pub alias : String

-- The calls come in the order of their times, none before the first time or after the last.
abbrev pub InOrder : ℕ → ℕ → List Call → Type 0
InOrder first last [] = first ≤ last
InOrder first last (c ∷ cs) = (first ≤ c.at) × InOrder c.at last cs

abbrev is_ok {ℓ} : {E A : Type ℓ} → Result E A → ℕ
is_ok (ok a) = 1
is_ok (err e) = 0

InOrder-le : (t last : ℕ) (cs : List Call) → InOrder t last cs → t ≤ last
InOrder-le t last [] h = h
InOrder-le t last (c ∷ cs) h = omega (arith, InOrder-le c.at last cs h.1)

module _ (l : Limiter) where
  -- What a check takes out of the bucket it takes for an admitted call.
  taken-level :
      (alias : String) (now : ℕ) (b : Bucket)
      → is_ok (answer l alias now b) * token + level_at l now (taken l now b) ≡ level_at l now b
  unfolding refill
  taken-level alias now b = ground arith

  level-grows :
      (t now : ℕ) (b : Bucket)
      → b.ts ≤ t
      → t ≤ now
      → level_at l now b ≤ level_at l t b + (now - t) * l.refill_per_sec
  unfolding refill
  level-grows t now b le lt =
      omega (arith, mul_sum (t - b.ts) (now - t) (now - b.ts) l.refill_per_sec (omega arith))

  full_later : (t u : ℕ) → refill l (l.capacity * token) t u ≡ l.capacity * token
  unfolding refill
  full_later t u = omega arith

  refused_below :
      (alias : String) (now : ℕ) (b : Bucket) (wait : ℕ)
      → answer l alias now b ≡ err (rate_limit_exceeded alias wait)
      → (level_at l now b < token) × (wait ≡ retry_seconds l (level_at l now b))
  refused_below alias now b wait h = ground arith

  retry_seconds-pos : (n : ℕ) → 1 ≤ retry_seconds l n
  unfolding retry_seconds
  retry_seconds-pos n = omega arith

  -- The wait gives a whole token.
  wait_enough :
      (n now u : ℕ)
      → IsConfigured l
      → now + retry_seconds l n * second ≤ u
      → token ≤ refill l n now u
  unfolding refill retry_seconds
  wait_enough n now u conf h =
      let q = ceil_div (token - n) (l.refill_per_sec * per_second) in
      omega (
        arith,
        ceil_div-le (token - n) (l.refill_per_sec * per_second) (omega arith),
        mul_mono (q * second) (u - now) l.refill_per_sec (omega arith),
      )

  -- A wait that is a second shorter does not.
  wait_needed :
      (n now u : ℕ)
      → IsConfigured l
      → n < token
      → now ≤ u
      → u + second ≤ now + retry_seconds l n * second
      → refill l n now u < token
  unfolding refill retry_seconds
  wait_needed n now u conf lt le h =
      let q = ceil_div (token - n) (l.refill_per_sec * per_second) in
      let below =
        ceil_div-lt (token - n) (l.refill_per_sec * per_second) (omega arith) (omega arith) in
      omega (
        arith,
        below,
        mul_mono (u - now) ((q - 1) * second) l.refill_per_sec (omega (arith, below)),
      )

  answer_ok :
      (alias : String) (now : ℕ) (b : Bucket)
      → token ≤ level_at l now b
      → answer l alias now b ≡ ok tt
  answer_ok alias now b h = ground arith

  answer_err :
      (alias : String) (now : ℕ) (b : Bucket)
      → level_at l now b < token
      → answer l alias now b ≡ err (rate_limit_exceeded alias (retry_seconds l (level_at l now b)))
  answer_err alias now b h = ground arith

  taken_refused :
      (now : ℕ) (b : Bucket)
      → level_at l now b < token
      → taken l now b ≡ record { tokens = level_at l now b; ts = now }
  taken_refused now b h = ground arith

module _ (redis : Redis) (l : Limiter) where
  open redis use {Db, hget}

  abbrev pub run : List Call → Db → Db
  run [] db = db
  run (c ∷ cs) db = run cs (check redis l c.api_key_id c.alias c.at db).1

  -- How many calls of a key are let through.
  abbrev pub admitted : String → List Call → Db → ℕ
  admitted k [] db = 0
  admitted k (c ∷ cs) db =
      let (r, db') = check redis l c.api_key_id c.alias c.at db in
      let rest = admitted k cs db' in if c.api_key_id =ₛ k then is_ok r + rest else rest

  check_same :
      (c : Call) (k : String) (t : ℕ) (db : Db) (b : Bucket)
      → IsConfigured l
      → c.api_key_id ≡ k
      → Holds redis l k t db b
      → t ≤ c.at
      → ((check redis l c.api_key_id c.alias c.at db).0 ≡ answer l c.alias c.at b)
        × Holds redis l k c.at (check redis l c.api_key_id c.alias c.at db).1 (taken l c.at b)
  check_same c k t db b conf e h le =
      subst
        (λ j.
          ((check redis l j c.alias c.at db).0 ≡ answer l c.alias c.at b)
          × Holds redis l k c.at (check redis l j c.alias c.at db).1 (taken l c.at b))
        (sym e) (check-refines redis l k c.alias t c.at db b conf h le)

  admitted-le :
      (k : String) (cs : List Call) (t last : ℕ) (db : Db) (b : Bucket)
      → IsConfigured l
      → Holds redis l k t db b
      → b.ts ≤ t
      → InOrder t last cs
      → admitted k cs db * token ≤ level_at l t b + (last - t) * l.refill_per_sec
  admitted-le k [] t last db b conf h le ordered = omega arith
  admitted-le k (c ∷ cs) t last db b conf h le (lt, rest) =
      let until = InOrder-le c.at last cs rest in
      let db' = (check redis l c.api_key_id c.alias c.at db).1 in
      elim (Bool-cases (c.api_key_id =ₛ k)) [
        | inl same ↦
            let (r, h') = check_same c k t db b conf ((=ₛ_iff c.api_key_id k).0 same) h lt in
            rw (same, r)
              (omega (
                arith,
                admitted-le k cs c.at last db' (taken l c.at b) conf h' (le_refl c.at) rest,
                taken-level l c.alias c.at b,
                level-grows l t c.at b le lt,
                mul_sum (c.at - t) (last - c.at) (last - t) l.refill_per_sec (omega arith),
              ))
        | inr other ↦
            let still : Holds redis l k c.at db' b = λ u lu.
              level-check_ne redis l c.api_key_id k c.alias c.at u db
                (ne_of_test c.api_key_id k other)
              ∙ h u (omega arith) in
            rw other (
              omega (
                arith,
                admitted-le k cs c.at last db' b conf still (omega arith) rest,
                level-grows l t c.at b le lt,
                mul_sum (c.at - t) (last - c.at) (last - t) l.refill_per_sec (omega arith),
              ))
      ]

  -- The server has nothing under the key of an API key, at a time or later.
  abbrev pub IsFresh : String → ℕ → Db → Type 0
  IsFresh k t db = (u : ℕ) (f : String) → t ≤ u → hget u db (key k) f ≡ none

  abbrev pub full : ℕ → Bucket
  full t = record { tokens = l.capacity * token; ts = t }

  pub Holds-IsFresh :
      (k : String) (t : ℕ) (db : Db) → IsFresh k t db → Holds redis l k t db (full t)
  unfolding level as_float
  Holds-IsFresh k t db h u lu =
      rw (h u "tokens" lu, h u "ts" lu) (ap ok (full_later l u u ∙ sym (full_later l t u)))

  -- From a server without the key, whatever calls are made for this key and for others, in the
  -- order of their times: the calls of the key that are let through are at most the capacity and
  -- what the refill rate gives between the first and the last time.
  pub rate_bound :
      (k : String) (cs : List Call) (first last : ℕ) (db : Db)
      → IsConfigured l
      → IsFresh k first db
      → InOrder first last cs
      → admitted k cs db * token ≤ l.capacity * token + (last - first) * l.refill_per_sec
  unfolding refill
  rate_bound k cs first last db conf fresh ordered = omega (
    arith,
    admitted-le k cs first last db (full first) conf (Holds-IsFresh k first db fresh)
        (le_refl first) ordered,
  )

  -- The bucket that a refused check leaves.
  refused-Holds :
      (k alias : String) (t now : ℕ) (db : Db) (b : Bucket) (wait : ℕ)
      → IsConfigured l
      → Holds redis l k t db b
      → t ≤ now
      → (check redis l k alias now db).0 ≡ err (rate_limit_exceeded alias wait)
      → let n = level_at l now b in
        (n < token)
        × (wait ≡ retry_seconds l n)
        × Holds redis l k now (check redis l k alias now db).1 (record { tokens = n; ts = now })
  refused-Holds k alias t now db b wait conf h lt refused =
      let (r, h') = check-refines redis l k alias t now db b conf h lt in
      let (low, w) = refused_below l alias now b wait (sym r ∙ refused) in
      (
        low,
        w,
        subst (Holds redis l k now (check redis l k alias now db).1) (taken_refused l now b low) h',
      )

  -- After a refusal with a wait, in a server that holds a bucket of the key: the wait is at least a
  -- second, and a call at any time when it is over is let through.
  pub retry_enough :
      (k alias : String) (t now : ℕ) (db : Db) (b : Bucket) (wait u : ℕ)
      → IsConfigured l
      → Holds redis l k t db b
      → t ≤ now
      → (check redis l k alias now db).0 ≡ err (rate_limit_exceeded alias wait)
      → now + wait * second ≤ u
      → (1 ≤ wait) × ((check redis l k alias u (check redis l k alias now db).1).0 ≡ ok tt)
  retry_enough k alias t now db b wait u conf h lt refused over =
      let n = level_at l now b in
      let b' : Bucket = record { tokens = n; ts = now } in
      let (low, w, h') = refused-Holds k alias t now db b wait conf h lt refused in
      (
        omega (arith, retry_seconds-pos l n),
        (check-refines redis l k alias now u _ b' conf h' (omega arith)).0
            ∙ answer_ok l alias u b' (wait_enough l n now u conf (omega arith)),
      )

  -- After a refusal with a wait, in a server that holds a bucket of the key: a call at a time from
  -- which a second or more of the wait is left is refused again.
  pub retry_needed :
      (k alias : String) (t now : ℕ) (db : Db) (b : Bucket) (wait u : ℕ)
      → IsConfigured l
      → Holds redis l k t db b
      → t ≤ now
      → (check redis l k alias now db).0 ≡ err (rate_limit_exceeded alias wait)
      → now ≤ u
      → u + second ≤ now + wait * second
      → (again : ℕ) × ((check redis l k alias u (check redis l k alias now db).1).0
          ≡ err (rate_limit_exceeded alias again))
  retry_needed k alias t now db b wait u conf h lt refused since early =
      let n = level_at l now b in
      let b' : Bucket = record { tokens = n; ts = now } in
      let (low, w, h') = refused-Holds k alias t now db b wait conf h lt refused in
      (
        retry_seconds l (level_at l u b'),
        (check-refines redis l k alias now u _ b' conf h' since).0
            ∙ answer_err l alias u b' (wait_needed l n now u conf low since (omega arith)),
      )
