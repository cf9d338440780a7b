-- ===== src/Limits/RateLimit/Tests.antt =====
-- A bucket of two tokens that gains a token in four seconds.
use atlas_gateway.Common.{◌+◌, ◌*◌, ◌-◌, ◌≡◌, ◌≤◌, refl, List, [], ◌∷◌, arith, ok, err}
use atlas_gateway.Redis.{second}
use atlas_gateway.Redis.Memory.{memory, Store, no_keys, update}
use atlas_gateway.Limits.RateLimit as RateLimit
use atlas_gateway.Limits.RateLimit.{Limiter, rate_limit_exceeded, token, check, level, refill}
use atlas_gateway.Limits.RateLimit.Bucket.{check-refines, taken, IsConfigured, Bucket, Holds}
use atlas_gateway.Limits.RateLimit.Rate.{
  full, Holds-IsFresh, Call, run, admitted, rate_bound, retry_enough,
}

abbrev slow : Limiter
slow = record { capacity = 2; refill_per_sec = 250000 }

slow-IsConfigured : IsConfigured slow
slow-IsConfigured = omega arith

abbrev burst : List Call
burst =
    record { at = 1 * second; api_key_id = "a"; alias = "smart" }
    ∷ record { at = 1 * second; api_key_id = "a"; alias = "smart" }
    ∷ record { at = 2 * second; api_key_id = "b"; alias = "fast" }
    ∷ record { at = 2 * second; api_key_id = "a"; alias = "smart" }
    ∷ []

rate_bound_example :
    admitted memory slow "a" burst no_keys * token ≤ 2 * token + (9 * second - 0) * 250000
rate_bound_example =
    rate_bound memory slow "a" burst 0 (9 * second) no_keys slow-IsConfigured (λ u f le. refl)
      (omega arith)

-- The server after the first two calls, and the empty bucket that it holds.
abbrev spent : Store
spent =
    run memory slow
      (record { at = 1 * second; api_key_id = "a"; alias = "smart" }
        ∷ record { at = 1 * second; api_key_id = "a"; alias = "smart" }
        ∷ [])
      no_keys

abbrev empty : Bucket
empty = record { tokens = 0; ts = 1 * second }

refused : (check memory slow "a" "smart" (2 * second) spent).0 ≡ err (rate_limit_exceeded "smart" 3)
unfolding RateLimit.check RateLimit.consume RateLimit.level RateLimit.write RateLimit.mapping
    RateLimit.as_float RateLimit.refill RateLimit.retry_seconds RateLimit.ceil_div
    RateLimit.ttl_seconds RateLimit.key update
refused = refl

admitted_twice : admitted memory slow "a" burst no_keys ≡ 2
unfolding RateLimit.check RateLimit.consume RateLimit.level RateLimit.write RateLimit.mapping
    RateLimit.as_float RateLimit.refill RateLimit.retry_seconds RateLimit.ceil_div
    RateLimit.ttl_seconds RateLimit.key update
admitted_twice = refl

spent-Holds : Holds memory slow "a" (1 * second) spent empty
unfolding RateLimit.refill
spent-Holds =
    let b = full memory slow 0 in
    let (r, once) =
      check-refines memory slow "a" "smart" 0 (1 * second) no_keys b slow-IsConfigured
        (Holds-IsFresh memory slow "a" 0 no_keys (λ u f le. refl)) (omega arith) in
    (check-refines memory slow "a" "smart" (1 * second) (1 * second) _ (taken slow (1 * second) b)
      slow-IsConfigured once (omega arith)).1

retry_enough_example :
    (1 ≤ 3)
    × ((check memory slow "a" "smart"
          (5 * second)
          (check memory slow "a" "smart" (2 * second) spent).1).0
        ≡ ok tt)
retry_enough_example =
    retry_enough memory slow "a" "smart" (1 * second) (2 * second) spent empty 3 (5 * second)
      slow-IsConfigured spent-Holds (omega arith) refused (omega arith)
