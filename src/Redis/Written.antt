-- ===== src/Redis/Written.antt =====
-- HSET and EXPIRE queued in one MULTI block, as every adapter writes.
use atlas_gateway.Common.{ℕ, ◌+◌, ◌*◌, ◌≤◌, String, ◌≡◌, ◌≢◌, ap, ◌∙◌, none, ltb, if◌then◌else◌}
use atlas_gateway.Redis.{Redis, Fields, lookup_or, second}

module _ (redis : Redis) where
  open redis use {Db, hget, hset, expire, hget-hset, hget-hset_ne, hget-expire, hget-expire_ne}

  -- Until the deadline the mapping is read back, then nothing.
  pub hget-expire-hset :
      (t u : ℕ) (k f : String) (m : Fields) (n : ℕ) (db : Db)
      → t ≤ u
      → hget u (expire t k n (hset t k m db)) k f
        ≡ (if ltb u (t + n * second) then lookup_or f m (hget t db k f) else none)
  hget-expire-hset t u k f m n db h =
      hget-expire t u k f n _ h
      ∙ ap (λ v. if ltb u (t + n * second) then v else none) (hget-hset t k f m db)

  pub hget-expire-hset_ne :
      (t u : ℕ) (k j f : String) (m : Fields) (n : ℕ) (db : Db)
      → k ≢ j
      → hget u (expire t k n (hset t k m db)) j f ≡ hget u db j f
  hget-expire-hset_ne t u k j f m n db h =
      hget-expire_ne t u k j f n _ h ∙ hget-hset_ne t u k j f m db h
