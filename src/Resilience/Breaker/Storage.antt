-- ===== src/Resilience/Breaker/Storage.antt =====
-- What a breaker reads back from Redis after it has written.
use atlas_gateway.Common.{
  ℕ, ◌+◌, ◌*◌, ◌≤◌, String, ◌≡◌, refl, ◌≢◌, inl, inr, Bool-cases, some, ltb, if◌then◌else◌, ok,
  prefix_ne,
}
use atlas_gateway.Redis.{Redis, text, second}
use atlas_gateway.Redis.Written.{hget-expire-hset, hget-expire-hset_ne}
use atlas_gateway.Resilience.Breaker.{
  CircuitState, closed, opened, half_open, CircuitBreaker, state_value, as_state, as_int, as_float,
  key, ttl_seconds, interpret, read, mapping, load, save,
}

-- The value of a state is read back as that state.
pub as_state-state_value : (s : CircuitState) → as_state (some (text (state_value s))) ≡ s
unfolding as_state state_value
as_state-state_value closed = refl
as_state-state_value opened = refl
as_state-state_value half_open = refl

pub key_ne : (p q : String) → p ≢ q → key p ≢ key q
unfolding key
key_ne p q h = prefix_ne "atlas:circuit:" p q h

module _ (redis : Redis) (b : CircuitBreaker) where
  open redis use {Db}

  -- Before the key expires the fields that were written are read; then the breaker is as new.
  pub load-save :
      (p : String) (s : CircuitState) (failures opened_at t u : ℕ) (db : Db)
      → t ≤ u
      → load redis b p u (save redis b p s failures opened_at t db)
        ≡ ok (
            if ltb u (t + ttl_seconds b * second)
            then interpret b s failures opened_at u
            else interpret b closed 0 0 u)
  unfolding load save read as_int as_float mapping
  load-save p s failures opened_at t u db h =
      rw
        (
          hget-expire-hset redis t u (key p) "state" _ _ db h,
          hget-expire-hset redis t u (key p) "failures" _ _ db h,
          hget-expire-hset redis t u (key p) "opened_at" _ _ db h,
        )
        (elim (Bool-cases (ltb u (t + ttl_seconds b * second))) [
          | inl e ↦ rw (e, as_state-state_value s)
          | inr e ↦ rw e (unfold as_state in refl)
        ])

  pub load-save_ne :
      (p q : String) (s : CircuitState) (failures opened_at t u : ℕ) (db : Db)
      → p ≢ q
      → load redis b q u (save redis b p s failures opened_at t db) ≡ load redis b q u db
  unfolding load save
  load-save_ne p q s failures opened_at t u db h =
      simp (hget-expire-hset_ne redis t u (key p) (key q), key_ne p q h)
