-- ===== src/Resilience.antt =====
-- app/resilience/: the per-provider circuit breaker and the retry policy.
pub mod Breaker
