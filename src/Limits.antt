-- ===== src/Limits.antt =====
-- app/limits/: the monthly budget and the rate limit of an API key.
pub mod Budget
pub mod RateLimit
