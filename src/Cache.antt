-- ===== src/Cache.antt =====
-- app/cache/: the response caches.
pub mod Exact
