-- ===== src/Providers.antt =====
-- app/providers/: the registry of the providers by model.
pub mod Registry
