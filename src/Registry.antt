-- ===== src/Registry.antt =====
-- app/registry/: the life cycle of prompt versions, and the resolver of prompt references.
pub mod Promotion
pub mod Resolver
