-- ===== src/Routing.antt =====
-- app/routing/: from an alias to the provider and the models that serve it.
pub mod Aliases
