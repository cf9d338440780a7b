-- ===== src/Domain.antt =====
-- app/domain/: the types that the services and the providers exchange.
pub mod Json
pub mod Messages
pub mod Openai
