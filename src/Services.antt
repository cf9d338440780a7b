-- ===== src/Services.antt =====
-- app/services/: the services beside the chat service.
pub mod Embeddings
pub mod Models
