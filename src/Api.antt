-- ===== src/Api.antt =====
-- app/api/: the wiring of the collaborators of a request, and the chat endpoint.
pub mod Deps
pub mod Chat
