-- ===== src/Chat.antt =====
-- app/services/chat_service.py: a chat completion over its optional collaborators.
pub mod Run
pub mod Ports
pub mod Service
pub mod Stream
pub mod Breaking
pub mod Caching
mod Tests
mod CachingTests
