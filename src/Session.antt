-- ===== src/Session.antt =====
-- The hub between the IDE and the server (local-agent/internal/idesession/).
pub mod Change
pub mod Events
pub mod Frames
pub mod Hub
pub mod Proposed
pub mod Local
pub mod Chat
mod Tests
