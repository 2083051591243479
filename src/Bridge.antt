-- ===== src/Bridge.antt =====
-- local-agent/internal/idebridge/: the WebSocket that the IDE talks to the agent by.
pub mod Access
pub mod Server
pub mod Clients
pub mod Opened
pub mod Frames
pub mod Guarded
pub mod Tracked
pub mod Reached
pub mod Discovery
pub mod Published
mod Tests
