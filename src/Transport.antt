-- ===== src/Transport.antt =====
-- local-agent/internal/transport/: how envelopes come to the agent and its answers leave.
pub mod Memory
pub mod Rounds
pub mod Ordered
pub mod Ended
pub mod Drained
pub mod Stream
mod Tests
