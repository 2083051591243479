-- ===== src/Protocol.antt =====
-- The shared protocol library (protocol/): error codes, identifiers, versions and messages, and the
-- JSON values that they carry.
pub mod Adapter
pub mod Errors
pub mod Ids
pub mod Versioning
pub mod Json
pub mod Messages
