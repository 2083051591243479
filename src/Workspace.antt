-- ===== src/Workspace.antt =====
-- The workspaces and the changes to their files (local-agent/internal/workspace/).
pub mod Store
pub mod Disk
pub mod Resolve
pub mod Files
pub mod Sorting
pub mod Hits
pub mod Search
pub mod Propose
pub mod Registry
pub mod Conflicts
pub mod Apply
mod Tests
