-- ===== src/Process.antt =====
-- The managed OpenCode process (rust/src/process.rs, process_group.rs, process_cleanup.rs).
pub mod Identity
pub mod Group
pub mod Cleanup
pub mod Managed
pub mod Spawn
