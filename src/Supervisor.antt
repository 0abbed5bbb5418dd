-- ===== src/Supervisor.antt =====
-- The supervision of OpenCode by OpenCodeServerAgent (rust/src/supervisor/).
pub mod State
pub mod Durability
pub mod Launch
pub mod Recovery
pub mod Configuration
pub mod Start
pub mod Lifecycle
pub mod Retry
pub mod Unverified
pub mod Exit
pub mod Policy
pub mod Reattach
pub mod Health
pub mod Tick
pub mod Capabilities
pub mod Startup
