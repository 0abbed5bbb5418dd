-- ===== src/Safety.antt =====
-- The theorems on the parts of the supervisor.
pub mod Transaction
pub mod Reattach
pub mod Credentials
pub mod Quiet
pub mod Startup
pub mod Records
pub mod Shutdown
mod Tests
pub mod Single
pub mod Recovery
pub mod Capabilities
pub mod Signals
pub mod Deadlines
pub mod Probe
