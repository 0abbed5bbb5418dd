-- ===== src/Trace.antt =====
-- Counting what the agent did to processes, along the trace of its calls.
pub mod Score
pub mod Process
pub mod Spawn
pub mod Services
pub mod State
pub mod Start
pub mod Lifecycle
pub mod Exit
pub mod Health
pub mod Tick
