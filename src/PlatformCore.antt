-- ===== src/PlatformCore.antt =====
-- services/platform-core, the orchestrator: the single authority for the state of tasks.
pub mod Statemachine
pub mod Tasks
pub mod Results
pub mod Reaper
pub mod Killswitch
pub mod Leases
pub mod Planner
pub mod Scope
