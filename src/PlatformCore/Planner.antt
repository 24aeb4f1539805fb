-- ===== src/PlatformCore/Planner.antt =====
-- services/platform-core/internal/orchestrator/planner.go: the plans of the commanders.
pub mod Types
pub mod Intake
pub mod Submit
pub mod Settled
pub mod Accepted
pub mod Valid
pub mod Answered
