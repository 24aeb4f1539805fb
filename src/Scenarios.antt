-- ===== src/Scenarios.antt =====
-- The theorems at concrete inputs.
mod World
mod Approval
mod Policy
mod Gatekeeper
mod PlatformCore
mod Audit
mod Token
mod Leases
mod Planner
mod Sdk
