-- ===== src/Gatekeeper.antt =====
-- services/gatekeeper, the platform's only decider.
pub mod Capreg
pub mod Ratelimit
pub mod Scopecanon
pub mod Rbac
pub mod Revocation
pub mod Types
pub mod Blackout
pub mod Audit
pub mod Approval
pub mod Policy
pub mod Token
