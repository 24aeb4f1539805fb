-- ===== src/Sdk.antt =====
-- sdks/go: what an agent runs before it touches a target.
pub mod Types
pub mod Revocations
pub mod Guard
