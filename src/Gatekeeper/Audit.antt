-- ===== src/Gatekeeper/Audit.antt =====
-- services/gatekeeper/internal/audit: the audit log, one hash chain per organization.
pub mod Types
pub mod Recorder
pub mod Verifier
pub mod Chain
pub mod Stored
pub mod Kept
pub mod Checked
pub mod Vouched
pub mod Ingest
pub mod Replay
