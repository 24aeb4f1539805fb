-- ===== src/Gatekeeper/Token.antt =====
-- services/gatekeeper/internal/token: the Scope Tokens, minted, narrowed, refreshed and revoked.
pub mod Types
pub mod Manifest
pub mod Jwt
pub mod Terms
pub mod Mint
pub mod Exchange
pub mod Renewal
pub mod Minted
pub mod Passed
pub mod Granted
pub mod Sets
pub mod Signed
pub mod Covered
pub mod Narrowed
pub mod Withdrawn
pub mod Loaded
pub mod Refreshed
