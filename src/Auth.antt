-- ===== src/Auth.antt =====
-- backend/src/modules/auth/auth.service.ts: accounts, passwords and refresh tokens.
pub mod State
pub mod Service
pub mod Revoked
pub mod History
pub mod Passwords
mod Examples
