-- ===== src/Ssrf.antt =====
-- backend/src/common/security/ssrf.ts: which URLs an outbound call may reach.
pub mod Guard
pub mod Fetch
pub mod Policy
pub mod Ipv4
mod Examples
