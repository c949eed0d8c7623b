-- ===== src/Integrations.antt =====
-- backend/src/modules/integrations: the integrations of organizations and their encrypted credentials.
pub mod Credentials
pub mod Service
pub mod Resolved
mod Examples
