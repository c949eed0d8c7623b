-- ===== src/Tenant.antt =====
-- backend/src/shared/tenant: who may act in which organization, and with which permissions.
pub mod Roles
pub mod Guards
pub mod Isolation
mod Examples
