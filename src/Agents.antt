-- ===== src/Agents.antt =====
-- agents.service.ts
pub mod State
pub mod Service
pub mod Invariant
pub mod Copies
pub mod History
pub mod Versions
pub mod Attachments
pub mod Duplicate
mod Examples
