-- ===== src/Members.antt =====
-- backend/src/modules/organizations: organizations and their members, and the invitations that end in
-- a membership.
pub mod State
pub mod Service
pub mod Invitations
pub mod Owners
pub mod Authority
pub mod Invite
pub mod Joined
mod Examples
