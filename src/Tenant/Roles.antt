-- ===== src/Tenant/Roles.antt =====
-- tenant-context.ts and permission.service.ts: the roles, the permissions and the matrix between them.
use ai_business_operating_sy.Base.{
  ℕ, ◌≤◌, ◌≡◌, refl, String, Bool, true, ◌&&◌, List, [], ◌∷◌, Option, arith, eqb, any, first, ◌==◌,
}

-- `MemberRole`
pub data Role : Type 0 where
  owner admin manager operator viewer : Role

-- The roles in the order of their power.
abbrev pub rank : Role → ℕ
rank owner = 4
rank admin = 3
rank manager = 2
rank operator = 1
rank viewer = 0

pub data Permission : Type 0 where
  agent_create agent_read agent_update agent_delete agent_deploy knowledge_read knowledge_write
        workflow_create workflow_read workflow_run conversation_create conversation_read
        integration_read integration_write member_invite member_remove member_update_role
        billing_read billing_write audit_read settings_read settings_write :
      Permission

-- The position of a permission in the union type.
abbrev pub ordinal : Permission → ℕ
ordinal agent_create = 0
ordinal agent_read = 1
ordinal agent_update = 2
ordinal agent_delete = 3
ordinal agent_deploy = 4
ordinal knowledge_read = 5
ordinal knowledge_write = 6
ordinal workflow_create = 7
ordinal workflow_read = 8
ordinal workflow_run = 9
ordinal conversation_create = 10
ordinal conversation_read = 11
ordinal integration_read = 12
ordinal integration_write = 13
ordinal member_invite = 14
ordinal member_remove = 15
ordinal member_update_role = 16
ordinal billing_read = 17
ordinal billing_write = 18
ordinal audit_read = 19
ordinal settings_read = 20
ordinal settings_write = 21

-- `ROLE_PERMISSIONS`
abbrev pub role_permissions : Role → List Permission
role_permissions owner =
    agent_create ∷ agent_read ∷ agent_update ∷ agent_delete ∷ agent_deploy ∷ knowledge_read
    ∷ knowledge_write ∷ workflow_create ∷ workflow_read ∷ workflow_run ∷ conversation_create
    ∷ conversation_read ∷ integration_read ∷ integration_write ∷ member_invite ∷ member_remove
    ∷ member_update_role ∷ billing_read ∷ billing_write ∷ audit_read ∷ settings_read
    ∷ settings_write ∷ []
role_permissions admin =
    agent_create ∷ agent_read ∷ agent_update ∷ agent_delete ∷ agent_deploy ∷ knowledge_read
    ∷ knowledge_write ∷ workflow_create ∷ workflow_read ∷ workflow_run ∷ conversation_create
    ∷ conversation_read ∷ integration_read ∷ integration_write ∷ member_invite ∷ member_remove
    ∷ billing_read ∷ settings_read ∷ settings_write ∷ []
role_permissions manager =
    agent_create ∷ agent_read ∷ agent_update ∷ agent_deploy ∷ knowledge_read ∷ knowledge_write
    ∷ workflow_create ∷ workflow_read ∷ workflow_run ∷ conversation_create ∷ conversation_read
    ∷ integration_read ∷ settings_read ∷ []
role_permissions operator =
    agent_read ∷ knowledge_read ∷ workflow_read ∷ conversation_create ∷ conversation_read
    ∷ settings_read ∷ []
role_permissions viewer =
    agent_read ∷ knowledge_read ∷ workflow_read ∷ conversation_read ∷ settings_read ∷ []

abbrev pub contains : List Permission → Permission → Bool
contains ps p = any (λ q. eqb (ordinal q) (ordinal p)) ps

-- `PermissionService.hasPermission`
unfoldable pub has_permission : Role → Permission → Bool
has_permission role p = contains (role_permissions role) p

-- `roles.includes(role)`
abbrev pub includes : List Role → Role → Bool
includes roles role = any (λ r. eqb (rank r) (rank role)) roles

-- A row of `organization_members`; its key is the pair of organization and user.
pub record Membership : Type 0 where
  pub organization_id : String
  pub user_id : String
  pub role : Role

abbrev pub is_membership : String → String → Membership → Bool
is_membership org user m = m.organization_id == org && m.user_id == user

-- `organizationMember.findUnique({ where: { organizationId_userId } })`
unfoldable pub find_membership : String → String → List Membership → Option Membership
find_membership org user ms = first (is_membership org user) ms

operator-includes-viewer :
    (p : Permission) → has_permission viewer p ≡ true → has_permission operator p ≡ true
unfolding has_permission
operator-includes-viewer agent_create h = h
operator-includes-viewer _ h = ground arith

manager-includes-operator :
    (p : Permission) → has_permission operator p ≡ true → has_permission manager p ≡ true
unfolding has_permission
manager-includes-operator agent_create h = refl
manager-includes-operator _ h = ground arith

admin-includes-manager :
    (p : Permission) → has_permission manager p ≡ true → has_permission admin p ≡ true
unfolding has_permission
admin-includes-manager agent_create h = refl
admin-includes-manager _ h = ground arith

owner_has_all : (p : Permission) → has_permission owner p ≡ true
unfolding has_permission
owner_has_all agent_create = refl
owner_has_all _ = refl

-- The matrix is a hierarchy: a role of higher rank holds every permission of a role of lower rank.
pub has_permission_mono :
    (low high : Role) (p : Permission)
    → rank low ≤ rank high
    → has_permission low p ≡ true
    → has_permission high p ≡ true
has_permission_mono low high p le h = ground (
  arith,
  operator-includes-viewer p,
  manager-includes-operator p,
  admin-includes-manager p,
  owner_has_all p,
)
