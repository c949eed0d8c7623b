-- ===== src/Tenant/Examples.antt =====
-- Requests in the organization "acme", whose manager is "ann".
use ai_business_operating_sy.Base.{
  ◌≡◌, refl, List, [], ◌∷◌, none, some, ok, err, forbidden, true, false, All,
}
use ai_business_operating_sy.Tenant.Roles.{
  Membership, manager, admin, agent_deploy, workflow_run, has_permission, find_membership,
  role_permissions,
}
use ai_business_operating_sy.Tenant.Guards.{
  Request, TenantContext, tenant_guard, permissions_guard, roles_guard,
}
use ai_business_operating_sy.Tenant.Isolation.{IsTenant, tenant_guard_iff, guards_iff}

abbrev members : List Membership
members = record { organization_id = "acme"; user_id = "ann"; role = manager } ∷ []

abbrev request : Request
request = record {
  user = some (record { sub = "ann"; org = some "acme" });
  organization_header = none;
  tenant = none;
}

abbrev context : TenantContext
context = record {
  organization_id = "acme";
  user_id = "ann";
  role = manager;
  permissions = role_permissions manager;
}

admitted : tenant_guard members false request ≡ (ok true, record request { tenant = some context })
unfolding tenant_guard find_membership
admitted = refl

refused :
    (tenant_guard members false (record request { organization_header = some "other" })).0
    ≡ err (forbidden "Not a member of this organization")
unfolding tenant_guard find_membership
refused = refl

wrong_role :
    (roles_guard (admin ∷ []) (record request { tenant = some context })).0
    ≡ err (forbidden "Insufficient role")
unfolding roles_guard
wrong_role = refl

tenant_guard_iff_example : IsTenant members request context
tenant_guard_iff_example = (tenant_guard_iff members request context).0 admitted

guards_iff_example : All (λ q. has_permission manager q ≡ true) (agent_deploy ∷ workflow_run ∷ [])
unfolding permissions_guard
guards_iff_example =
    (guards_iff members request context agent_deploy (workflow_run ∷ []) admitted).0 refl
