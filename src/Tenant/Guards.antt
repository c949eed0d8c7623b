-- ===== src/Tenant/Guards.antt =====
-- tenant.guard.ts, permissions.guard.ts, roles.guard.ts and the class of tenant-context.ts. A guard is
-- a method on the request, to which the tenant guard attaches the context.
use ai_business_operating_sy.Base.{
  String, Bool, true, false, not, List, [], ◌∷◌, Option, none, some, ◌==◌, if◌then◌else◌, or_else,
  keep, M, ◌>>=◌, ◌>>◌, return, ensure, or_throw, get, write, unauthorized, forbidden, internal,
}
use ai_business_operating_sy.Tenant.Roles.{
  Role, Permission, Membership, find_membership, role_permissions, contains, includes,
}

-- The payload of the access token.
pub record JwtUser : Type 0 where
  pub sub : String
  pub org : Option String

pub record TenantContext : Type 0 where
  pub organization_id : String
  pub user_id : String
  pub role : Role
  pub permissions : List Permission

pub record Request : Type 0 where
  pub user : Option JwtUser
  pub organization_header : Option String
  pub tenant : Option TenantContext

-- A string that JavaScript takes for true: present and not empty.
abbrev pub truthy : Option String → Option String
truthy none = none
truthy (some s) = if s == "" then none else some s

abbrev pub subject : Option JwtUser → Option String
subject none = none
subject (some u) = truthy (some u.sub)

abbrev pub token_org : Option JwtUser → Option String
token_org none = none
token_org (some u) = truthy u.org

-- The constructor; it refuses an empty organization or user.
abbrev pub tenant_context : String → String → Role → List Permission → M Request TenantContext
tenant_context org user role ps = do
  ensure (not (org == "")) (internal "TenantContext: organizationId is required")
  ensure (not (user == "")) (internal "TenantContext: userId is required")
  return (record { organization_id = org; user_id = user; role = role; permissions = ps })

-- `TenantGuard.canActivate` of a handler without @SkipTenant
abbrev pub check_tenant : List Membership → M Request Bool
check_tenant members = do
  req ← get
  user ← or_throw (subject req.user) (unauthorized "Authentication required")
  org ←
      or_throw (or_else (truthy req.organization_header) (token_org req.user))
        (forbidden "Organization not specified. Send X-Organization-Id header.")
  m ← or_throw (find_membership org user members) (forbidden "Not a member of this organization")
  ctx ← tenant_context m.organization_id m.user_id m.role (role_permissions m.role)
  write (λ r. record r { tenant = some ctx })
  return true

unfoldable pub tenant_guard : List Membership → Bool → M Request Bool
tenant_guard members true = return true
tenant_guard members false = check_tenant members

abbrev pub missing : List Permission → TenantContext → List Permission
missing required ctx = keep (λ p. not (contains ctx.permissions p)) required

abbrev pub is_empty {ℓ} : {A : Type ℓ} → List A → Bool
is_empty [] = true
is_empty (_ ∷ _) = false

-- `PermissionsGuard.canActivate`; no requirement is no check.
unfoldable pub permissions_guard : List Permission → M Request Bool
permissions_guard [] = return true
permissions_guard (p ∷ ps) = do
  req ← get
  ctx ←
      or_throw req.tenant
        (forbidden "Tenant context missing. Add TenantGuard before PermissionsGuard.")
  ensure (is_empty (missing (p ∷ ps) ctx)) (forbidden "Missing permissions")
  return true

-- `RolesGuard.canActivate`
unfoldable pub roles_guard : List Role → M Request Bool
roles_guard [] = return true
roles_guard (r ∷ rs) = do
  req ← get
  ctx ← or_throw req.tenant (forbidden "Tenant context missing. Add TenantGuard before RolesGuard.")
  ensure (includes (r ∷ rs) ctx.role) (forbidden "Insufficient role")
  return true
