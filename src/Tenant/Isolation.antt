-- ===== src/Tenant/Isolation.antt =====
-- What the guards establish for the handler behind them.
use ai_business_operating_sy.Base.{
  ◌≡◌, refl, ap, ◌↔◌, String, true, false, List, [], ◌∷◌, some, arith, eq_iff, All, Option-cases,
  inl, inr, or_else, ok,
}
use ai_business_operating_sy.Tenant.Roles.{
  Permission, Membership, find_membership, role_permissions, contains, has_permission,
}
use ai_business_operating_sy.Tenant.Guards.{
  is_empty, Request, TenantContext, subject, token_org, truthy, tenant_guard, permissions_guard,
  missing,
}

find_membership_sound :
    (org user : String) (ms : List Membership) (m : Membership)
    → find_membership org user ms ≡ some m
    → (m.organization_id ≡ org) × (m.user_id ≡ user)
unfolding find_membership
find_membership_sound org user [] m h = absurd (ground arith)
find_membership_sound org user (x ∷ ms) m h = ground (
  arith,
  eq_iff x.organization_id org,
  eq_iff x.user_id user,
  find_membership_sound org user ms m,
)

-- What the tenant guard attaches to an admitted request: the context of the membership of the
-- request's own user in the organization of its header or token, with the permissions of its role.
pub record IsTenant (members : List Membership) (req : Request) (ctx : TenantContext) : Type 0 where
  pub user : subject req.user ≡ some ctx.user_id
  pub org : or_else (truthy req.organization_header) (token_org req.user) ≡ some ctx.organization_id
  pub member :
      find_membership ctx.organization_id ctx.user_id members
      ≡ some
          (record { organization_id = ctx.organization_id; user_id = ctx.user_id; role = ctx.role })
  pub permissions : ctx.permissions ≡ role_permissions ctx.role

module _ (members : List Membership) (req : Request) (ctx : TenantContext) where
  tenant_guard_sound :
      tenant_guard members false req ≡ (ok true, record req { tenant = some ctx })
      → IsTenant members req ctx
  unfolding tenant_guard
  tenant_guard_sound h = elim (Option-cases (subject req.user)) [
    | inl e ↦ ground arith
    | inr (user, hu) ↦
        elim (Option-cases (or_else (truthy req.organization_header) (token_org req.user))) [
          | inl e ↦ ground arith
          | inr (org, ho) ↦ elim (Option-cases (find_membership org user members)) [
            | inl e ↦ ground arith
            | inr (m, hm) ↦ ground (arith, find_membership_sound org user members m hm)
          ]
        ]
  ]

  tenant_guard_complete :
      IsTenant members req ctx
      → tenant_guard members false req ≡ (ok true, record req { tenant = some ctx })
  unfolding tenant_guard
  tenant_guard_complete t = ground (arith, eq_iff ctx.organization_id "", eq_iff ctx.user_id "")

-- A request passes the tenant guard with a context exactly when its user is a member of the
-- organization it names, and then the context is that membership's.
pub tenant_guard_iff :
    (members : List Membership) (req : Request) (ctx : TenantContext)
    → (tenant_guard members false req ≡ (ok true, record req { tenant = some ctx }))
      ↔ IsTenant members req ctx
tenant_guard_iff members req ctx =
    (tenant_guard_sound members req ctx, tenant_guard_complete members req ctx)

missing-empty :
    (ctx : TenantContext) (required : List Permission)
    → ctx.permissions ≡ role_permissions ctx.role
    → (is_empty (missing required ctx) ≡ true)
      ↔ All (λ p. has_permission ctx.role p ≡ true) required
unfolding has_permission
missing-empty ctx [] e = (λ _. tt, λ _. refl)
missing-empty ctx (p ∷ ps) e =
    let granted = ap (λ qs. contains qs p) e in
    (
      λ h. ground (arith, granted, (missing-empty ctx ps e).0),
      λ h. ground (arith, granted, (missing-empty ctx ps e).1 h.1),
    )

-- Behind both guards a handler that requires permissions runs only for a member of the organization
-- whose role holds every one of them, and it does run for each such member.
pub guards_iff :
    (members : List Membership) (req : Request) (ctx : TenantContext) (p : Permission)
    (ps : List Permission)
    → tenant_guard members false req ≡ (ok true, record req { tenant = some ctx })
    → ((permissions_guard (p ∷ ps) (record req { tenant = some ctx })).0 ≡ ok true)
      ↔ All (λ q. has_permission ctx.role q ≡ true) (p ∷ ps)
unfolding permissions_guard
guards_iff members req ctx p ps h =
    let e = missing-empty ctx (p ∷ ps) (tenant_guard_sound members req ctx h).permissions in
    (λ g. e.0 (ground arith), λ a. ground (arith, e.1 a))
