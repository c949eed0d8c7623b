-- ===== src/Members/Service.antt =====
-- The methods of organizations.service.ts. New ids are arguments, and `slug` is what
-- `generateUniqueSlug` returned. The columns that only the views read (counts, dates) are left out.
use ai_business_operating_sy.Base.{
  Bool, List, M, Option, String, conflict, create, ensure, false, find, forbidden, get,
  if◌then◌else◌, internal, is_some, keep, modify, none, not, not_found, or_default, or_else,
  or_throw, return, some, write, ◌==◌, ◌>>=◌, ◌>>◌, ◌∷◌,
}
use ai_business_operating_sy.Tenant.Roles.{Role, owner}
use ai_business_operating_sy.Members.State.{
  Member, Profile, Organization, MembersDb, parse_role, is_owner, is_admin, find_member, set_role,
  delete_member, find_user,
}

-- `verifyMembership`
abbrev pub verify_membership : String → String → M MembersDb Member
verify_membership org user = do
  db ← get
  or_throw (find_member org user db.members) (forbidden "Not a member of this organization")

-- `verifyAdminAccess`
abbrev pub verify_admin_access : String → String → M MembersDb Member
verify_admin_access org user = do
  m ← verify_membership org user
  ensure (is_admin m.role) (forbidden "Admin access required")
  return m

-- `verifyOwnerAccess`
abbrev pub verify_owner_access : String → String → M MembersDb Member
verify_owner_access org user = do
  m ← verify_membership org user
  ensure (is_owner m.role) (forbidden "Owner access required")
  return m

-- `create` of a membership; the unique key refuses a second row.
abbrev pub insert_member : Member → M MembersDb (Unit {0})
insert_member m = do
  db ← get
  ensure (not (is_some (find_member m.organization_id m.user_id db.members)))
      (internal "Unique constraint failed")
  write (λ d. record d { members = m ∷ d.members })

-- `findAll`: the memberships of a user
abbrev pub find_all : String → M MembersDb (List Member)
find_all user = do db ← get; return (keep (λ m. m.user_id == user) db.members)

-- `findOne`
abbrev pub find_one : String → String → M MembersDb (Role × Option Organization)
find_one org user = do
  db ← get
  m ← or_throw (find_member org user db.members) (not_found "Organization not found")
  return (m.role, find org db.organizations)

-- `create`
unfoldable pub create_organization : Profile → (user slug id : String) → M MembersDb Organization
create_organization dto user slug id =
    let o : Organization = record { slug = slug; profile = dto } in
    let m : Member = record {
      organization_id = id;
      user_id = user;
      role = owner;
      invited_by = none;
    } in
    do
      db ← get
      ensure (not (is_some (find id db.organizations))) (internal "Unique constraint failed")
      write (λ d. record d { organizations = create id o d.organizations })
      insert_member m
      return o

-- The body of an update: a field that it leaves out is not written.
pub record ProfileUpdate : Type 0 where
  pub name : Option String
  pub logo_url : Option String
  pub industry : Option String
  pub country : Option String
  pub language : Option String
  pub timezone : Option String
  pub settings : Option String

abbrev pub apply_update : ProfileUpdate → Profile → Profile
apply_update dto p = record {
  name = or_default dto.name p.name;
  logo_url = or_else dto.logo_url p.logo_url;
  industry = or_else dto.industry p.industry;
  country = or_else dto.country p.country;
  language = or_default dto.language p.language;
  timezone = or_default dto.timezone p.timezone;
  settings = or_else dto.settings p.settings;
}

-- `update`
unfoldable pub update_organization :
    String → ProfileUpdate → (user : String) → M MembersDb (Unit {0})
update_organization org dto user = do
  _ ← verify_admin_access org user
  write (λ d. record d {
    organizations =
        modify org (λ o. record o { profile = apply_update dto o.profile }) d.organizations;
  })

-- `getMembers`
unfoldable pub get_members : String → String → M MembersDb (List Member)
get_members org user = do
  _ ← verify_membership org user
  db ← get
  return (keep (λ m. m.organization_id == org) db.members)

-- `dto.role || 'OPERATOR'`
abbrev pub role_or_operator : Option String → String
role_or_operator none = "OPERATOR"
role_or_operator (some r) = if r == "" then "OPERATOR" else r

-- `inviteMember`
unfoldable pub invite_member :
    String → (email : String) → (role : Option String) → (invited_by : String) → M MembersDb Member
invite_member org email role invited_by = do
  _ ← verify_admin_access org invited_by
  db ← get
  user ←
      or_throw (find_user email db.users)
        (not_found "User not found. Invitation email will be sent.")
  ensure (not (is_some (find_member org user db.members))) (conflict "User is already a member")
  r ← or_throw (parse_role (role_or_operator role)) (internal "Invalid value for MemberRole")
  insert_member
      (record { organization_id = org; user_id = user; role = r; invited_by = some invited_by })
  return (record { organization_id = org; user_id = user; role = r; invited_by = some invited_by })

-- `updateMemberRole`
unfoldable pub update_member_role :
    String → (member_user : String) → (role : String) → (user : String) → M MembersDb Member
update_member_role org member_user role user = do
  _ ← verify_owner_access org user
  ensure (not (member_user == user)) (forbidden "Cannot change your own role")
  r ← or_throw (parse_role role) (internal "Invalid value for MemberRole")
  db ← get
  m ← or_throw (find_member org member_user db.members) (internal "Record to update not found")
  write (λ d. record d { members = set_role org member_user r d.members })
  return (record m { role = r })

-- `member?.role === 'OWNER'`
abbrev pub owner_row : Option Member → Bool
owner_row none = false
owner_row (some m) = is_owner m.role

-- `removeMember`
unfoldable pub remove_member :
    String → (member_user : String) → (user : String) → M MembersDb (Unit {0})
remove_member org member_user user = do
  _ ← verify_admin_access org user
  ensure (not (member_user == user)) (forbidden "Cannot remove yourself")
  db ← get
  ensure (not (owner_row (find_member org member_user db.members)))
      (forbidden "Cannot remove the owner")
  ensure (is_some (find_member org member_user db.members))
      (internal "Record to delete does not exist")
  write (λ d. record d { members = delete_member org member_user d.members })
