-- ===== src/Members/Authority.antt =====
-- Who may change the members of an organization (organizations.service.ts).
use ai_business_operating_sy.Base.{Exception, M, err, forbidden}
use ai_business_operating_sy.Base.{
  Bool, Option, Option-cases, String, arith, eq_refl, false, inl, inr, none, some, true, ◌≡◌,
}
use ai_business_operating_sy.Tenant.Roles.{Role, owner}
use ai_business_operating_sy.Members.State.{
  MembersDb, parse_role, is_owner, is_admin, find_member, find_user,
}
use ai_business_operating_sy.Members.Service.{invite_member, update_member_role, remove_member}

-- What the membership of the user in the organization is.
abbrev pub acts_as : (Role → Bool) → String → String → MembersDb → Bool
acts_as p org user db = elim (find_member org user db.members) [ none ↦ false | some m ↦ p m.role ]

-- The call throws and writes nothing.
abbrev pub IsDenied : {A : Type 0} → M MembersDb A → MembersDb → Type 0
IsDenied m db = (e : Exception) × (m db ≡ (err e, db))

-- A user who is not an owner or admin of the organization gets an error from `inviteMember` and
-- `removeMember`, and one who is not its owner from `updateMemberRole`; nothing is written.
pub members_need_authority :
    (org user member email role : String) (r : Option String) (db : MembersDb)
    → (acts_as is_admin org user db ≡ false
        → IsDenied (invite_member org email r user) db
          × IsDenied (remove_member org member user) db)
      × (acts_as is_owner org user db ≡ false
          → IsDenied (update_member_role org member role user) db)
unfolding invite_member remove_member update_member_role
members_need_authority org user member email role r db =
    elim (Option-cases (find_member org user db.members)) [
      | inl stranger ↦
          let e = forbidden "Not a member of this organization" in
          (λ h. ((e, ground arith), (e, ground arith)), λ h. (e, ground arith))
      | inr (m, found) ↦
          let e = forbidden "Admin access required" in
          (
            λ h. ((e, ground arith), (e, ground arith)),
            λ h. (forbidden "Owner access required", ground arith),
          )
    ]

-- An admin who is no owner may make a registered user, not yet a member, an owner by `inviteMember`.
pub invite_member_makes_owner :
    (org user email id : String) (db : MembersDb)
    → acts_as is_admin org user db ≡ true
    → find_user email db.users ≡ some id
    → find_member org id db.members ≡ none
    → find_member org id (invite_member org email (some "OWNER") user db).1.members
      ≡ some (record { organization_id = org; user_id = id; role = owner; invited_by = some user })
unfolding invite_member parse_role find_member
invite_member_makes_owner org user email id db a u n =
    elim (Option-cases (find_member org user db.members)) [
      | inl stranger ↦ absurd (ground arith)
      | inr (m, found) ↦ ground (arith, eq_refl org, eq_refl id)
    ]
