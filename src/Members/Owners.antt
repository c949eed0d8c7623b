-- ===== src/Members/Owners.antt =====
-- Histories of calls of organizations.service.ts, and the owners of an organization.
use ai_business_operating_sy.Base.{
  Bool, Bool-cases, List, Option, Option-cases, String, [], any, arith, eq_iff, false,
  if◌then◌else◌, inl, inr, refl, some, subst, sym, true, ◌&&◌, ◌==◌, ◌∙◌, ◌∷◌, ◌≡◌,
}
use ai_business_operating_sy.Tenant.Roles.{Role}
use ai_business_operating_sy.Members.State.{
  Member, Profile, MembersDb, parse_role, is_owner, has_key, find_member, set_role, delete_member,
}
use ai_business_operating_sy.Members.Service.{
  ProfileUpdate, create_organization, update_organization, invite_member, update_member_role,
  remove_member, owner_row,
}

-- Some member of the organization has the role OWNER.
abbrev pub has_owner : String → MembersDb → Bool
has_owner org db = any (λ m. m.organization_id == org && is_owner m.role) db.members

-- A call of a method by a user on an organization.
pub data Call : Type 0 where
  creates : Profile → String → Call
  updates : ProfileUpdate → Call
  invites : String → Option String → Call
  sets_role : String → String → Call
  removes : String → Call

unfoldable pub step : String → String → Call → MembersDb → MembersDb
unfolding create_organization update_organization invite_member update_member_role remove_member
step org user (creates dto slug) db = (create_organization dto user slug org db).1
step org user (updates dto) db = (update_organization org dto user db).1
step org user (invites email role) db = (invite_member org email role user db).1
step org user (sets_role member role) db = (update_member_role org member role user db).1
step org user (removes member) db = (remove_member org member user db).1

-- Calls by any users on any organizations, one after another; one that throws leaves what it wrote.
unfoldable pub run : List (String × String × Call) → MembersDb → MembersDb
unfolding step
run [] db = db
run ((org, user, c) ∷ cs) db = run cs (step org user c db)

owned : String → List Member → Bool
owned org ms = any (λ m. m.organization_id == org && is_owner m.role) ms

find_member-owned :
    (org user : String) (ms : List Member) (m : Member)
    → find_member org user ms ≡ some m
    → is_owner m.role ≡ true
    → owned org ms ≡ true
unfolding owned find_member
find_member-owned org user [] m h k = absurd (ground arith)
find_member-owned org user (n ∷ ms) m h k = elim (Bool-cases (has_key org user n)) [
  | inl here ↦ ground arith
  | inr later ↦
      let rest = find_member-owned org user ms m (sym (rw later refl) ∙ h) k in ground arith
]

-- Two keys that differ in the user are not those of one row.
other_key :
    (org user caller : String) (m : Member)
    → (user == caller) ≡ false
    → has_key org user m ≡ true
    → has_key org caller m ≡ false
other_key org user caller m d h = ground (arith, eq_iff m.user_id user)

find_member-set_role :
    (org user caller : String) (r : Role) (ms : List Member)
    → (user == caller) ≡ false
    → find_member org caller (set_role org user r ms) ≡ find_member org caller ms
unfolding set_role find_member
find_member-set_role org user caller r [] d = refl
find_member-set_role org user caller r (m ∷ ms) d = elim (Bool-cases (has_key org user m)) [
  | inl here ↦ rw (here, other_key org user caller m d here) refl
  | inr later ↦ rw (later, find_member-set_role org user caller r ms d) refl
]

set_role-elsewhere :
    (o org user : String) (r : Role) (ms : List Member)
    → (org == o) ≡ false
    → owned o (set_role org user r ms) ≡ owned o ms
unfolding owned set_role
set_role-elsewhere o org user r [] d = refl
set_role-elsewhere o org user r (m ∷ ms) d = elim (Bool-cases (has_key org user m)) [
  | inl here ↦
      let apart : (m.organization_id == o) ≡ false = ground (arith, eq_iff m.organization_id org) in
      rw (here, apart) refl
  | inr later ↦ rw (later, set_role-elsewhere o org user r ms d) refl
]

delete_member-owned :
    (o org user : String) (ms : List Member)
    → owner_row (find_member org user ms) ≡ false
    → owned o (delete_member org user ms) ≡ owned o ms
unfolding owned delete_member find_member
delete_member-owned o org user [] h = refl
delete_member-owned o org user (m ∷ ms) h = elim (Bool-cases (has_key org user m)) [
  | inl here ↦
      let plain : is_owner m.role ≡ false =
        subst (λ b. owner_row (if b then some m else find_member org user ms) ≡ false) here h in
      rw (here, plain) (ground arith)
  | inr later ↦
      let rest =
        delete_member-owned o org user ms (
          subst (λ b. owner_row (if b then some m else find_member org user ms) ≡ false) later h) in
      rw (later, rest) refl
]

set_role-owned :
    (o org user caller : String) (r : Role) (ms : List Member) (c : Member)
    → find_member org caller ms ≡ some c
    → is_owner c.role ≡ true
    → (user == caller) ≡ false
    → owned o ms ≡ true
    → owned o (set_role org user r ms) ≡ true
set_role-owned o org user caller r ms c h k d w = elim (Bool-cases (org == o)) [
  | inl same ↦
      let stays =
        find_member-owned org caller (set_role org user r ms) c
          (find_member-set_role org user caller r ms d ∙ h) k in
      subst (λ x. owned x (set_role org user r ms) ≡ true) ((eq_iff org o).0 same) stays
  | inr other ↦ set_role-elsewhere o org user r ms other ∙ w
]

Keeps : String → MembersDb → MembersDb → Type 0
Keeps o s t = owned o s.members ≡ true → owned o t.members ≡ true

create_organization-Keeps :
    (o org user slug : String) (dto : Profile) (db : MembersDb)
    → Keeps o db (create_organization dto user slug org db).1
unfolding create_organization owned Keeps
create_organization-Keeps o org user slug dto db w = ground arith

update_organization-Keeps :
    (o org user : String) (dto : ProfileUpdate) (db : MembersDb)
    → Keeps o db (update_organization org dto user db).1
unfolding update_organization owned Keeps
update_organization-Keeps o org user dto db w = ground arith

invite_member-Keeps :
    (o org user email : String) (role : Option String) (db : MembersDb)
    → Keeps o db (invite_member org email role user db).1
unfolding invite_member Keeps owned
invite_member-Keeps o org user email role db w = ground arith

update_member_role-Keeps :
    (o org user member role : String) (db : MembersDb)
    → Keeps o db (update_member_role org member role user db).1
unfolding update_member_role Keeps
update_member_role-Keeps o org user member role db w =
    elim (Option-cases (find_member org user db.members)) [
      | inl none_found ↦ ground arith
      | inr (c, found) ↦ elim (Option-cases (parse_role role)) [
        | inl bad ↦ ground arith
        | inr (r, good) ↦ ground (arith, set_role-owned o org member user r db.members c found)
      ]
    ]

remove_member-Keeps :
    (o org user member : String) (db : MembersDb) → Keeps o db (remove_member org member user db).1
unfolding remove_member Keeps
remove_member-Keeps o org user member db w =
    ground (arith, delete_member-owned o org member db.members)

step-Keeps : (o org user : String) (c : Call) (db : MembersDb) → Keeps o db (step org user c db)
unfolding step
step-Keeps o org user (creates dto slug) db = create_organization-Keeps o org user slug dto db
step-Keeps o org user (updates dto) db = update_organization-Keeps o org user dto db
step-Keeps o org user (invites email role) db = invite_member-Keeps o org user email role db
step-Keeps o org user (sets_role member role) db =
    update_member_role-Keeps o org user member role db
step-Keeps o org user (removes member) db = remove_member-Keeps o org user member db

-- Whatever calls of the methods of organizations.service.ts users make on whatever organizations, an
-- organization that has an owner still has one.
pub run-has_owner :
    (o : String) (cs : List (String × String × Call)) (db : MembersDb)
    → has_owner o db ≡ true
    → has_owner o (run cs db) ≡ true
unfolding run Keeps owned
run-has_owner o [] db w = w
run-has_owner o ((org, user, c) ∷ cs) db w =
    run-has_owner o cs (step org user c db) (step-Keeps o org user c db w)
