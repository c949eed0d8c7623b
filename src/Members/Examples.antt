-- ===== src/Members/Examples.antt =====
-- An organization of two members, and the theorems of this folder on it.
use ai_business_operating_sy.Base.{
  spreading, spreading-Spreads, List, String, [], false, none, refl, some, true, ◌∷◌, ◌≡◌,
}
use ai_business_operating_sy.Tenant.Roles.{owner, admin, operator}
use ai_business_operating_sy.Members.State.{
  Member, Invitation, MembersDb, is_admin, is_owner, find_member, find_user, parse_role, set_role,
  delete_member,
}
use ai_business_operating_sy.Members.Service.{invite_member, remove_member, update_member_role}
use ai_business_operating_sy.Members.Owners.{
  Call, invites, sets_role, removes, has_owner, run, run-has_owner,
}
use ai_business_operating_sy.Members.Authority.{
  IsDenied, acts_as, members_need_authority, invite_member_makes_owner,
}
use ai_business_operating_sy.Members.Joined.{
  InvitationCall, sends, accepts, finalizes, Joined, call_all, call_all-Joined,
}

abbrev ana : Member
ana = record { organization_id = "o"; user_id = "ana"; role = owner; invited_by = none }

abbrev ben : Member
ben = record { organization_id = "o"; user_id = "ben"; role = admin; invited_by = some "ana" }

abbrev letter : Invitation
letter = record {
  email = "cy@x";
  organization_id = "o";
  role = operator;
  token_hash = "t";
  invited_by = "ana";
  expires_at = 9;
  accepted = false;
}

abbrev db : MembersDb
db = record {
  members = ana ∷ ben ∷ [];
  organizations = [];
  users = ("ana", "ana@x") ∷ ("ben", "ben@x") ∷ ("cy", "cy@x") ∷ [];
  invitations = letter ∷ [];
}

abbrev calls : List (String × String × Call)
calls =
    ("o", "ben", invites "cy@x" (some "OWNER"))
    ∷ ("o", "cy", sets_role "ana" "VIEWER")
    ∷ ("o", "cy", removes "ana")
    ∷ ("o", "ben", removes "cy")
    ∷ []

-- An admin invites an owner, who removes the first owner.
calls-run : find_member "o" "ana" (run calls db).members ≡ none
unfolding run find_member find_user parse_role set_role delete_member
calls-run = refl

run-has_owner_example : has_owner "o" (run calls db) ≡ true
run-has_owner_example = run-has_owner "o" calls db refl

members_need_authority_example :
    (acts_as is_admin "o" "cy" db ≡ false
      → IsDenied (invite_member "o" "cy@x" none "cy") db
        × IsDenied (remove_member "o" "ben" "cy") db)
    × (acts_as is_owner "o" "cy" db ≡ false
        → IsDenied (update_member_role "o" "ben" "VIEWER" "cy") db)
members_need_authority_example = members_need_authority "o" "cy" "ben" "cy@x" "VIEWER" none db

ben_is_admin : acts_as is_admin "o" "ben" db ≡ true
unfolding find_member
ben_is_admin = refl

cy_is_no_member : find_member "o" "cy" db.members ≡ none
unfolding find_member
cy_is_no_member = refl

invite_member_makes_owner_example :
    find_member "o" "cy" (invite_member "o" "cy@x" (some "OWNER") "ben" db).1.members
    ≡ some (record { organization_id = "o"; user_id = "cy"; role = owner; invited_by = some "ben" })
unfolding find_user
invite_member_makes_owner_example =
    invite_member_makes_owner "o" "ben" "cy@x" "cy" db ben_is_admin refl cy_is_no_member

abbrev letter_calls : List InvitationCall
letter_calls =
    sends "o" "cy@x" operator "ana" "new" 7
    ∷ sends "o" "dan@x" operator "ana" "newer" 7
    ∷ accepts "t" 8
    ∷ finalizes "t" "cy" 8
    ∷ []

call_all-Joined_example : Joined db (call_all spreading (λ t. t) (λ e. e) letter_calls db)
call_all-Joined_example =
    call_all-Joined spreading (λ t. t) (λ e. e) letter_calls db spreading-Spreads
