-- ===== src/Members/State.antt =====
-- The rows of `organizations`, `organization_members` and `users` that organizations.service.ts reads
-- and writes. The pair of organization and user is a key of a membership; a query by it sees the
-- first row, and an insertion of a second row with it is refused.
use ai_business_operating_sy.Base.{
  Bool, List, Option, String, Table, [], false, if◌then◌else◌, none, some, true, ℕ, ◌&&◌, ◌==◌, ◌∷◌,
}
use ai_business_operating_sy.Tenant.Roles.{Role, owner, admin, manager, operator, viewer}

pub record Member : Type 0 where
  pub organization_id : String
  pub user_id : String
  pub role : Role
  pub invited_by : Option String

-- The columns that an update of the organization's profile writes.
pub record Profile : Type 0 where
  pub name : String
  pub logo_url : Option String
  pub industry : Option String
  pub country : Option String
  pub language : String
  pub timezone : String
  pub settings : Option String

pub record Organization : Type 0 where
  pub slug : String
  pub profile : Profile

pub record Invitation : Type 0 where
  pub email : String
  pub organization_id : String
  pub role : Role
  pub token_hash : String
  pub invited_by : String
  pub expires_at : ℕ
  pub accepted : Bool

-- Of a user the id and the e-mail address are kept.
pub record MembersDb : Type 0 where
  pub members : List Member
  pub organizations : Table Organization
  pub users : Table String
  pub invitations : List Invitation

-- The text of a role as an enum value; another text is refused by the database client.
unfoldable pub parse_role : String → Option Role
parse_role s =
    if s == "OWNER"
    then some owner
    else if s == "ADMIN"
    then some admin
    else if s == "MANAGER"
    then some manager
    else if s == "OPERATOR"
    then some operator
    else if s == "VIEWER"
    then some viewer
    else none

abbrev pub is_owner : Role → Bool
is_owner owner = true
is_owner _ = false

-- `['OWNER', 'ADMIN'].includes(role)`
abbrev pub is_admin : Role → Bool
is_admin owner = true
is_admin admin = true
is_admin _ = false

abbrev pub has_key : String → String → Member → Bool
has_key org user m = m.organization_id == org && m.user_id == user

-- `findUnique({ where: { organizationId_userId } })`
unfoldable pub find_member : String → String → List Member → Option Member
find_member org user [] = none
find_member org user (m ∷ ms) = if has_key org user m then some m else find_member org user ms

-- `update` and `delete` with the same `where`, of a row that is there
unfoldable pub set_role : String → String → Role → List Member → List Member
set_role org user r [] = []
set_role org user r (m ∷ ms) =
    if has_key org user m then record m { role = r } ∷ ms else m ∷ set_role org user r ms

unfoldable pub delete_member : String → String → List Member → List Member
delete_member org user [] = []
delete_member org user (m ∷ ms) = if has_key org user m then ms else m ∷ delete_member org user ms

-- The first user with an e-mail address, which is a unique column.
unfoldable pub find_user : String → Table String → Option String
find_user email [] = none
find_user email ((id, e) ∷ t) = if e == email then some id else find_user email t
