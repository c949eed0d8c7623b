-- ===== src/Members/Invitations.antt =====
-- invitations.service.ts, but for the list. The raw statements get their values as one array, as in
-- the source, and the database client, a parameter, runs them or refuses them. Of two rows with one
-- hash the query sees the first; the hash function and the lower-casing are parameters, and the
-- mails are left out. A token and the time are arguments.
use ai_business_operating_sy.Base.{
  RawClient, array, run_raw, Bool, List, M, Option, String, [], bad_request, conflict, ensure,
  false, first, get, if◌then◌else◌, is_some, ltb, map, none, not, not_found, or_throw, return, some,
  true, write, ℕ, ◌&&◌, ◌*◌, ◌+◌, ◌==◌, ◌>>=◌, ◌>>◌, ◌∷◌,
}
use ai_business_operating_sy.Tenant.Roles.{Role}
use ai_business_operating_sy.Members.State.{
  Member, Invitation, MembersDb, find_member, find_user, set_role,
}
use ai_business_operating_sy.Members.Service.{insert_member}

abbrev pub mark : String → Invitation → Invitation
mark hash i = if i.token_hash == hash then record i { accepted = true } else i

module _ (raw : RawClient) (hash_token : String → String) where
  abbrev pub find_invitation : String → List Invitation → Option Invitation
  find_invitation token is = first (λ i. i.token_hash == hash_token token) is

  -- `accept`
  unfoldable pub accept : String → (now : ℕ) → M MembersDb Invitation
  accept token now = do
    run_raw raw 1 (array ∷ [])
    db ← get
    i ← or_throw (find_invitation token db.invitations) (not_found "Invitation not found")
    ensure (not i.accepted) (bad_request "Invitation already used")
    ensure (not (ltb i.expires_at now)) (bad_request "Invitation expired")
    return i

  -- `upsert` of the membership, with the row that is there
  abbrev pub upserted : Invitation → String → Option Member → List Member → List Member
  upserted i user (some m) ms = set_role i.organization_id user i.role ms
  upserted i user none ms =
      record {
        organization_id = i.organization_id;
        user_id = user;
        role = i.role;
        invited_by = none;
      }
      ∷ ms

  abbrev pub upsert_member : Invitation → String → MembersDb → MembersDb
  upsert_member i user d = record d {
    members = upserted i user (find_member i.organization_id user d.members) d.members;
  }

  -- `UPDATE invitations SET accepted_at = now() WHERE token_hash = $1`
  abbrev pub mark_accepted : String → MembersDb → MembersDb
  mark_accepted token d = record d { invitations = map (mark (hash_token token)) d.invitations }

  -- `finalizeAccept`
  unfoldable pub finalize_accept : String → String → (now : ℕ) → M MembersDb Invitation
  unfolding accept
  finalize_accept token user now = do
    i ← accept token now
    write (upsert_member i user)
    run_raw raw 1 (array ∷ [])
    write (mark_accepted token)
    return i

  abbrev pub invite_ttl : ℕ
  invite_ttl = 7 * 24 * 3600 * 1000

  -- `ON CONFLICT (email, organization_id) WHERE accepted_at IS NULL`
  abbrev pub is_open : (org email : String) → Invitation → Bool
  is_open org email i = (i.organization_id == org && i.email == email) && not i.accepted

  -- `INSERT INTO invitations … DO UPDATE SET token_hash, expires_at, role`
  unfoldable pub upsert_invitation : Invitation → List Invitation → List Invitation
  upsert_invitation new [] = new ∷ []
  upsert_invitation new (i ∷ is) =
      if is_open new.organization_id new.email i
      then record i { token_hash = new.token_hash; expires_at = new.expires_at; role = new.role }
        ∷ is
      else i ∷ upsert_invitation new is

  abbrev pub invitation_of :
      (org email : String)
      → Role
      → (invited_by : String) → (token : String) → (now : ℕ) → Invitation
  invitation_of org email role invited_by token now = record {
    email = email;
    organization_id = org;
    role = role;
    token_hash = hash_token token;
    invited_by = invited_by;
    expires_at = now + invite_ttl;
    accepted = false;
  }

  -- What is done for a registered user, and for another address
  abbrev pub invite_user :
      Option String → Invitation → (token : String) → M MembersDb (String × Bool)
  invite_user (some user) i token = do
    db ← get
    ensure (not (is_some (find_member i.organization_id user db.members)))
        (conflict "User is already a member")
    insert_member (record {
      organization_id = i.organization_id;
      user_id = user;
      role = i.role;
      invited_by = some i.invited_by;
    })
    return ("", true)
  invite_user none i token = do
    run_raw raw 6 (array ∷ [])
    write (λ d. record d { invitations = upsert_invitation i d.invitations })
    return (token, false)

  -- `invite`, which returns the token and whether the user exists
  unfoldable pub invite :
      (to_lower_case : String → String)
      → (org email : String) → Role
      → (invited_by : String) → (token : String) → (now : ℕ) → M MembersDb (String × Bool)
  invite to_lower_case org email role invited_by token now = do
    db ← get
    invite_user (find_user (to_lower_case email) db.users)
        (invitation_of org (to_lower_case email) role invited_by token now) token
