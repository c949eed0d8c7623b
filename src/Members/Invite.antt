-- ===== src/Members/Invite.antt =====
-- What `invite` of invitations.service.ts does, whose raw statement gets its values as one array.
use ai_business_operating_sy.Base.{
  Bool, Exception, Option-cases, RawClient, Result, Spreads, String, array_is_refused, err, inl,
  inr, is_some, none, ok, refl, some, true, ℕ, ◌∷◌, ◌≡◌, ◌⊎◌,
}
use ai_business_operating_sy.Tenant.Roles.{Role}
use ai_business_operating_sy.Members.State.{Member, MembersDb, find_member, find_user}
use ai_business_operating_sy.Members.Invitations.{invite}

-- The membership that an invitation of a registered user is
abbrev pub invited : (org user : String) → Role → (invited_by : String) → Member
invited org user role invited_by = record {
  organization_id = org;
  user_id = user;
  role = role;
  invited_by = some invited_by;
}

-- The outcomes of an invitation: a registered user who is no member is one, or an error and nothing else.
abbrev pub IsInvited :
    (org email : String)
    → Role
    → (invited_by : String) → (db : MembersDb) → Result (String × Bool) × MembersDb
    → Type 0
IsInvited org email role invited_by db r =
    ((user : String) × (find_user email db.users ≡ some user)
      × (find_member org user db.members ≡ none)
      × (r
          ≡ (ok ("", true), record db { members = invited org user role invited_by ∷ db.members })))
    ⊎ ((e : Exception) × (r ≡ (err e, db))
        × ((user : String)
            → find_user email db.users ≡ some user
            → is_some (find_member org user db.members) ≡ true))

module _ (raw : RawClient) (hash_token : String → String) where
  pub invite-IsInvited :
      (to_lower_case : String → String) (org email : String) (role : Role)
      (invited_by token : String) (now : ℕ) (db : MembersDb)
      → Spreads raw
      → IsInvited org
          (to_lower_case email)
          role
          invited_by
          db
          (invite raw hash_token to_lower_case org email role invited_by token now db)
  unfolding invite
  invite-IsInvited to_lower_case org email role invited_by token now db spreads =
      elim (Option-cases (find_user (to_lower_case email) db.users)) [
        | inl unknown ↦ rw (unknown, array_is_refused raw spreads 6) (inr (_, refl, λ u e. cc))
        | inr (user, known) ↦ elim (Option-cases (find_member org user db.members)) [
          | inl new ↦ rw (known, new, new) (inl (user, refl, new, refl))
          | inr (m, old) ↦ rw (known, old) (inr (_, refl, λ u e. cc))
        ]
      ]
