-- ===== src/Members/Joined.antt =====
-- What any calls of invitations.service.ts leave of its tables.
use ai_business_operating_sy.Base.{
  All, All-append, List, RawClient, Spreads, String, [], array_is_refused, ap, inl, inr, is_some,
  refl, some, sym, true, ℕ, ◌++◌, ◌∙◌, ◌∷◌, ◌≡◌,
}
use mathlib.Core.List.{append_assoc}
use ai_business_operating_sy.Tenant.Roles.{Role}
use ai_business_operating_sy.Members.State.{Member, MembersDb}
use ai_business_operating_sy.Members.Invitations.{accept, finalize_accept, invite}
use ai_business_operating_sy.Members.Invite.{invite-IsInvited}

-- A call of a method, with the token and the time
pub data InvitationCall : Type 0 where
  sends : (org email : String) → Role → (invited_by token : String) → (now : ℕ) → InvitationCall
  accepts : (token : String) → (now : ℕ) → InvitationCall
  finalizes : (token user : String) → (now : ℕ) → InvitationCall

-- The invitations are the same, and each new member has been added by somebody.
pub record Joined (db db' : MembersDb) : Type 0 where
  pub same_invitations : db'.invitations ≡ db.invitations
  pub new : List Member
  pub joined : db'.members ≡ new ++ db.members
  pub by_somebody : All (λ m. is_some m.invited_by ≡ true) new

unchanged : (db db' : MembersDb) → db' ≡ db → Joined db db'
unchanged db db' e = record {
  same_invitations = ap (λ d. d.invitations) e;
  new = [];
  joined = ap (λ d. d.members) e;
  by_somebody = tt;
}

Joined-trans : (a b c : MembersDb) → Joined a b → Joined b c → Joined a c
Joined-trans a b c h k = record {
  same_invitations = k.same_invitations ∙ h.same_invitations;
  new = k.new ++ h.new;
  joined = k.joined ∙ ap (λ ms. k.new ++ ms) h.joined ∙ sym (append_assoc k.new h.new a.members);
  by_somebody =
      All-append (λ m. is_some m.invited_by ≡ true) k.new h.new k.by_somebody h.by_somebody;
}

module _ (raw : RawClient) (hash_token to_lower_case : String → String) where
  unfoldable pub call : InvitationCall → MembersDb → MembersDb
  unfolding invite accept finalize_accept
  call (sends org email role by token now) db =
      (invite raw hash_token to_lower_case org email role by token now db).1
  call (accepts token now) db = (accept raw hash_token token now db).1
  call (finalizes token user now) db = (finalize_accept raw hash_token token user now db).1

  unfoldable pub call_all : List InvitationCall → MembersDb → MembersDb
  unfolding call
  call_all [] db = db
  call_all (c ∷ cs) db = call_all cs (call c db)

  call-Joined : (c : InvitationCall) (db : MembersDb) → Spreads raw → Joined db (call c db)
  unfolding call accept finalize_accept
  call-Joined (sends org email role by token now) db spreads =
      elim (invite-IsInvited raw hash_token to_lower_case org email role by token now db spreads) [
        | inl (user, known, fresh, e) ↦ record {
          same_invitations = ap (λ r. r.1.invitations) e;
          new =
              record { organization_id = org; user_id = user; role = role; invited_by = some by }
              ∷ [];
          joined = ap (λ r. r.1.members) e;
          by_somebody = (refl, tt);
        }
        | inr (x, e, other) ↦ unchanged db _ (ap (λ r. r.1) e)
      ]
  call-Joined (accepts token now) db spreads =
      rw (call, array_is_refused raw spreads 1) (unchanged db db refl)
  call-Joined (finalizes token user now) db spreads =
      rw (call, array_is_refused raw spreads 1) (unchanged db db refl)

  -- With a client that spreads its arguments, any calls of `invite`, `accept` and `finalizeAccept` store,
  -- change and use up no invitation, and add only members that an `invite` has added: nobody joins by a token.
  pub call_all-Joined :
      (cs : List InvitationCall) (db : MembersDb) → Spreads raw → Joined db (call_all cs db)
  unfolding call_all
  call_all-Joined [] db spreads = unchanged db db refl
  call_all-Joined (c ∷ cs) db spreads =
      Joined-trans db (call c db) (call_all cs (call c db)) (call-Joined c db spreads)
        (call_all-Joined cs (call c db) spreads)
