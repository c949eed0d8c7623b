-- ===== src/Auth/Passwords.antt =====
-- What a new password does to the sessions of the user.
use ai_business_operating_sy.Base.{
  List, Option-cases, String, arith, bad_request, eq_refl, err, find, find-modify, find-remove, inl,
  inr, modify, none, ok, refl, remove, some, subst, sym, ℕ, ◌≡◌,
}
use ai_business_operating_sy.Auth.State.{Runtime, RefreshToken, User, AuthDb, redis_get}
use ai_business_operating_sy.Auth.Service.{logout_all, reset_password, change_password}
use ai_business_operating_sy.Auth.Revoked.{logout_all-dead}
use ai_business_operating_sy.Auth.History.{Call, run, Refused, run-dead, dead-Refused}

module _ (rt : Runtime) (ttl : ℕ) where
  -- After `logout` from all sessions no refresh token that the user had is accepted again.
  pub logout_all_lem :
      (user t : String) (now : ℕ) (db : AuthDb) (r : RefreshToken)
      → find t db.refresh_tokens ≡ some r
      → r.user_id ≡ user
      → (cs : List (ℕ × Call)) → Refused rt ttl t (run rt ttl cs (logout_all rt ttl user now db).1)
  logout_all_lem user t now db r h k cs =
      dead-Refused rt ttl t _ (run-dead rt ttl t cs _ (logout_all-dead rt ttl t user now db r h k))

  -- What is there when `resetPassword` has returned.
  pub record Reset (token new_password salt : String) (now : ℕ) (db db' : AuthDb) : Type 0 where
    pub user : String
    pub was_asked : redis_get token now db.pwd_resets ≡ some user
    pub changed :
        (u : User)
        → find user db.users ≡ some u
        → find user db'.users ≡ some (record u { password_hash = rt.hash salt new_password })
    pub signed_out :
        (t : String) (r : RefreshToken)
        → find t db.refresh_tokens ≡ some r
        → r.user_id ≡ user
        → (cs : List (ℕ × Call)) → Refused rt ttl t (run rt ttl cs db')
    pub used_up :
        (password salt' : String) (later : ℕ)
        → reset_password rt ttl token password salt' later db'
          ≡ (err (bad_request "Invalid or expired token"), db')

  after_reset : (token new_password salt user : String) → AuthDb → AuthDb
  after_reset token new_password salt user db = record db {
    users = modify user (λ u. record u { password_hash = rt.hash salt new_password }) db.users;
    pwd_resets = remove token db.pwd_resets;
  }

  reset_writes :
      (token new_password salt : String) (now : ℕ) (db db' : AuthDb)
      → reset_password rt ttl token new_password salt now db ≡ (ok tt, db')
      → (user : String) × (redis_get token now db.pwd_resets ≡ some user)
        × (db' ≡ (logout_all rt ttl user now (after_reset token new_password salt user db)).1)
  unfolding reset_password after_reset
  reset_writes token new_password salt now db db' h =
      elim (Option-cases (redis_get token now db.pwd_resets)) [
        | inl none_found ↦ absurd (ground arith)
        | inr (user, found) ↦ (user, found, ground arith)
      ]

  no_entry :
      (token password salt : String) (now : ℕ) (db : AuthDb)
      → find token db.pwd_resets ≡ none
      → reset_password rt ttl token password salt now db
        ≡ (err (bad_request "Invalid or expired token"), db)
  unfolding reset_password
  no_entry token password salt now db h = rw h refl

  -- When `resetPassword` returns, the link was asked for by a user and was in time; the user has the
  -- new password, no refresh token that the user had is ever accepted again, and neither is the link.
  pub reset_password_lem :
      (token new_password salt : String) (now : ℕ) (db db' : AuthDb)
      → reset_password rt ttl token new_password salt now db ≡ (ok tt, db')
      → Reset token new_password salt now db db'
  unfolding after_reset logout_all
  reset_password_lem token new_password salt now db db' h =
      let (user, asked, e) = reset_writes token new_password salt now db db' h in
      record {
        user = user;
        was_asked = asked;
        changed = λ u k.
            subst
              (λ s.
                find user s.users ≡ some (record u { password_hash = rt.hash salt new_password }))
              (sym e)
              (rw
                (
                  find-modify user user
                      (λ w. record w { password_hash = rt.hash salt new_password }) db.users,
                  eq_refl user,
                  k,
                )
                refl);
        signed_out = λ t r k o cs.
            subst (λ s. Refused rt ttl t (run rt ttl cs s)) (sym e)
              (logout_all_lem user t now (after_reset token new_password salt user db) r k o cs);
        used_up = λ password salt' later. no_entry token password salt' later db' (
            subst (λ s. find token s.pwd_resets ≡ none) (sym e)
              (rw (find-remove token token db.pwd_resets, eq_refl token) refl));
      }

  -- `changePassword`, whether it returns or throws, leaves every refresh token as it was, so that the
  -- sessions opened with the old password go on.
  pub change_password_keeps_sessions :
      (user current new_password salt : String) (db : AuthDb)
      → (change_password rt ttl user current new_password salt db).1.refresh_tokens
        ≡ db.refresh_tokens
  unfolding change_password
  change_password_keeps_sessions user current new_password salt db = ground arith
