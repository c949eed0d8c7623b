-- ===== src/Auth/History.antt =====
-- Histories of calls of the auth service, and the refresh tokens that they leave without effect.
use ai_business_operating_sy.Base.{
  List, Option, Option-cases, String, [], arith, eq_refl, err, find, find-modify, first, inl, inr,
  modify, none, ok, refl, some, true, unauthorized, ℕ, ◌∷◌, ◌≡◌,
}
use ai_business_operating_sy.Auth.State.{Runtime, AuthDb}
use ai_business_operating_sy.Auth.Service.{
  Tokens, revoke, first_membership, org_of, register, login, refresh_token, logout_all, logout,
  forgot_password, reset_password, change_password, verify_email, resend_verification,
  switch_organization,
}
use ai_business_operating_sy.Auth.Revoked.{
  dead, Keeps, generate_tokens-Keeps, register-Keeps, login-Keeps, refresh_token-Keeps,
  logout_all-Keeps, logout-Keeps, forgot_password-Keeps, reset_password-Keeps,
  change_password-Keeps, verify_email-Keeps, resend_verification-Keeps, switch_organization-Keeps,
}

-- A call of a method with its arguments, the new token last.
pub data Call : Type 0 where
  registers :
      (email password first_name last_name org_name salt user org slug verify_token : String)
      → (end : ℕ) → (token : String) → Call
  logs_in : (email password token : String) → Call
  refreshes : (refresh token : String) → Call
  logs_out : (user : String) → (refresh : Option String) → Call
  forgets : (email token : String) → Call
  resets : (token new_password salt : String) → Call
  changes : (user current new_password salt : String) → Call
  verifies : (token : String) → Call
  resends : (user token : String) → Call
  switches : (user org token : String) → Call

module _ (rt : Runtime) (ttl : ℕ) where
  unfoldable pub step : ℕ → Call → AuthDb → AuthDb
  unfolding register login refresh_token logout_all logout forgot_password reset_password
      change_password verify_email resend_verification switch_organization
  step now (registers email password first last org_name salt user org slug verify_token end token)
        db =
      (register rt ttl email password first last org_name salt user org slug verify_token token now
        end db).1
  step now (logs_in email password token) db = (login rt ttl email password token now db).1
  step now (refreshes refresh token) db = (refresh_token rt ttl refresh token now db).1
  step now (logs_out user none) db = (logout_all rt ttl user now db).1
  step now (logs_out user (some refresh)) db = (logout rt ttl user refresh now db).1
  step now (forgets email token) db = (forgot_password rt ttl email token now db).1
  step now (resets token new_password salt) db =
      (reset_password rt ttl token new_password salt now db).1
  step now (changes user current new_password salt) db =
      (change_password rt ttl user current new_password salt db).1
  step now (verifies token) db = (verify_email rt ttl token now db).1
  step now (resends user token) db = (resend_verification rt ttl user token now db).1
  step now (switches user org token) db = (switch_organization rt ttl user org token now db).1

  -- The calls of all users with their times, in the order in which the database meets them.
  unfoldable pub run : List (ℕ × Call) → AuthDb → AuthDb
  unfolding step
  run [] db = db
  run ((now, c) ∷ cs) db = run cs (step now c db)

  step-Keeps : (t : String) (now : ℕ) (c : Call) (db : AuthDb) → Keeps t db (step now c db)
  unfolding step
  step-Keeps t now
        (registers email password first last org_name salt user org slug verify_token end token)
        db =
      register-Keeps rt ttl t email password first last org_name salt user org slug verify_token
        token now end db
  step-Keeps t now (logs_in email password token) db =
      login-Keeps rt ttl t email password token now db
  step-Keeps t now (refreshes refresh token) db = refresh_token-Keeps rt ttl t refresh token now db
  step-Keeps t now (logs_out user none) db = logout_all-Keeps rt ttl t user now db
  step-Keeps t now (logs_out user (some refresh)) db = logout-Keeps rt ttl t user refresh now db
  step-Keeps t now (forgets email token) db = forgot_password-Keeps rt ttl t email token now db
  step-Keeps t now (resets token new_password salt) db =
      reset_password-Keeps rt ttl t token new_password salt now db
  step-Keeps t now (changes user current new_password salt) db =
      change_password-Keeps rt ttl t user current new_password salt db
  step-Keeps t now (verifies token) db = verify_email-Keeps rt ttl t token now db
  step-Keeps t now (resends user token) db = resend_verification-Keeps rt ttl t user token now db
  step-Keeps t now (switches user org token) db =
      switch_organization-Keeps rt ttl t user org token now db

  pub run-dead :
      (t : String) (cs : List (ℕ × Call)) (db : AuthDb)
      → dead t db ≡ true
      → dead t (run cs db) ≡ true
  unfolding run Keeps
  run-dead t [] db h = h
  run-dead t ((now, c) ∷ cs) db h = run-dead t cs (step now c db) (step-Keeps t now c db h)

  -- `refreshToken` refuses the token and writes nothing.
  abbrev pub Refused : String → AuthDb → Type 0
  Refused t db =
      (token : String) (now : ℕ)
      → refresh_token rt ttl t token now db
        ≡ (err (unauthorized "Invalid or expired refresh token"), db)

  pub dead-Refused : (t : String) (db : AuthDb) → dead t db ≡ true → Refused t db
  unfolding refresh_token
  dead-Refused t db h token now = elim (Option-cases (find t db.refresh_tokens)) [
    | inl none_found ↦ absurd (ground arith)
    | inr (r, found) ↦ ground arith
  ]

  rotated :
      (t token : String) (now : ℕ) (ts : Tokens) (db db' : AuthDb)
      → refresh_token rt ttl t token now db ≡ (ok ts, db')
      → dead t db' ≡ true
  unfolding refresh_token Keeps
  rotated t token now ts db db' h = elim (Option-cases (find t db.refresh_tokens)) [
    | inl none_found ↦ absurd (ground arith)
    | inr (r, found) ↦
        let after : AuthDb = record db {
          refresh_tokens = modify t (revoke now) db.refresh_tokens;
        } in
        let now_dead : dead t after ≡ true =
          rw (find-modify t t (revoke now) db.refresh_tokens, eq_refl t, found) refl in
        let last =
          generate_tokens-Keeps rt ttl t r.user_id token (org_of (first_membership r.user_id db))
            now after now_dead in
        ground arith
  ]

  -- A refresh token is good once: after `refreshToken` has returned new tokens for it, it is refused
  -- whatever calls are made in between, and at any time.
  pub refresh_token_once :
      (t token : String) (now : ℕ) (ts : Tokens) (db db' : AuthDb)
      → refresh_token rt ttl t token now db ≡ (ok ts, db')
      → (cs : List (ℕ × Call)) → Refused t (run cs db')
  refresh_token_once t token now ts db db' h cs =
      dead-Refused t (run cs db') (run-dead t cs db' (rotated t token now ts db db' h))
