-- ===== src/Auth/Service.antt =====
-- The methods of auth.service.ts. The time, the salts and the random tokens are arguments, as are a
-- new row's id, the slug that `generateUniqueSlug` returned and the end of a period. Times are
-- milliseconds; `ttl` is what `parseExpiry` adds to the time.
use ai_business_operating_sy.Base.{
  Bool, M, Option, String, [], any, bad_request, conflict, create, ensure, find, first, forbidden,
  get, if◌then◌else◌, internal, is_some, ltb, modify, modify_where, none, not, not_found, or_throw,
  remove, return, some, unauthorized, write, ℕ, ◌&&◌, ◌++◌, ◌+◌, ◌==◌, ◌>>=◌, ◌>>◌, ◌∷◌,
}
use ai_business_operating_sy.Auth.State.{
  Runtime, active, is_active, User, RefreshToken, Membership, password_reset, email_verification,
  AuthDb, find_email, find_plan, redis_get, redis_set,
}

abbrev pub pwd_reset_ttl : ℕ
pwd_reset_ttl = 3600000

abbrev pub email_verify_ttl : ℕ
email_verify_ttl = 86400000

pub record Tokens : Type 0 where
  pub access_token : String
  pub refresh_token : String

abbrev pub update_user : String → (User → User) → M AuthDb (Unit {0})
update_user id f = write (λ d. record d { users = modify id f d.users })

-- `revokedAt: new Date()`, in `updateMany` on the rows with no date yet
abbrev pub revoke : ℕ → RefreshToken → RefreshToken
revoke now r = record r { revoked_at = some now }

abbrev pub live_of : String → RefreshToken → Bool
live_of user r = r.user_id == user && not (is_some r.revoked_at)

-- `membership?.organizationId` of the first membership of a user
abbrev pub first_membership : String → AuthDb → Option Membership
first_membership user db = first (λ m. m.user_id == user) db.memberships

abbrev pub org_of : Option Membership → Option String
org_of none = none
org_of (some m) = some m.organization_id

module _ (rt : Runtime) (ttl : ℕ) where
  -- `generateTokens`; the unique column refuses a token that is there.
  unfoldable pub generate_tokens :
      (user : String) → (org : Option String) → (token : String) → (now : ℕ) → M AuthDb Tokens
  generate_tokens user org token now = do
    db ← get
    ensure (not (is_some (find token db.refresh_tokens))) (internal "Unique constraint failed")
    write (λ d. record d {
      refresh_tokens =
          create token (record { user_id = user; expires_at = now + ttl; revoked_at = none })
            d.refresh_tokens;
    })
    return (record { access_token = rt.sign user org; refresh_token = token })

  -- `sendEmailVerification`
  abbrev pub send_email_verification : (user email token : String) → (now : ℕ) → M AuthDb (Unit {0})
  send_email_verification user email token now = do
    write (λ d. record d {
      email_verifies = redis_set token user (now + email_verify_ttl) d.email_verifies;
    })
    write (λ d. record d { mails = email_verification email token ∷ d.mails })

  abbrev pub new_user : (email password_hash first_name last_name : String) → User
  new_user email password_hash first_name last_name = record {
    email = email;
    password_hash = password_hash;
    first_name = first_name;
    last_name = last_name;
    email_verified_at = none;
    status = active;
    last_login_at = none;
  }

  -- The free subscription, if there is such a plan
  abbrev pub subscribe : Option String → (org : String) → (now end : ℕ) → M AuthDb (Unit {0})
  subscribe none org now end = return tt
  subscribe (some plan) org now end = write (λ d. record d {
    subscriptions =
        record { organization_id = org; plan_id = plan; period_start = now; period_end = end }
        ∷ d.subscriptions;
  })

  -- `register`; `org_name` is the trimmed name of the request or, if that is empty, the default one.
  unfoldable pub register :
      (email password first_name last_name org_name : String)
      → (salt user org slug verify_token token : String) → (now end : ℕ) → M AuthDb Tokens
  unfolding generate_tokens
  register email password first_name last_name org_name salt user org slug verify_token token now
        end =
      let address = rt.to_lower_case email in
      do
        db ← get
        ensure (not (is_some (find_email address db.users))) (conflict "Email already registered")
        ensure (not (is_some (find user db.users))) (internal "Unique constraint failed")
        write (λ d. record d {
          users =
              create user (new_user address (rt.hash salt password) first_name last_name) d.users;
        })
        ensure (not (is_some (find org db.organizations))) (internal "Unique constraint failed")
        write (λ d. record d {
          organizations = create org (record { name = org_name; slug = slug }) d.organizations;
          memberships =
              d.memberships
              ++ record { user_id = user; organization_id = org; role = "OWNER" } ∷ [];
        })
        subscribe (find_plan "free" db.plans) org now end
        send_email_verification user address verify_token now
        generate_tokens user (some org) token now

  -- `login`
  unfoldable pub login : (email password token : String) → (now : ℕ) → M AuthDb Tokens
  unfolding generate_tokens
  login email password token now = do
    db ← get
    found ←
        or_throw (find_email (rt.to_lower_case email) db.users) (unauthorized "Invalid credentials")
    ensure (rt.compare password found.1.password_hash) (unauthorized "Invalid credentials")
    ensure (is_active found.1.status) (unauthorized "Account is not active")
    m ← or_throw (first_membership found.0 db) (unauthorized "No organization found")
    update_user found.0 (λ u. record u { last_login_at = some now })
    generate_tokens found.0 (some m.organization_id) token now

  -- `refreshToken`, which rotates the token
  unfoldable pub refresh_token : (refresh : String) → (token : String) → (now : ℕ) → M AuthDb Tokens
  unfolding generate_tokens
  refresh_token refresh token now = do
    db ← get
    stored ←
        or_throw (find refresh db.refresh_tokens) (unauthorized "Invalid or expired refresh token")
    ensure (not (is_some stored.revoked_at) && not (ltb stored.expires_at now))
        (unauthorized "Invalid or expired refresh token")
    write (λ d. record d { refresh_tokens = modify refresh (revoke now) d.refresh_tokens })
    generate_tokens stored.user_id (org_of (first_membership stored.user_id db)) token now

  -- `logout` from all sessions
  unfoldable pub logout_all : (user : String) → (now : ℕ) → M AuthDb (Unit {0})
  logout_all user now =
      write (λ d. record d {
        refresh_tokens = modify_where (live_of user) (revoke now) d.refresh_tokens;
      })

  -- `logout` with a token: the row with it, if it is the user's and not revoked
  unfoldable pub logout : (user refresh : String) → (now : ℕ) → M AuthDb (Unit {0})
  logout user refresh now = write (λ d. record d {
    refresh_tokens =
        modify refresh (λ r. if live_of user r then revoke now r else r) d.refresh_tokens;
  })

  -- `forgotPassword`
  unfoldable pub forgot_password : (email token : String) → (now : ℕ) → M AuthDb (Unit {0})
  forgot_password email token now = do
    db ← get
    elim (find_email (rt.to_lower_case email) db.users) [
      | none ↦ return tt
      | some found ↦ do
        write (λ d. record d {
          pwd_resets = redis_set token found.0 (now + pwd_reset_ttl) d.pwd_resets;
        })
        write (λ d. record d { mails = password_reset found.1.email token ∷ d.mails })
    ]

  -- `resetPassword`
  unfoldable pub reset_password :
      (token new_password salt : String) → (now : ℕ) → M AuthDb (Unit {0})
  unfolding logout_all
  reset_password token new_password salt now = do
    db ← get
    user ← or_throw (redis_get token now db.pwd_resets) (bad_request "Invalid or expired token")
    ensure (is_some (find user db.users)) (internal "Record to update not found")
    update_user user (λ u. record u { password_hash = rt.hash salt new_password })
    write (λ d. record d { pwd_resets = remove token d.pwd_resets })
    logout_all user now

  -- `changePassword`
  unfoldable pub change_password : (user current new_password salt : String) → M AuthDb (Unit {0})
  change_password user current new_password salt = do
    db ← get
    u ← or_throw (find user db.users) (not_found "User not found")
    ensure (rt.compare current u.password_hash) (unauthorized "Current password is incorrect")
    update_user user (λ w. record w { password_hash = rt.hash salt new_password })

  -- `verifyEmail`
  unfoldable pub verify_email : (token : String) → (now : ℕ) → M AuthDb (Unit {0})
  verify_email token now = do
    db ← get
    user ← or_throw (redis_get token now db.email_verifies) (bad_request "Invalid or expired token")
    ensure (is_some (find user db.users)) (internal "Record to update not found")
    update_user user (λ u. record u { email_verified_at = some now })
    write (λ d. record d { email_verifies = remove token d.email_verifies })

  -- `resendVerification`
  unfoldable pub resend_verification : (user token : String) → (now : ℕ) → M AuthDb (Unit {0})
  resend_verification user token now = do
    db ← get
    u ← or_throw (find user db.users) (not_found "User not found")
    ensure (not (is_some u.email_verified_at)) (bad_request "Email already verified")
    send_email_verification user u.email token now

  -- `switchOrganization`
  unfoldable pub switch_organization : (user org token : String) → (now : ℕ) → M AuthDb Tokens
  unfolding generate_tokens
  switch_organization user org token now = do
    db ← get
    ensure (any (λ m. m.organization_id == org && m.user_id == user) db.memberships)
        (forbidden "Not a member of this organization")
    generate_tokens user (some org) token now
