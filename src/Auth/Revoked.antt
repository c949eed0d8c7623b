-- ===== src/Auth/Revoked.antt =====
-- The revoked refresh tokens of auth.service.ts, method by method.
use mathlib.Core.Option
use ai_business_operating_sy.Base.{
  Bool, Bool-cases, Option, Option-cases, String, Table, arith, create, eq_iff, false, find,
  find-create, find-modify, find-modify_where, inl, inr, is_some, modify, none, refl, remove, some,
  true, ℕ, ◌==◌, ◌≡◌,
}
use ai_business_operating_sy.Auth.State.{
  Runtime, RefreshToken, AuthDb, find_email, find_plan, redis_get,
}
use ai_business_operating_sy.Auth.Service.{
  revoke, live_of, first_membership, org_of, generate_tokens, register, login, refresh_token,
  logout_all, logout, forgot_password, reset_password, change_password, verify_email,
  resend_verification, switch_organization,
}

abbrev pub is_dead : Option RefreshToken → Bool
is_dead none = false
is_dead (some r) = is_some r.revoked_at

-- The token is stored with a date of revocation.
abbrev pub dead : String → AuthDb → Bool
dead t db = is_dead (find t db.refresh_tokens)

unfoldable pub Keeps : String → AuthDb → AuthDb → Type 0
Keeps t db db' = dead t db ≡ true → dead t db' ≡ true

modify-dead :
    (t k : String) (f : RefreshToken → RefreshToken) (rows : Table RefreshToken)
    → ((r : RefreshToken) → is_some r.revoked_at ≡ true → is_some (f r).revoked_at ≡ true)
    → is_dead (find t rows) ≡ true
    → is_dead (find t (modify k f rows)) ≡ true
modify-dead t k f rows g h = rw (find-modify t k f rows) (elim (Bool-cases (k == t)) [
  | inr other ↦ rw other h
  | inl same ↦ rw same (mapped (find t rows) h)
])
  where
    mapped : (o : Option RefreshToken) → is_dead o ≡ true → is_dead (Option.map f o) ≡ true
    mapped none k = absurd (ground arith)
    mapped (some r) k = g r k

create-dead :
    (t k : String) (r : RefreshToken) (rows : Table RefreshToken)
    → find k rows ≡ none
    → is_dead (find t rows) ≡ true
    → is_dead (find t (create k r rows)) ≡ true
create-dead t k r rows new h = rw (find-create t k r rows) (elim (Bool-cases (k == t)) [
  | inr other ↦ rw other h
  | inl same ↦ absurd (ground (arith, eq_iff k t))
])

module _ (rt : Runtime) (ttl : ℕ) where
  pub generate_tokens-Keeps :
      (t user token : String) (org : Option String) (now : ℕ) (db : AuthDb)
      → Keeps t db (generate_tokens rt ttl user org token now db).1
  unfolding generate_tokens Keeps
  generate_tokens-Keeps t user token org now db h =
      elim (Option-cases (find token db.refresh_tokens)) [
        | inr (r, found) ↦ ground arith
        | inl new ↦ rw new (create-dead t token _ db.refresh_tokens new h)
      ]

  pub logout_all-dead :
      (t user : String) (now : ℕ) (db : AuthDb) (r : RefreshToken)
      → find t db.refresh_tokens ≡ some r
      → r.user_id ≡ user
      → dead t (logout_all rt ttl user now db).1 ≡ true
  unfolding logout_all
  logout_all-dead t user now db r h k = ground (
    arith,
    find-modify_where t (live_of user) (revoke now) db.refresh_tokens,
    eq_iff r.user_id user,
  )

  pub logout_all-Keeps :
      (t user : String) (now : ℕ) (db : AuthDb) → Keeps t db (logout_all rt ttl user now db).1
  unfolding logout_all Keeps
  logout_all-Keeps t user now db h =
      ground (arith, find-modify_where t (live_of user) (revoke now) db.refresh_tokens)

  pub logout-Keeps :
      (t user refresh : String) (now : ℕ) (db : AuthDb)
      → Keeps t db (logout rt ttl user refresh now db).1
  unfolding logout Keeps
  logout-Keeps t user refresh now db h =
      modify-dead t refresh _ db.refresh_tokens (λ r k. ground arith) h

  pub refresh_token-Keeps :
      (t refresh token : String) (now : ℕ) (db : AuthDb)
      → Keeps t db (refresh_token rt ttl refresh token now db).1
  unfolding refresh_token Keeps
  refresh_token-Keeps t refresh token now db h =
      elim (Option-cases (find refresh db.refresh_tokens)) [
        | inl none_found ↦ ground arith
        | inr (r, found) ↦
            let kept = modify-dead t refresh (revoke now) db.refresh_tokens (λ r k. refl) h in
            let after : AuthDb = record db {
              refresh_tokens = modify refresh (revoke now) db.refresh_tokens;
            } in
            let last =
              generate_tokens-Keeps t r.user_id token (org_of (first_membership r.user_id db)) now
                after kept in
            ground arith
      ]

  pub login-Keeps :
      (t email password token : String) (now : ℕ) (db : AuthDb)
      → Keeps t db (login rt ttl email password token now db).1
  unfolding login Keeps
  login-Keeps t email password token now db h =
      elim (Option-cases (find_email (rt.to_lower_case email) db.users)) [
        | inl none_found ↦ ground arith
        | inr ((id, u), found) ↦ elim (Option-cases (first_membership id db)) [
          | inl no_org ↦ ground arith
          | inr (m, member) ↦
              let after : AuthDb = record db {
                users = modify id (λ u. record u { last_login_at = some now }) db.users;
              } in
              let last = generate_tokens-Keeps t id token (some m.organization_id) now after h in
              ground arith
        ]
      ]

  pub register-Keeps :
      (t email password first_name last_name org_name salt user org slug verify_token
        token : String)
      (now end : ℕ) (db : AuthDb)
      → Keeps t db
          (register rt ttl email password first_name last_name org_name salt user org slug
            verify_token token now end db).1
  unfolding register Keeps
  register-Keeps t email password first_name last_name org_name salt user org slug verify_token
        token now end db h =
      elim (Bool-cases (is_some (find_email (rt.to_lower_case email) db.users))) [
        | inl taken ↦ rw taken h
        | inr free ↦ elim (Bool-cases (is_some (find user db.users))) [
          | inl taken ↦ rw (free, taken) h
          | inr new ↦ elim (Bool-cases (is_some (find org db.organizations))) [
            | inl taken ↦ rw (free, new, taken) h
            | inr fresh ↦ elim (Option-cases (find_plan "free" db.plans)) [
              | inl p ↦
                  rw (free, new, fresh, p) (generate_tokens-Keeps t user token (some org) now _ h)
              | inr (_, p) ↦
                  rw (free, new, fresh, p) (generate_tokens-Keeps t user token (some org) now _ h)
            ]
          ]
        ]
      ]

  pub forgot_password-Keeps :
      (t email token : String) (now : ℕ) (db : AuthDb)
      → Keeps t db (forgot_password rt ttl email token now db).1
  unfolding forgot_password Keeps
  forgot_password-Keeps t email token now db h = ground arith

  pub reset_password-Keeps :
      (t token new_password salt : String) (now : ℕ) (db : AuthDb)
      → Keeps t db (reset_password rt ttl token new_password salt now db).1
  unfolding reset_password Keeps
  reset_password-Keeps t token new_password salt now db h =
      elim (Option-cases (redis_get token now db.pwd_resets)) [
        | inl none_found ↦ ground arith
        | inr (user, found) ↦ elim (Bool-cases (is_some (find user db.users))) [
          | inr gone ↦ rw (found, gone) h
          | inl there ↦ rw (found, there) (logout_all-Keeps t user now (after_reset user) h)
        ]
      ]
    where
      after_reset : String → AuthDb
      after_reset user = record db {
        users = modify user (λ u. record u { password_hash = rt.hash salt new_password }) db.users;
        pwd_resets = remove token db.pwd_resets;
      }

  pub change_password-Keeps :
      (t user current new_password salt : String) (db : AuthDb)
      → Keeps t db (change_password rt ttl user current new_password salt db).1
  unfolding change_password Keeps
  change_password-Keeps t user current new_password salt db h = ground arith

  pub verify_email-Keeps :
      (t token : String) (now : ℕ) (db : AuthDb) → Keeps t db (verify_email rt ttl token now db).1
  unfolding verify_email Keeps
  verify_email-Keeps t token now db h = ground arith

  pub resend_verification-Keeps :
      (t user token : String) (now : ℕ) (db : AuthDb)
      → Keeps t db (resend_verification rt ttl user token now db).1
  unfolding resend_verification Keeps
  resend_verification-Keeps t user token now db h = ground arith

  pub switch_organization-Keeps :
      (t user org token : String) (now : ℕ) (db : AuthDb)
      → Keeps t db (switch_organization rt ttl user org token now db).1
  unfolding switch_organization Keeps
  switch_organization-Keeps t user org token now db h =
      let last = generate_tokens-Keeps t user token (some org) now db h in ground arith
