-- ===== src/Auth/State.antt =====
-- The rows and keys that auth.service.ts reads and writes, and the outside functions that it calls.
use ai_business_operating_sy.Base.{
  Bool, List, Option, String, Table, [], create, false, find, if◌then◌else◌, ltb, none, remove,
  some, such, true, ℕ, ◌==◌, ◌∷◌,
}

-- String.toLowerCase, bcrypt's hash (with the salt that it draws) and compare, and jwtService.sign on
-- the user and the organization.
pub record Runtime : Type 0 where
  pub to_lower_case : String → String
  pub hash : (salt password : String) → String
  pub compare : (password hash : String) → Bool
  pub sign : (user : String) → (org : Option String) → String

pub data UserStatus : Type 0 where
  active inactive suspended : UserStatus

abbrev pub is_active : UserStatus → Bool
is_active active = true
is_active _ = false

pub record User : Type 0 where
  pub email : String
  pub password_hash : String
  pub first_name : String
  pub last_name : String
  pub email_verified_at : Option ℕ
  pub status : UserStatus
  pub last_login_at : Option ℕ

-- A row of `refresh_tokens`, in a table under its unique token.
pub record RefreshToken : Type 0 where
  pub user_id : String
  pub expires_at : ℕ
  pub revoked_at : Option ℕ

pub record Membership : Type 0 where
  pub user_id : String
  pub organization_id : String
  pub role : String

pub record Organization : Type 0 where
  pub name : String
  pub slug : String

pub record Subscription : Type 0 where
  pub organization_id : String
  pub plan_id : String
  pub period_start : ℕ
  pub period_end : ℕ

-- A value in Redis with the time at which it is dropped.
pub record Entry : Type 0 where
  pub user_id : String
  pub drops_at : ℕ

-- A mail with the token of its link.
pub data Mail : Type 0 where
  password_reset email_verification : (to : String) → (token : String) → Mail

-- `pwd_resets` and `email_verifies` are the keys `pwd-reset:…` and `email-verify:…`; the memberships
-- are in the order of their creation.
pub record AuthDb : Type 0 where
  pub users : Table User
  pub memberships : List Membership
  pub organizations : Table Organization
  pub plans : Table String
  pub subscriptions : List Subscription
  pub refresh_tokens : Table RefreshToken
  pub pwd_resets : Table Entry
  pub email_verifies : Table Entry
  pub mails : List Mail

-- `user.findUnique({ where: { email } })` with the id of the row
unfoldable pub find_email : String → Table User → Option (String × User)
find_email email [] = none
find_email email ((id, u) ∷ t) = if u.email == email then some (id, u) else find_email email t

-- The id of the plan with a slug
unfoldable pub find_plan : String → Table String → Option String
find_plan slug [] = none
find_plan slug ((id, s) ∷ t) = if s == slug then some id else find_plan slug t

abbrev pub entry_user : Option Entry → Option String
entry_user none = none
entry_user (some e) = some e.user_id

-- `redis.get`
abbrev pub redis_get : String → ℕ → Table Entry → Option String
redis_get key now t = entry_user (such (λ e. ltb now e.drops_at) (find key t))

-- `redis.set` with a time to live, over an old value
abbrev pub redis_set : String → String → ℕ → Table Entry → Table Entry
redis_set key user drops_at t =
    create key (record { user_id = user; drops_at = drops_at }) (remove key t)
