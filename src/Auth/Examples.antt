-- ===== src/Auth/Examples.antt =====
-- One user with one session, and the theorems of this folder on them.
use ai_business_operating_sy.Base.{
  List, [], create, find, modify, none, ok, refl, remove, some, ℕ, ◌==◌, ◌∷◌, ◌≡◌,
}
use ai_business_operating_sy.Auth.State.{Runtime, active, RefreshToken, AuthDb}
use ai_business_operating_sy.Auth.Service.{refresh_token, reset_password, change_password}
use ai_business_operating_sy.Auth.History.{
  Call, refreshes, logs_out, run, Refused, refresh_token_once,
}
use ai_business_operating_sy.Auth.Passwords.{
  Reset, reset_password_lem, change_password_keeps_sessions,
}

-- A runtime that hashes nothing
abbrev rt : Runtime
rt = record {
  to_lower_case = λ s. s;
  hash = λ salt password. password;
  compare = λ password hash. password == hash;
  sign = λ user org. user;
}

abbrev session : RefreshToken
session = record { user_id = "u"; expires_at = 100; revoked_at = none }

abbrev db : AuthDb
db = record {
  users =
      (
        "u",
        record {
          email = "u@x";
          password_hash = "old";
          first_name = "U";
          last_name = "X";
          email_verified_at = none;
          status = active;
          last_login_at = none;
        },
      )
      ∷ [];
  memberships = record { user_id = "u"; organization_id = "o"; role = "OWNER" } ∷ [];
  organizations = [];
  plans = [];
  subscriptions = [];
  refresh_tokens = ("t", session) ∷ [];
  pwd_resets = ("link", record { user_id = "u"; drops_at = 50 }) ∷ [];
  email_verifies = [];
  mails = [];
}

abbrev calls : List (ℕ × Call)
calls = (20, refreshes "t2" "t3") ∷ (30, logs_out "u" none) ∷ []

refresh_token_ok : refresh_token rt 1000 "t" "t2" 10 db ≡ (
  ok (record { access_token = "u"; refresh_token = "t2" }),
  (refresh_token rt 1000 "t" "t2" 10 db).1,
)
unfolding refresh_token find modify create
refresh_token_ok = refl

refresh_token_once_example :
    Refused rt 1000 "t" (run rt 1000 calls (refresh_token rt 1000 "t" "t2" 10 db).1)
refresh_token_once_example =
    refresh_token_once rt 1000 "t" "t2" 10 (record { access_token = "u"; refresh_token = "t2" }) db
      (refresh_token rt 1000 "t" "t2" 10 db).1 refresh_token_ok calls

session_found : find "t" db.refresh_tokens ≡ some session
unfolding find
session_found = refl

reset_password_ok :
    reset_password rt 1000 "link" "new" "salt" 40 db
    ≡ (ok tt, (reset_password rt 1000 "link" "new" "salt" 40 db).1)
unfolding reset_password find modify remove
reset_password_ok = refl

reset_password_lem_example :
    Reset rt 1000 "link" "new" "salt" 40 db (reset_password rt 1000 "link" "new" "salt" 40 db).1
reset_password_lem_example =
    reset_password_lem rt 1000 "link" "new" "salt" 40 db
      (reset_password rt 1000 "link" "new" "salt" 40 db).1 reset_password_ok

change_password_keeps_sessions_example :
    (change_password rt 1000 "u" "old" "new" "salt" db).1.refresh_tokens ≡ ("t", session) ∷ []
change_password_keeps_sessions_example =
    change_password_keeps_sessions rt 1000 "u" "old" "new" "salt" db
