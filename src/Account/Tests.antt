-- ===== src/Account/Tests.antt =====
-- auth_service.py at a store with an administrator and a user.
use raj_data_handle.Base.{
  ◌≡◌, ◌≢◌, ◌≤◌, refl, String, true, none, some, [], ◌∷◌, ok, err, auth_error,
  security_validation_error, arith,
}
use raj_data_handle.Value.{Items, Fields, item_at, int_of, str_of}
use raj_data_handle.Text.{str_ℕ, read_int, count, utf8_length, strip}
use raj_data_handle.Account.{
  User, AuthSession, Accounts, Security, validate_password, normalize_username, verify_password,
  optional_fingerprint,
}
use raj_data_handle.Account.Users.{
  UserChanges, create_user, update_user, active_admins, changed, revoke_all,
}
use raj_data_handle.Account.Users.Admins.{update_user-active_admins}
use raj_data_handle.Account.Users.Revocation.{update_user-ends_sessions}
use raj_data_handle.Account.Sessions.{
  SessionSettings, AuthContext, LoginInputs, authenticate_user, validate_session, session_payload,
  accepted_user, session_row, session_expiry, live_session, active_user,
}
use raj_data_handle.Account.Sessions.Validity.{IsLive, validate_session-IsLive}
use raj_data_handle.Account.Sessions.Login.{UniqueIds, validate-authenticate}

abbrev user_with : (role : String) → User
user_with role = record {
  id = 1;
  username = "ada";
  username_normalized = "ada";
  password_hash = "h";
  display_name = "Ada";
  role = role;
  is_active = true;
  password_changed_at = 0;
  last_login_at = none;
}

abbrev second_admin : User
second_admin = record (user_with "admin") {
  id = 2;
  username = "bob";
  username_normalized = "bob";
  display_name = "Bob";
}

abbrev settings : SessionSettings
settings = record { secret_key = "key"; session_ttl_minutes = 1 }

abbrev inputs : LoginInputs
inputs = record { secret = "sid"; session_id = "s1"; expiry_now = 0; login_now = 1; token_now = 2 }

abbrev payload : Fields
payload = session_payload (user_with "admin") "sid" 2 60000000

abbrev security : Security
security = record {
  casefold = λ s. s;
  sha256 = λ s. s;
  hashpw = λ salt password. "h2";
  checkpw = λ password hash. some true;
  jwt_encode = λ fields key. "token";
  jwt_decode = λ token key now. some payload;
}

abbrev shown : Items → String
shown fields = "[]"

abbrev before : Accounts
before = record { users = user_with "admin" ∷ second_admin ∷ []; sessions = []; audit = [] }

abbrev demotion : UserChanges
demotion = record { display_name = none; role = some "user"; is_active = none; password = none }

abbrev session : AuthSession
session = record {
  id = "s1";
  token_hash = "sid";
  user_id = 1;
  expires_at = 60000000;
  revoked_at = none;
  last_seen_at = none;
  client_ip_hash = none;
  user_agent_hash = none;
}

abbrev open_store : Accounts
open_store = record before { sessions = session ∷ [] }

abbrev after_update : UserChanges → Accounts
unfolding update_user
after_update changes = elim (update_user security shown 1 2 changes "salt" 5 6 open_store) [
  | err e ↦ before
  | ok r ↦ r.1
]

abbrev first_user : Accounts → User
first_user s = elim s.users [ [] ↦ second_admin | (u ∷ _) ↦ u ]

abbrev after_login : Accounts
unfolding authenticate_user
after_login = (authenticate_user security settings " ada " "password12" none none inputs before).1

abbrev context : AuthContext
context = record {
  user = record (user_with "admin") { last_login_at = some 1 };
  session = session;
  expires_at = 60000000;
}

abbrev renamed : UserChanges
renamed = record { display_name = some " A "; role = none; is_active = none; password = none }

short_password : validate_password "ninechars" ≡ err security_validation_error
unfolding validate_password count
short_password = refl

long_enough : validate_password "tenletters" ≡ ok tt
unfolding validate_password count utf8_length
long_enough = refl

login_ok :
    authenticate_user security settings " ada " "password12" none none inputs before
    ≡ (ok (context, "token"), after_login)
unfolding authenticate_user accepted_user normalize_username strip verify_password session_row
    session_expiry optional_fingerprint
login_ok = refl

demotion_ok :
    update_user security shown 1 2 demotion "salt" 5 6 open_store
    ≡ ok (first_user (after_update demotion), after_update demotion)
unfolding update_user active_admins
demotion_ok = refl

last_admin_stays :
    update_user security shown 1 2 demotion "salt" 5 6
      (record before { users = user_with "admin" ∷ [] })
    ≡ err auth_error
unfolding update_user active_admins
last_admin_stays = refl

role_checked :
    create_user security "Eve" "password12" "" "root" none
      (record { id = 3; salt = ""; now = 0 })
      before
    ≡ err auth_error
unfolding create_user normalize_username strip
role_checked = refl

two_admins : 1 ≤ active_admins open_store.users
unfolding active_admins
two_admins = omega arith

update_user-active_admins_example : 1 ≤ active_admins (after_update demotion).users
update_user-active_admins_example =
    update_user-active_admins security shown 1 2 demotion "salt" 5 6 open_store
      (after_update demotion) (first_user (after_update demotion)) two_admins demotion_ok

validate_ok :
    validate_session security settings "token" 3 4 open_store
    ≡ ok (record {
      user = user_with "admin";
      session = record session { last_seen_at = some 4 };
      expires_at = 60000000;
    })
unfolding validate_session item_at session_payload int_of read_int str_ℕ live_session str_of
    active_user
validate_ok = refl

validate_session-IsLive_example : IsLive security settings "token" 3 4 open_store (record {
  user = user_with "admin";
  session = record session { last_seen_at = some 4 };
  expires_at = 60000000;
})
validate_session-IsLive_example =
    validate_session-IsLive security settings "token" 3 4 open_store _ validate_ok

abbrev after_other : Accounts
unfolding update_user
after_other = elim (update_user security shown 2 1 demotion "salt" 5 6 open_store) [
  | err e ↦ before
  | ok r ↦ r.1
]

abbrev demoted_other : User
demoted_other = record second_admin { role = "user" }

other_demoted :
    update_user security shown 2 1 demotion "salt" 5 6 open_store ≡ ok (demoted_other, after_other)
unfolding update_user active_admins changed
other_demoted = refl

still_valid :
    validate_session security settings "token" 3 4 after_other
    ≡ ok (record {
      user = user_with "admin";
      session = record session { last_seen_at = some 4 };
      expires_at = 60000000;
    })
unfolding validate_session item_at session_payload int_of read_int str_ℕ live_session after_other
    active_admins revoke_all str_of active_user
still_valid = refl

update_user-ends_sessions_example : session.user_id ≢ 2
update_user-ends_sessions_example =
    update_user-ends_sessions security settings shown 2 1 demotion "salt" 5 6 open_store after_other
      demoted_other "token" 3 4 _ other_demoted refl still_valid

distinct : UniqueIds before.users
distinct = ((ground arith, tt), (tt, tt))

validate-authenticate_example :
    validate_session security settings "token" 3 4 after_login
    ≡ ok (record context { session = record session { last_seen_at = some 4 } })
unfolding session_payload
validate-authenticate_example =
    validate-authenticate security settings inputs none none before " ada " "password12" context
      "token" after_login 3 4 login_ok distinct refl refl (ground arith)
