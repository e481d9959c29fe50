-- ===== src/Account/Sessions.antt =====
-- packages/domain/services/auth_service.py: `authenticate_user`, `validate_session` and
-- `revoke_session`. Times are in microseconds.
pub mod Validity
pub mod Login
use raj_data_handle.Base.{
  ℕ, suc, ◌+◌, ◌*◌, ◌/◌, String, Bool, true, false, not, ◌&&◌, ◌||◌, Option, none, some, List, [],
  ◌∷◌, ◌++◌, Result, ok, err, Exception, auth_error, security_validation_error, key_error,
  is_value_error, bind_result, raise_if, ◌>>=◌, ◌>>◌, is_some, is_key_error, type_error, leb, eqb,
  ◌==◌, if◌then◌else◌,
}
use raj_data_handle.Base.Int.{ℤ, pos, eqb_ℤ}
use raj_data_handle.Text.{is_empty, strip, str_ℕ}
use raj_data_handle.Value.{Value, text, int, Fields, end, field, item_at, int_of, str_of}
use raj_data_handle.Account.{
  User, AuthSession, AuditLog, Accounts, Security, normalize_username, verify_password,
  optional_fingerprint, find_user, find_username, set_user, with_audit,
}

-- `Settings`, in what the sessions take from it
pub record SessionSettings : Type 0 where
  pub secret_key : String
  pub session_ttl_minutes : ℕ

pub record AuthContext : Type 0 where
  pub user : User
  pub session : AuthSession
  pub expires_at : ℕ

-- what a login takes from outside: the new secret and session id, and the readings of the clock
pub record LoginInputs : Type 0 where
  pub secret : String
  pub session_id : String
  pub expiry_now : ℕ
  pub login_now : ℕ
  pub token_now : ℕ

-- `int(t.timestamp())`
abbrev pub timestamp : ℕ → ℕ
timestamp t = t / 1000000

-- `session_expiry`
unfoldable pub session_expiry : SessionSettings → ℕ → ℕ
session_expiry settings now = now + settings.session_ttl_minutes * 60000000

-- the payload of `create_session_jwt`
unfoldable pub session_payload : User → (secret : String) → (issued expires : ℕ) → Fields
session_payload user secret issued expires = field "sub" (text (str_ℕ user.id)) (
    field "role" (text user.role) (
      field "sid" (text secret) (
        field "iss" (text "raj-data-handle") (
          field "iat" (int (pos (timestamp issued)))
            (field "exp" (int (pos (timestamp expires))) end)))))

-- the row of a session by the hash of its secret
abbrev pub find_session : String → List AuthSession → Option AuthSession
find_session hash [] = none
find_session hash (a ∷ sessions) =
    if a.token_hash == hash then some a else find_session hash sessions

abbrev failed_login : (name_hash : String) → AuditLog
failed_login name_hash = record {
  actor_user_id = none;
  action = "login";
  target_type = none;
  target_id = none;
  result = "failure";
  metadata_json = field "username_hash" (text name_hash) end;
}

abbrev login_audit : User → AuditLog
login_audit user = record {
  actor_user_id = some user.id;
  action = "login";
  target_type = some "user";
  target_id = some (str_ℕ user.id);
  result = "success";
  metadata_json = end;
}

abbrev logged_in : ℕ → User → User
logged_in now u = record u { last_login_at = some now }

-- `int(payload["sub"])` and `str(payload["sid"])`
unfoldable pub decoded : Option Fields → Result (ℤ × String)
decoded none = err security_validation_error
decoded (some payload) = do
  user_id ← bind_result (item_at "sub" payload) int_of
  secret ← item_at "sid" payload
  ok (user_id, str_of secret)

-- `except (SecurityValidationError, KeyError, TypeError, ValueError)`
as_session_error : Result (ℤ × String) → Result (ℤ × String)
as_session_error (ok r) = ok r
as_session_error (err type_error) = err auth_error
as_session_error (err e) = if is_value_error e || is_key_error e then err auth_error else err e

-- the row of a session that belongs to the user, is not revoked and has not expired
unfoldable pub live_session : ℤ → (now : ℕ) → Option AuthSession → Result AuthSession
live_session user_id now none = err auth_error
live_session user_id now (some a) =
    if not (eqb_ℤ (pos a.user_id) user_id) || is_some a.revoked_at || leb a.expires_at now
    then err auth_error
    else ok a

unfoldable pub active_user : Option User → Result User
active_user none = err auth_error
active_user (some u) = if u.is_active then ok u else err auth_error

module _ (security : Security) (settings : SessionSettings) where
  unfoldable pub session_row : User → (ip agent : Option String) → LoginInputs → AuthSession
  session_row user ip agent inputs = record {
    id = inputs.session_id;
    token_hash = security.sha256 inputs.secret;
    user_id = user.id;
    expires_at = session_expiry settings inputs.expiry_now;
    revoked_at = none;
    last_seen_at = none;
    client_ip_hash = optional_fingerprint security ip;
    user_agent_hash = optional_fingerprint security agent;
  }

  -- a user that is there, active, and has the password
  unfoldable pub accepted_user : String → Option User → Option User
  accepted_user password none = none
  accepted_user password (some u) =
      if u.is_active && verify_password security password u.password_hash then some u else none

  open_session :
      Option User
      → (normalized : String) → (ip agent : Option String) → LoginInputs
      → Accounts
      → Result (AuthContext × String) × Accounts
  open_session none normalized ip agent inputs s =
      (err auth_error, with_audit (failed_login (security.sha256 normalized)) s)
  open_session (some user) normalized ip agent inputs s =
      let row = session_row user ip agent inputs in
      let payload = session_payload user inputs.secret inputs.token_now row.expires_at in
      (
        ok (
          record {
            user = logged_in inputs.login_now user;
            session = row;
            expires_at = row.expires_at;
          },
          security.jwt_encode payload settings.secret_key,
        ),
        with_audit (login_audit user) (record s {
          users = set_user user.id (logged_in inputs.login_now) s.users;
          sessions = s.sessions ++ row ∷ [];
        }),
      )

  -- `authenticate_user`; a login that fails commits its log entry before it raises
  unfoldable pub authenticate_user :
      (username password : String)
      → (ip agent : Option String) → LoginInputs
      → Accounts
      → Result (AuthContext × String) × Accounts
  unfolding open_session
  authenticate_user username password ip agent inputs s =
      let normalized = normalize_username security username in
      open_session (accepted_user password (find_username normalized s.users)) normalized ip agent
        inputs s

  -- `validate_session`: the decoding and the check read the clock once each; `last_seen_at` is set on
  -- the row that is returned, and is committed by whoever commits next
  unfoldable pub validate_session :
      (token : String) → (decoded_at now : ℕ) → Accounts → Result AuthContext
  unfolding decoded as_session_error
  validate_session token decoded_at now s = do
    (user_id, secret) ←
        as_session_error (decoded (security.jwt_decode token settings.secret_key decoded_at))
    a ← live_session user_id now (find_session (security.sha256 secret) s.sessions)
    u ← active_user (find_user a.user_id s.users)
    ok (record {
      user = u;
      session = record a { last_seen_at = some now };
      expires_at = a.expires_at;
    })

-- the row of a session by its id
abbrev set_session : String → (AuthSession → AuthSession) → List AuthSession → List AuthSession
set_session id f [] = []
set_session id f (a ∷ sessions) =
    if a.id == id then f a ∷ sessions else a ∷ set_session id f sessions

-- `if auth_session.revoked_at is None: auth_session.revoked_at = now`
unfoldable pub revoked : ℕ → AuthSession → AuthSession
revoked now a = if is_some a.revoked_at then a else record a { revoked_at = some now }

-- `revoke_session`, with the row that the caller holds
unfoldable pub revoke_session : AuthSession → (actor now : ℕ) → Accounts → AuthSession × Accounts
revoke_session a actor now s = (
  revoked now a,
  with_audit
      (record {
        actor_user_id = some actor;
        action = "logout";
        target_type = some "session";
        target_id = some a.id;
        result = "success";
        metadata_json = end;
      })
      (record s { sessions = set_session a.id (revoked now) s.sessions }),
)
