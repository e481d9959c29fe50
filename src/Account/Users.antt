-- ===== src/Account/Users.antt =====
-- packages/domain/services/auth_service.py: `create_user` and `update_user`. An operation that raises
-- has committed nothing.
pub mod Admins
pub mod Revocation
use raj_data_handle.Base.{
  ℕ, suc, ◌+◌, String, Bool, true, false, not, ◌&&◌, ◌||◌, Option, none, some, List, [], ◌∷◌, ◌++◌,
  Result, ok, err, Exception, auth_error, security_validation_error, bind_result, raise_if, ◌>>=◌,
  ◌>>◌, is_some, leb, eqb, any_of, ◌==◌, if◌then◌else◌,
}
use raj_data_handle.Text.{is_empty, strip, str_ℕ}
use raj_data_handle.Value.{Value, text, list, Items, nil, item, Fields, end, field}
use raj_data_handle.Account.{
  User, AuthSession, AuditLog, Accounts, Security, normalize_username, hash_password, find_user,
  find_username, set_user, with_audit,
}

-- ALLOWED_ROLES
abbrev is_role : String → Bool
is_role role = role == "admin" || role == "user"

-- `except SecurityValidationError as exc: raise AuthError`
abbrev as_auth_error : {A : Type 0} → Result A → Result A
as_auth_error (err security_validation_error) = err auth_error
as_auth_error r = r

-- `display_name.strip() or username.strip()`
abbrev shown_name : (display_name username : String) → String
shown_name display_name username =
    if is_empty (strip display_name) then strip username else strip display_name

-- what `create_user` takes from outside: the id of the new row, the salt and the time
pub record NewUser : Type 0 where
  pub id : ℕ
  pub salt : String
  pub now : ℕ

abbrev user_row : NewUser → (username normalized hash display_name role : String) → User
user_row new username normalized hash display_name role = record {
  id = new.id;
  username = strip username;
  username_normalized = normalized;
  password_hash = hash;
  display_name = shown_name display_name username;
  role = role;
  is_active = true;
  password_changed_at = new.now;
  last_login_at = none;
}

abbrev user_audit : (action : String) → Option ℕ → ℕ → Fields → AuditLog
user_audit action actor id metadata = record {
  actor_user_id = actor;
  action = action;
  target_type = some "user";
  target_id = some (str_ℕ id);
  result = "success";
  metadata_json = metadata;
}

module _ (security : Security) where
  -- `create_user`
  unfoldable pub create_user :
      (username password display_name role : String)
      → (actor : Option ℕ) → NewUser
      → Accounts
      → Result (User × Accounts)
  create_user username password display_name role actor new s = do
    let normalized = normalize_username security username
    raise_if (is_empty normalized) auth_error
    raise_if (not (is_role role)) auth_error
    raise_if (is_some (find_username normalized s.users)) auth_error
    hash ← as_auth_error (hash_password security new.salt password)
    let user = user_row new username normalized hash display_name role
    ok (
      user,
      with_audit (user_audit "user.create" actor new.id (field "role" (text role) end))
          (record s { users = s.users ++ user ∷ [] }),
    )

-- how many active administrators there are
unfoldable pub active_admins : List User → ℕ
active_admins [] = 0
active_admins (u ∷ users) =
    let rest = active_admins users in if u.role == "admin" && u.is_active then suc rest else rest

-- the optional arguments of `update_user`
pub record UserChanges : Type 0 where
  pub display_name : Option String
  pub role : Option String
  pub is_active : Option Bool
  pub password : Option String

abbrev given_or {ℓ} : {A : Type ℓ} → Option A → A → A
given_or none a = a
given_or (some b) a = b

abbrev is_given_false : Option Bool → Bool
is_given_false (some false) = true
is_given_false _ = false

abbrev is_given_text : String → Option String → Bool
is_given_text s none = false
is_given_text s (some t) = t == s

abbrev bad_role : Option String → Bool
bad_role none = false
bad_role (some role) = not (is_role role)

-- `user.role == ADMIN_ROLE and (role == "user" or is_active is False)`
abbrev pub removes_admin : UserChanges → User → Bool
removes_admin changes u =
    u.role == "admin" && (is_given_text "user" changes.role || is_given_false changes.is_active)

-- `hash_password` of a password that is given
abbrev new_hash : Security → String → Option String → Result (Option String)
new_hash security salt none = ok none
new_hash security salt (some password) =
    bind_result (as_auth_error (hash_password security salt password)) λ hash. ok (some hash)

abbrev stripped_name : Option String → Option String
stripped_name none = none
stripped_name (some name) = some (strip name)

-- the columns that `update_user` sets
unfoldable pub changed : UserChanges → Option String → (now : ℕ) → User → User
changed changes hash now u = record u {
  display_name = given_or (stripped_name changes.display_name) u.display_name;
  role = given_or changes.role u.role;
  is_active = given_or changes.is_active u.is_active;
  password_hash = given_or hash u.password_hash;
  password_changed_at = if is_some hash then now else u.password_changed_at;
}

-- `{"role", "is_active", "password"} & set(changed_fields)`
abbrev pub revokes : UserChanges → Bool
revokes changes = is_some changes.role || is_some changes.is_active || is_some changes.password

-- `revoked_at` of the sessions of a user that are not revoked yet
unfoldable pub revoke_all : ℕ → (now : ℕ) → List AuthSession → List AuthSession
revoke_all id now [] = []
revoke_all id now (a ∷ sessions) =
    (if eqb a.user_id id && not (is_some a.revoked_at)
      then record a { revoked_at = some now }
      else a)
    ∷ revoke_all id now sessions

abbrev name_if : Bool → String → Items → Items
name_if true name rest = item (text name) rest
name_if false name rest = rest

-- `changed_fields`, in the order of the code
abbrev changed_fields : UserChanges → Items
changed_fields changes = name_if (is_some changes.display_name) "display_name" (
    name_if (is_some changes.role) "role" (
      name_if (is_some changes.is_active) "is_active"
        (name_if (is_some changes.password) "password" nil)))

abbrev found_user : Option User → Result User
found_user none = err auth_error
found_user (some u) = ok u

module _ (security : Security) (shown : Items → String) where
  -- `update_user` with the salt and the two readings of the clock; `shown` is the `str` of a list
  unfoldable pub update_user :
      (id actor : ℕ)
      → UserChanges
      → (salt : String) → (changed_at revoked_at : ℕ) → Accounts
      → Result (User × Accounts)
  update_user id actor changes salt changed_at revoked_at s = do
    u ← found_user (find_user id s.users)
    raise_if (bad_role changes.role) auth_error
    raise_if (removes_admin changes u && leb (active_admins s.users) 1) auth_error
    hash ← new_hash security salt changes.password
    let fields = changed_fields changes
    ok (
      changed changes hash changed_at u,
      with_audit
          (user_audit "user.update" (some actor) id
            (field "changed_fields" (list (shown fields) fields) end))
          (record s {
            users = set_user id (changed changes hash changed_at) s.users;
            sessions = if revokes changes then revoke_all id revoked_at s.sessions else s.sessions;
          }),
    )
