-- ===== src/Account.antt =====
-- packages/domain/models/entities.py and packages/common/security.py: users, login sessions and the
-- audit log, and what the services ask of the cryptographic libraries.
mod Tests
pub mod Users
pub mod Sessions
use raj_data_handle.Base.{
  ℕ, suc, ◌+◌, ◌*◌, ◌/◌, String, Bool, true, false, not, ◌||◌, Option, none, some, List, [], ◌∷◌,
  ◌++◌, Result, ok, err, raise_if, ◌>>◌, security_validation_error, ltb, eqb, ◌==◌, if◌then◌else◌,
}
use raj_data_handle.Text.{is_empty, strip, count, utf8_length}
use raj_data_handle.Value.{Fields}

-- `AppUser`
pub record User : Type 0 where
  pub id : ℕ
  pub username : String
  pub username_normalized : String
  pub password_hash : String
  pub display_name : String
  pub role : String
  pub is_active : Bool
  pub password_changed_at : ℕ
  pub last_login_at : Option ℕ

-- `AuthSession`
pub record AuthSession : Type 0 where
  pub id : String
  pub token_hash : String
  pub user_id : ℕ
  pub expires_at : ℕ
  pub revoked_at : Option ℕ
  pub last_seen_at : Option ℕ
  pub client_ip_hash : Option String
  pub user_agent_hash : Option String

-- `SecurityAuditLog`
pub record AuditLog : Type 0 where
  pub actor_user_id : Option ℕ
  pub action : String
  pub target_type : Option String
  pub target_id : Option String
  pub result : String
  pub metadata_json : Fields

pub record Accounts : Type 0 where
  pub users : List User
  pub sessions : List AuthSession
  pub audit : List AuditLog

-- the libraries: `str.casefold`, SHA-256 in hexadecimal, bcrypt, and the tokens of `jose`
pub record Security : Type 0 where
  pub casefold : String → String
  pub sha256 : String → String
  -- `bcrypt.hashpw` with a salt of `gensalt`
  pub hashpw : (salt password : String) → String
  -- `bcrypt.checkpw`; `none` is the `ValueError` or `TypeError`
  pub checkpw : (password hash : String) → Option Bool
  pub jwt_encode : Fields → (key : String) → String
  -- `none` is the `JWTError`, which comes of another key or issuer and after the expiry
  pub jwt_decode : (token key : String) → (now : ℕ) → Option Fields

-- `validate_password`
unfoldable pub validate_password : String → Result (Unit {0})
validate_password password = do
  raise_if (ltb (count password) 10) security_validation_error
  raise_if (ltb 72 (utf8_length password)) security_validation_error

module _ (security : Security) where
  -- `normalize_username`
  unfoldable pub normalize_username : String → String
  normalize_username username = security.casefold (strip username)

  -- `hash_password`
  unfoldable pub hash_password : (salt password : String) → Result String
  hash_password salt password = do validate_password password; ok (security.hashpw salt password)

  -- `verify_password`
  unfoldable pub verify_password : (password hash : String) → Bool
  verify_password password hash = elim (security.checkpw password hash) [
    | none ↦ false
    | some b ↦ b
  ]

  -- `optional_fingerprint`
  unfoldable pub optional_fingerprint : Option String → Option String
  optional_fingerprint none = none
  optional_fingerprint (some value) =
      if is_empty (strip value) then none else some (security.sha256 (strip value))

-- the row of a user, `none` where there is none
abbrev pub find_user : ℕ → List User → Option User
find_user id [] = none
find_user id (u ∷ users) = if eqb u.id id then some u else find_user id users

abbrev pub find_username : String → List User → Option User
find_username name [] = none
find_username name (u ∷ users) =
    if u.username_normalized == name then some u else find_username name users

-- the columns that an operation sets
abbrev pub set_user : ℕ → (User → User) → List User → List User
set_user id f [] = []
set_user id f (u ∷ users) = if eqb u.id id then f u ∷ users else u ∷ set_user id f users

-- `write_audit`, in the same commit as what it is about
abbrev pub with_audit : AuditLog → Accounts → Accounts
with_audit entry s = record s { audit = s.audit ++ entry ∷ [] }
