-- ===== src/Account/Sessions/Validity.antt =====
-- auth_service.py: what `validate_session` has found when it returns.
use raj_data_handle.Base.{
  ℕ, ◌<◌, ◌≡◌, refl, ap, ◌∙◌, String, true, Option, none, some, Result, ok, err, arith, >>=-eq-ok,
  ok-injective,
}
use mathlib.Core.Path.{subst}
use raj_data_handle.Base.Int.{ℤ, pos}
use raj_data_handle.Account.{User, AuthSession, Accounts, Security, find_user}
use raj_data_handle.Account.Sessions.{
  SessionSettings, AuthContext, find_session, decoded, as_session_error, live_session, active_user,
  validate_session,
}

-- The token names a session in the store that is not revoked and has not expired, of a user who is active
pub record IsLive (security : Security) (settings : SessionSettings) (token : String)
    (decoded_at now : ℕ) (s : Accounts) (context : AuthContext) : Type 0 where
  pub secret : String
  pub row : AuthSession
  pub decodes :
      decoded (security.jwt_decode token settings.secret_key decoded_at)
      ≡ ok (pos row.user_id, secret)
  pub stored : find_session (security.sha256 secret) s.sessions ≡ some row
  pub not_revoked : row.revoked_at ≡ none
  pub not_expired : now < row.expires_at
  pub returned : context.session ≡ record row { last_seen_at = some now }
  pub expiry : context.expires_at ≡ row.expires_at
  pub user_stored : find_user row.user_id s.users ≡ some context.user
  pub active : context.user.is_active ≡ true

as_session_error-ok :
    (r : Result (ℤ × String)) {x : ℤ × String} → as_session_error r ≡ ok x → r ≡ ok x
unfolding as_session_error
as_session_error-ok (ok r) h = h
as_session_error-ok (err e) h = ground arith

live_session-ok :
    (user_id : ℤ) (now : ℕ) (o : Option AuthSession) {a : AuthSession}
    → live_session user_id now o ≡ ok a
    → (o ≡ some a) × (user_id ≡ pos a.user_id) × (a.revoked_at ≡ none) × (now < a.expires_at)
unfolding live_session
live_session-ok user_id now none h = cc
live_session-ok user_id now (some a) h = ground arith

active_user-ok :
    (o : Option User) {u : User} → active_user o ≡ ok u → (o ≡ some u) × (u.is_active ≡ true)
unfolding active_user
active_user-ok none h = cc
active_user-ok (some u) h = ground arith

module _ (security : Security) (settings : SessionSettings) where
  -- If `validate_session` returns, then the store has a session with the hash of the token's secret
  -- that is not revoked and expires later, its user is there and active, and both are returned.
  pub validate_session-IsLive :
      (token : String) (decoded_at now : ℕ) (s : Accounts) (context : AuthContext)
      → validate_session security settings token decoded_at now s ≡ ok context
      → IsLive security settings token decoded_at now s context
  unfolding validate_session
  validate_session-IsLive token decoded_at now s context h =
      let ((user_id, secret), dh, h₁) =
        >>=-eq-ok
          (as_session_error (decoded (security.jwt_decode token settings.secret_key decoded_at))) _
          h in
      let (a, ah, h₂) =
        >>=-eq-ok (live_session user_id now (find_session (security.sha256 secret) s.sessions)) _
          h₁ in
      let (u, uh, h₃) = >>=-eq-ok (active_user (find_user a.user_id s.users)) _ h₂ in
      let same = ok-injective h₃ in
      let (stored, owner, not_revoked, later) = live_session-ok user_id now _ ah in
      let (user_stored, active) = active_user-ok _ uh in
      subst (IsLive security settings token decoded_at now s) same (record {
        secret = secret;
        row = a;
        decodes = as_session_error-ok _ dh ∙ ap (λ n. ok (n, secret)) owner;
        stored = stored;
        not_revoked = not_revoked;
        not_expired = later;
        returned = refl;
        expiry = refl;
        user_stored = user_stored;
        active = active;
      })
