-- ===== src/Account/Users/Revocation.antt =====
-- auth_service.py: the sessions of a user whose role, state or password `update_user` has changed.
use raj_data_handle.Base.{
  ℕ, ◌≡◌, ◌≢◌, refl, sym, ap, ◌∙◌, String, true, none, some, List, [], ◌∷◌, ok, arith,
}
use raj_data_handle.Value.{Items}
use raj_data_handle.Account.{User, AuthSession, Accounts, Security}
use raj_data_handle.Account.Users.{UserChanges, revokes, revoke_all, update_user}
use raj_data_handle.Account.Users.Admins.{update_user-IsUpdate}
use raj_data_handle.Account.Sessions.{SessionSettings, AuthContext, find_session, validate_session}
use raj_data_handle.Account.Sessions.Validity.{validate_session-IsLive}

-- a session that `revoke_all` has passed is not one of that user's that are open
find-revoke_all :
    (id now : ℕ) (hash : String) (sessions : List AuthSession) {a : AuthSession}
    → find_session hash (revoke_all id now sessions) ≡ some a
    → a.revoked_at ≡ none
    → a.user_id ≢ id
unfolding revoke_all
find-revoke_all id now hash [] h open_still e = cc
find-revoke_all id now hash (b ∷ sessions) {a} h open_still e =
    ground (arith, find-revoke_all id now hash sessions {a = a})

module _ (security : Security) (settings : SessionSettings) (shown : Items → String) where
  -- After an update that gives a role, a state or a password and goes through, no token is a valid
  -- session of that user, whatever the time.
  pub update_user-ends_sessions :
      (id actor : ℕ) (changes : UserChanges) (salt : String) (changed_at revoked_at : ℕ)
      (s t : Accounts) (u : User) (token : String) (decoded_at now : ℕ) (context : AuthContext)
      → update_user security shown id actor changes salt changed_at revoked_at s ≡ ok (u, t)
      → revokes changes ≡ true
      → validate_session security settings token decoded_at now t ≡ ok context
      → context.session.user_id ≢ id
  update_user-ends_sessions id actor changes salt changed_at revoked_at s t u token decoded_at now
        context h r v e =
      let update =
        update_user-IsUpdate security shown id actor changes salt changed_at revoked_at s t u h in
      let live = validate_session-IsLive security settings token decoded_at now t context v in
      let sessions : t.sessions ≡ revoke_all id revoked_at s.sessions =
        update.sessions ∙ rw r refl in
      find-revoke_all id revoked_at (security.sha256 live.secret) s.sessions
        (ap (find_session (security.sha256 live.secret)) (sym sessions) ∙ live.stored)
        live.not_revoked (ap (λ (a : AuthSession). a.user_id) (sym live.returned) ∙ e)
