-- ===== src/Account/Sessions/Login.antt =====
-- auth_service.py: the token that `authenticate_user` gives, under `validate_session`.
use mathlib.Core.Path.{subst, Path}
use raj_data_handle.Base.{
  ℕ, ◌<◌, ◌≡◌, ◌≢◌, refl, ap, ◌∙◌, String, true, Option, none, some, List, [], ◌∷◌, ◌++◌, Result,
  ok, err, bind_result, value_error, arith, inl, inr, eq_iff, All, All-Member, Member, ok-injective,
}
use raj_data_handle.Base.Int.{ℤ, pos}
use raj_data_handle.Text.{str_ℕ}
use raj_data_handle.Text.Digits.{read_int-str_ℕ}
use raj_data_handle.Value.{Fields, text, item_at, int_of, str_of}
use raj_data_handle.Account.{
  User, AuthSession, Accounts, Security, normalize_username, find_user, find_username, set_user,
  with_audit,
}
use raj_data_handle.Account.Sessions.{
  SessionSettings, AuthContext, LoginInputs, session_payload, find_session, logged_in, session_row,
  accepted_user, login_audit, open_session, authenticate_user, decoded, live_session, active_user,
  validate_session,
}

-- no two users have one id
abbrev pub UniqueIds : List User → Type 0
UniqueIds [] = Unit
UniqueIds (u ∷ users) = All (λ (v : User). v.id ≢ u.id) users × UniqueIds users

find_username-Member :
    (name : String) (users : List User) {u : User}
    → find_username name users ≡ some u
    → Member u users
find_username-Member name [] h = cc
find_username-Member name (v ∷ users) {u} h =
    ground (arith, find_username-Member name users {u = u})

find_user-Member :
    (users : List User) (u : User)
    → UniqueIds users
    → Member u users
    → find_user u.id users ≡ some u
find_user-Member [] u h m = absurd m
find_user-Member (v ∷ users) u (h, k) (inl e) = ground arith
find_user-Member (v ∷ users) u (h, k) (inr m) =
    let other = All-Member (λ (w : User). w.id ≢ v.id) users u h m in
    ground (arith, find_user-Member users u k m, other)

find_user-set :
    (id : ℕ) (f : User → User) (users : List User) {u : User}
    → ((v : User) → (f v).id ≡ v.id)
    → find_user id users ≡ some u
    → find_user id (set_user id f users) ≡ some (f u)
find_user-set id f [] keeps h = cc
find_user-set id f (v ∷ users) {u} keeps h =
    ground (arith, keeps v, find_user-set id f users {u = u} keeps)

find_session-append :
    (hash : String) (sessions : List AuthSession) (a : AuthSession)
    → find_session hash sessions ≡ none
    → a.token_hash ≡ hash
    → find_session hash (sessions ++ a ∷ []) ≡ some a
find_session-append hash [] a h e = ground (arith, eq_iff a.token_hash hash)
find_session-append hash (b ∷ sessions) a h e = ground (arith, find_session-append hash sessions a)

int_of-str_ℕ : (n : ℕ) → int_of (text (str_ℕ n)) ≡ ok (pos n)
unfolding int_of
int_of-str_ℕ n =
    ap (λ (r : Option ℤ). elim r as (λ _. Result ℤ) [ none ↦ err value_error | some m ↦ ok m ])
      (read_int-str_ℕ n)

decoded-payload :
    (u : User) (secret : String) (issued expires : ℕ)
    → decoded (some (session_payload u secret issued expires)) ≡ ok (pos u.id, secret)
unfolding decoded session_payload item_at str_of
decoded-payload u secret issued expires =
    ap (λ (r : Result ℤ). bind_result r λ n. ok (n, secret)) (int_of-str_ℕ u.id)

accepted-active :
    (security : Security) (settings : SessionSettings) (password : String) (o : Option User)
    {u : User}
    → accepted_user security settings password o ≡ some u
    → (o ≡ some u) × (u.is_active ≡ true)
unfolding accepted_user
accepted-active security settings password none h = cc
accepted-active security settings password (some v) h = ground arith

live_session-some :
    (n now : ℕ) (row : AuthSession)
    → row.user_id ≡ n
    → row.revoked_at ≡ none
    → now < row.expires_at
    → live_session (pos n) now (some row) ≡ ok row
unfolding live_session
live_session-some n now row o r e = ground arith

active_user-some : (u : User) → u.is_active ≡ true → active_user (some u) ≡ ok u
unfolding active_user
active_user-some u h = ground arith

pairs : {A B : Type 0} {a a' : A} {b b' : B} → a ≡ a' → b ≡ b' → Path (A × B) (a, b) (a', b')
pairs e f = cc

both-injective :
    {A B : Type 0} {x y : A × B} → Path (Result A × B) (ok x.0, x.1) (ok y.0, y.1) → x ≡ y
both-injective {A} {B} h =
    pairs (ok-injective (ap (λ (r : Result A × B). r.0) h)) (ap (λ (r : Result A × B). r.1) h)

module _ (security : Security) (settings : SessionSettings) (inputs : LoginInputs) where
  -- the session that a login opens is valid until it expires
  opened-live :
      (u : User) (row : AuthSession) (now : ℕ) (token : String) (decoded_at : ℕ) (t : Accounts)
      → decoded (security.jwt_decode token settings.secret_key decoded_at)
        ≡ ok (pos u.id, inputs.secret)
      → find_session (security.sha256 inputs.secret) t.sessions ≡ some row
      → row.user_id ≡ u.id
      → row.revoked_at ≡ none
      → now < row.expires_at
      → find_user u.id t.users ≡ some (logged_in inputs.login_now u)
      → u.is_active ≡ true
      → validate_session security settings token decoded_at now t
        ≡ ok (record {
          user = logged_in inputs.login_now u;
          session = record row { last_seen_at = some now };
          expires_at = row.expires_at;
        })
  unfolding validate_session
  opened-live u row now token decoded_at t dh sh oh rh eh uh ah = rw dh (
      rw sh (
        rw (live_session-some u.id now row oh rh eh)
          (rw oh (rw uh (rw (active_user-some (logged_in inputs.login_now u) ah) refl)))))

  module _ (ip agent : Option String) (s : Accounts) where
    abbrev Opened : Type 0
    Opened = (AuthContext × String) × Accounts

    -- what a login of that user returns and stores
    abbrev opened : User → Opened
    opened u =
        let row = session_row security settings u ip agent inputs in
        let payload = session_payload u inputs.secret inputs.token_now row.expires_at in
        (
          (
            record {
              user = logged_in inputs.login_now u;
              session = row;
              expires_at = row.expires_at;
            },
            security.jwt_encode payload settings.secret_key,
          ),
          with_audit (login_audit u) (record s {
            users = set_user u.id (logged_in inputs.login_now) s.users;
            sessions = s.sessions ++ row ∷ [];
          }),
        )

    open_session-ok :
        (o : Option User) (normalized : String) (x : Opened)
        → open_session security settings o normalized ip agent inputs s ≡ (ok x.0, x.1)
        → (u : User) × (o ≡ some u) × (opened u ≡ x)
    unfolding open_session
    open_session-ok none normalized x h =
        absurd (cc (ap (λ (r : Result (AuthContext × String) × Accounts). r.0) h))
    open_session-ok (some u) normalized x h = (u, refl, both-injective h)

    -- the payload of the token that a login returns
    abbrev pub payload_of : AuthContext → Fields
    payload_of context =
        session_payload context.user inputs.secret inputs.token_now context.expires_at

    Valid : (decoded_at now : ℕ) → Opened → Type 0
    Valid decoded_at now ((context, token), t) =
        security.jwt_decode token settings.secret_key decoded_at ≡ some (payload_of context)
        → now < context.expires_at
        → validate_session security settings token decoded_at now t
          ≡ ok (record context { session = record context.session { last_seen_at = some now } })

    opened-Valid :
        (u : User) (decoded_at now : ℕ)
        → find_user u.id s.users ≡ some u
        → u.is_active ≡ true
        → find_session (security.sha256 inputs.secret) s.sessions ≡ none
        → Valid decoded_at now (opened u)
    unfolding Valid session_row
    opened-Valid u decoded_at now found active fresh dh later =
        opened-live u (session_row security settings u ip agent inputs) now _ decoded_at
          (opened u).1
          (ap decoded dh
            ∙ decoded-payload (logged_in inputs.login_now u) inputs.secret inputs.token_now _)
          (find_session-append _ s.sessions _ fresh refl) refl refl later
          (find_user-set u.id (logged_in inputs.login_now) s.users (λ v. refl) found) active

    -- A login that goes through gives a valid session: if no two users have one id and the secret is
    -- new, then as long as the token decodes to the payload that it was made of, and until the session
    -- expires, `validate_session` returns the user and the session of the login.
    pub validate-authenticate :
        (username password : String) (context : AuthContext) (token : String) (t : Accounts)
        (decoded_at now : ℕ)
        → authenticate_user security settings username password ip agent inputs s
          ≡ (ok (context, token), t)
        → UniqueIds s.users
        → find_session (security.sha256 inputs.secret) s.sessions ≡ none
        → security.jwt_decode token settings.secret_key decoded_at ≡ some (payload_of context)
        → now < context.expires_at
        → validate_session security settings token decoded_at now t
          ≡ ok (record context { session = record context.session { last_seen_at = some now } })
    unfolding authenticate_user Valid
    validate-authenticate username password context token t decoded_at now h unique fresh =
        let name = normalize_username security username in
        let (u, oh, same) =
          open_session-ok (accepted_user security settings password (find_username name s.users))
            name ((context, token), t) h in
        let (found, active) = accepted-active security settings password _ oh in
        subst (Valid decoded_at now) same (
          opened-Valid u decoded_at now
            (find_user-Member s.users u unique (find_username-Member name s.users found)) active
            fresh)
