-- ===== src/Account/Users/Admins.antt =====
-- auth_service.py: how many active administrators the operations on users leave.
use raj_data_handle.Base.{
  ℕ, ◌+◌, ◌≤◌, ◌≡◌, refl, String, Bool, true, false, Option, none, some, List, [], ◌∷◌, ok, arith,
  eqb, leb, ◌==◌, ◌&&◌, if◌then◌else◌, Bool-cases, inl, inr, >>=-eq-ok, ok-injective, raise_if, sym,
  ap, Exception, auth_error,
}
use raj_data_handle.Value.{Items}
use raj_data_handle.Account.{User, Accounts, Security, find_user, set_user}
use raj_data_handle.Account.Users.{
  UserChanges, active_admins, removes_admin, changed, update_user, bad_role, new_hash, found_user,
  revokes, revoke_all,
}

-- 1 for an active administrator
abbrev weight : User → ℕ
weight u = if u.role == "admin" && u.is_active then 1 else 0

-- a write to one row moves the number by that row
active_admins-set :
    (id : ℕ) (f : User → User) (users : List User) {u : User}
    → find_user id users ≡ some u
    → active_admins (set_user id f users) + weight u ≡ active_admins users + weight (f u)
unfolding active_admins
active_admins-set id f [] h = cc
active_admins-set id f (v ∷ users) {u} h = elim (Bool-cases (eqb v.id id)) [
  | inl e ↦ ground arith
  | inr e ↦ ground (arith, active_admins-set id f users {u = u})
]

-- a change that removes no administrator
kept_weight :
    (changes : UserChanges) (hash : Option String) (now : ℕ) (u : User)
    → bad_role changes.role ≡ false
    → removes_admin changes u ≡ false
    → weight u ≤ weight (changed changes hash now u)
unfolding changed
kept_weight changes hash now u b h = ground arith

-- What an update that goes through has found and stored.
pub record IsUpdate (security : Security) (id : ℕ) (changes : UserChanges) (salt : String)
    (changed_at revoked_at : ℕ) (s t : Accounts) : Type 0 where
  pub user : User
  pub found : find_user id s.users ≡ some user
  pub allowed : bad_role changes.role ≡ false
  pub kept : removes_admin changes user && leb (active_admins s.users) 1 ≡ false
  pub hash : Option String
  pub users : t.users ≡ set_user id (changed changes hash changed_at) s.users
  pub sessions :
      t.sessions ≡ (if revokes changes then revoke_all id revoked_at s.sessions else s.sessions)

found_user-some : (o : Option User) {u : User} → found_user o ≡ ok u → o ≡ some u
found_user-some none h = cc
found_user-some (some v) h = cc

raise_if-ok : (b : Bool) (e : Exception) {u : Unit {0}} → raise_if b e ≡ ok u → b ≡ false
raise_if-ok true e h = cc
raise_if-ok false e h = refl

module _ (security : Security) (shown : Items → String) (id actor : ℕ) (changes : UserChanges)
    (salt : String) (changed_at revoked_at : ℕ) (s t : Accounts) (u' : User) where
  pub update_user-IsUpdate :
      update_user security shown id actor changes salt changed_at revoked_at s ≡ ok (u', t)
      → IsUpdate security id changes salt changed_at revoked_at s t
  unfolding update_user
  update_user-IsUpdate h =
      let (u, uh, h₁) = >>=-eq-ok (found_user (find_user id s.users)) _ h in
      let (_, ah, h₂) = >>=-eq-ok (raise_if (bad_role changes.role) auth_error) _ h₁ in
      let (_, kh, h₃) =
        >>=-eq-ok (raise_if (removes_admin changes u && leb (active_admins s.users) 1) auth_error) _
          h₂ in
      let (hash, _, h₄) = >>=-eq-ok (new_hash security salt changes.password) _ h₃ in
      let stored = ok-injective h₄ in
      record {
        user = u;
        found = found_user-some _ uh;
        allowed = raise_if-ok _ auth_error ah;
        kept = raise_if-ok _ auth_error kh;
        hash = hash;
        users = sym (ap (λ (r : User × Accounts). r.1.users) stored);
        sessions = sym (ap (λ (r : User × Accounts). r.1.sessions) stored);
      }

  -- If there is an active administrator, there is still one after an update that goes through.
  pub update_user-active_admins :
      1 ≤ active_admins s.users
      → update_user security shown id actor changes salt changed_at revoked_at s ≡ ok (u', t)
      → 1 ≤ active_admins t.users
  update_user-active_admins some_admin h =
      let r = update_user-IsUpdate h in
      let moved = active_admins-set id (changed changes r.hash changed_at) s.users r.found in
      rw r.users (elim (Bool-cases (removes_admin changes r.user)) [
        | inl e ↦ ground (arith, r.kept, moved, e)
        | inr e ↦
            omega
              (arith, moved, kept_weight changes r.hash changed_at r.user r.allowed e, some_admin)
      ])
