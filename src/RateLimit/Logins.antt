-- ===== src/RateLimit/Logins.antt =====
-- rate_limit_service.py: how many logins `check_login_rate_limit` lets pass, with Redis or without.
use raj_data_handle.Base.{
  ℕ, suc, ◌+◌, ◌-◌, ◌≤◌, ◌<◌, ◌≡◌, refl, ap, ◌⊎◌, inl, inr, String, true, false, ◌&&◌, Option, none,
  some, List, [], ◌∷◌, map, err, ltb, raise_if, login_rate_limit_exceeded,
  login_rate_limit_unavailable, ◌==◌, if◌then◌else◌, Bool-cases, arith, All,
}
use raj_data_handle.Account.{Security}
use raj_data_handle.RateLimit.{
  LimitSettings, Counter, Counters, find_counter, limit_key, check_login_rate_limit,
  development_fallback,
}
use raj_data_handle.RateLimit.Window.{is_ok, Attempt, passed, passed-bounded}

-- one call: who calls when, and what the counter in Redis answers then
pub record Login : Type 0 where
  pub client_ip : String
  pub username : String
  pub now : ℕ
  pub redis : Option ℕ

module _ (settings : LimitSettings) (security : Security) where
  abbrev pub key_of : Login → String
  key_of a = limit_key settings security a.client_ip a.username

  -- how many of the calls with that key return, one after the other
  unfoldable pub admitted : String → List Login → Counters → ℕ
  admitted key [] counters = 0
  admitted key (a ∷ logins) counters =
      let (outcome, next) =
        check_login_rate_limit settings security (λ k. a.redis) a.client_ip a.username a.now
          counters in
      let rest = admitted key logins next in
      if key_of a == key && is_ok outcome then suc rest else rest

  -- what `INCR` answers for a key that does not expire: more than before, each time
  abbrev pub Rises : String → ℕ → List Login → Type 0
  Rises key last [] = Unit
  Rises key last (a ∷ logins) =
      (n : ℕ) × (a.redis ≡ some n)
      × ((((key_of a == key) ≡ true) × (last < n) × Rises key n logins)
          ⊎ (((key_of a == key) ≡ false) × Rises key last logins))

  abbrev pub IsDown : Login → Type 0
  IsDown a = a.redis ≡ none

  abbrev pub key_time : Login → Attempt
  key_time a = (key_of a, a.now)

  -- the three ways of a call
  check-counted :
      (a : Login) (n : ℕ) (counters : Counters)
      → settings.enabled ≡ true
      → a.redis ≡ some n
      → check_login_rate_limit settings security
          (λ k. a.redis)
          a.client_ip
          a.username
          a.now
          counters
        ≡ (raise_if (ltb settings.max_attempts n) login_rate_limit_exceeded, counters)
  unfolding check_login_rate_limit
  check-counted a n counters on e = ground arith

  check-refused :
      (a : Login) (counters : Counters)
      → settings.enabled ≡ true
      → settings.is_production ≡ true
      → a.redis ≡ none
      → check_login_rate_limit settings security
          (λ k. a.redis)
          a.client_ip
          a.username
          a.now
          counters
        ≡ (err login_rate_limit_unavailable, counters)
  unfolding check_login_rate_limit
  check-refused a counters on live e = ground arith

  check-fallback :
      (a : Login) (counters : Counters)
      → settings.enabled ≡ true
      → settings.is_production ≡ false
      → a.redis ≡ none
      → check_login_rate_limit settings security
          (λ k. a.redis)
          a.client_ip
          a.username
          a.now
          counters
        ≡ development_fallback settings (key_of a) a.now counters
  unfolding check_login_rate_limit
  check-fallback a counters on live e = ground arith

  admitted-Rises :
      (key : String) (last : ℕ) (logins : List Login) (counters : Counters)
      → settings.enabled ≡ true
      → Rises key last logins
      → admitted key logins counters ≤ settings.max_attempts - last
  unfolding admitted
  admitted-Rises key last [] counters on h = omega arith
  admitted-Rises key last (a ∷ logins) counters on (n, e, inl (same, more, h)) =
      let rest = admitted-Rises key n logins counters on h in
      rw (check-counted a n counters on e) (rw same (ground (arith, more, rest)))
  admitted-Rises key last (a ∷ logins) counters on (n, e, inr (other, h)) =
      let rest = admitted-Rises key last logins counters on h in
      rw (check-counted a n counters on e) (rw other rest)

  admitted-none :
      (key : String) (logins : List Login) (counters : Counters)
      → settings.enabled ≡ true
      → settings.is_production ≡ true
      → All IsDown logins
      → admitted key logins counters ≡ 0
  unfolding admitted
  admitted-none key [] counters on live h = refl
  admitted-none key (a ∷ logins) counters on live (e, h) =
      rw (check-refused a counters on live e)
        (ground (arith, admitted-none key logins counters on live h))

  admitted-passed :
      (key : String) (logins : List Login) (counters : Counters)
      → settings.enabled ≡ true
      → settings.is_production ≡ false
      → All IsDown logins
      → admitted key logins counters ≡ passed settings key (map key_time logins) counters
  unfolding admitted passed
  admitted-passed key [] counters on live h = refl
  admitted-passed key (a ∷ logins) counters on live (e, h) =
      let next = (development_fallback settings (key_of a) a.now counters).1 in
      rw (check-fallback a counters on live e) (
        ap
          (λ n.
            if key_of a == key && is_ok (development_fallback settings (key_of a) a.now counters).0
            then suc n
            else n)
          (admitted-passed key logins next on live h))

  map-early :
      (end : ℕ) (logins : List Login)
      → All (λ (a : Login). a.now < end) logins
      → All (λ (a : Attempt). a.1 < end) (map key_time logins)
  map-early end [] h = tt
  map-early end (a ∷ logins) (p, h) = (p, map-early end logins h)

  -- However the calls with several keys follow one another while the limit is enabled, no more than
  -- `max_attempts` with the key of the first one return: if Redis answers every call, with a count
  -- that rises for the key; and if it answers none and the first call opens a window of the
  -- fallback, in which the others come.
  pub check-bounded :
      (first : Login) (logins : List Login) (counters : Counters)
      → settings.enabled ≡ true
      → Rises (key_of first) 0 (first ∷ logins)
        ⊎ (All IsDown (first ∷ logins)
            × ((c : Counter)
                → find_counter (key_of first) counters ≡ some c
                → c.expires_at ≤ first.now)
            × All (λ (a : Login). a.now < first.now + settings.window_seconds) logins)
      → admitted (key_of first) (first ∷ logins) counters ≤ settings.max_attempts
  check-bounded first logins counters on (inl h) =
      omega (arith, admitted-Rises (key_of first) 0 (first ∷ logins) counters on h)
  check-bounded first logins counters on (inr (down, over, early)) =
      elim (Bool-cases settings.is_production) [
        | inl live ↦
            rw (admitted-none (key_of first) (first ∷ logins) counters on live down) (omega arith)
        | inr not_live ↦
            rw (admitted-passed (key_of first) (first ∷ logins) counters on not_live down) (
              passed-bounded settings (key_of first) first.now (map key_time logins) counters over
                (map-early (first.now + settings.window_seconds) logins early))
      ]
