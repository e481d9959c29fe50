-- ===== src/RateLimit.antt =====
-- packages/domain/services/rate_limit_service.py: the limit on login attempts. Times are in seconds of the
-- monotonic clock.
pub mod Window
pub mod Logins
mod Tests
use Prim.Native.String
use raj_data_handle.Base.{
  ℕ, suc, ◌+◌, String, Bool, true, false, Option, none, some, List, [], ◌∷◌, Result, ok, err,
  login_rate_limit_exceeded, login_rate_limit_unavailable, ltb, leb, ◌==◌, if◌then◌else◌, raise_if,
}
use raj_data_handle.Text.{strip}
use raj_data_handle.Account.{Security}

-- `Settings`, in what the limit takes from it
pub record LimitSettings : Type 0 where
  pub enabled : Bool
  pub window_seconds : ℕ
  pub max_attempts : ℕ
  pub is_production : Bool

pub record Counter : Type 0 where
  pub count : ℕ
  pub expires_at : ℕ

-- `_fallback_counters`
abbrev pub Counters : Type 0
Counters = List (String × Counter)

abbrev pub find_counter : String → Counters → Option Counter
find_counter key [] = none
find_counter key ((k, c) ∷ counters) = if k == key then some c else find_counter key counters

abbrev pub put_counter : String → Counter → Counters → Counters
put_counter key c [] = (key, c) ∷ []
put_counter key c ((k, d) ∷ counters) =
    if k == key then (k, c) ∷ counters else (k, d) ∷ put_counter key c counters

module _ (settings : LimitSettings) where
  -- `get` with its default, and the start of a new window
  unfoldable pub current : ℕ → Option Counter → Counter
  current now none = record { count = 0; expires_at = now + settings.window_seconds }
  current now (some c) =
      if leb c.expires_at now
      then record { count = 0; expires_at = now + settings.window_seconds }
      else c

  unfoldable pub counter_after : ℕ → Option Counter → Counter
  unfolding current
  counter_after now o = let c = current now o in record c { count = c.count + 1 }

  -- `_development_fallback`, under its lock
  unfoldable pub development_fallback :
      (key : String) → (now : ℕ) → Counters → Result (Unit {0}) × Counters
  development_fallback key now counters =
      let c = counter_after now (find_counter key counters) in
      (
        raise_if (ltb settings.max_attempts c.count) login_rate_limit_exceeded,
        put_counter key c counters,
      )

  -- The key of an address and a name.
  unfoldable pub limit_key : Security → (client_ip username : String) → String
  limit_key security client_ip username =
      let name = security.casefold (strip username) in
      String.◌++◌ "raj:login-rate:" (security.sha256 (String.◌++◌ client_ip (String.◌++◌ ":" name)))

  -- `check_login_rate_limit`; `redis` is what the counter in Redis answers, `none` an exception of any kind
  unfoldable pub check_login_rate_limit :
      Security
      → (redis : (key : String) → Option ℕ) → (client_ip username : String) → (now : ℕ) → Counters
      → Result (Unit {0}) × Counters
  check_login_rate_limit security redis client_ip username now counters =
      let key = limit_key security client_ip username in
      if settings.enabled
      then elim (redis key) [
        | none ↦
            if settings.is_production
            then (err login_rate_limit_unavailable, counters)
            else development_fallback key now counters
        | some count ↦
            (raise_if (ltb settings.max_attempts count) login_rate_limit_exceeded, counters)
      ]
      else (ok tt, counters)
