-- ===== src/RateLimit/Tests.antt =====
-- rate_limit_service.py with two attempts in ten seconds.
use raj_data_handle.Base.{
  ℕ, Option, inl, ◌≡◌, ◌≤◌, refl, true, false, none, some, [], ◌∷◌, err, arith,
  login_rate_limit_exceeded, login_rate_limit_unavailable, List,
}
use raj_data_handle.Text.{strip}
use raj_data_handle.Account.{Security}
use raj_data_handle.RateLimit.{
  LimitSettings, Counters, development_fallback, check_login_rate_limit, counter_after, limit_key,
}
use raj_data_handle.RateLimit.Window.{Attempt, passed}
use raj_data_handle.RateLimit.Logins.{Login, Rises, key_of, admitted, check-bounded}

abbrev limits : LimitSettings
limits = record { enabled = true; window_seconds = 10; max_attempts = 2; is_production = true }

abbrev before : Counters
before = ("k", record { count = 7; expires_at = 5 }) ∷ []

abbrev later : List Attempt
later = ("k", 6) ∷ ("j", 7) ∷ ("k", 8) ∷ []

abbrev security : Security
security = record {
  casefold = λ s. s;
  sha256 = λ s. s;
  hashpw = λ salt password. "";
  checkpw = λ password hash. none;
  jwt_encode = λ fields key. "";
  jwt_decode = λ token key now. none;
}

third_refused :
    development_fallback limits "k" 8 (("k", record { count = 2; expires_at = 15 }) ∷ [])
    ≡ (err login_rate_limit_exceeded, ("k", record { count = 3; expires_at = 15 }) ∷ [])
unfolding development_fallback counter_after
third_refused = refl

no_redis :
    check_login_rate_limit limits security (λ key. none) "1" "u" 0 []
    ≡ (err login_rate_limit_unavailable, [])
unfolding check_login_rate_limit
no_redis = refl

two_pass : passed limits "k" (("k", 5) ∷ later) before ≡ 2
unfolding passed development_fallback counter_after
two_pass = refl

abbrev call : ℕ → Option ℕ → Login
call now redis = record { client_ip = "1"; username = "u"; now = now; redis = redis }

abbrev counted : List Login
counted = call 6 (some 2) ∷ call 7 (some 3) ∷ []

rising :
    Rises limits security (key_of limits security (call 5 (some 1))) 0 (call 5 (some 1) ∷ counted)
unfolding limit_key strip
rising = (
  1,
  refl,
  inl (
    refl,
    ground arith,
    (2, refl, inl (refl, ground arith, (3, refl, inl (refl, ground arith, tt)))),
  ),
)

abbrev open_limits : LimitSettings
open_limits = record limits { is_production = false }

abbrev uncounted : List Login
uncounted = call 6 none ∷ call 8 none ∷ []

third_uncounted :
    admitted open_limits security
      (key_of open_limits security (call 5 none))
      (call 5 none ∷ uncounted)
      []
    ≡ 2
unfolding admitted check_login_rate_limit limit_key development_fallback counter_after strip
third_uncounted = refl

third_counted :
    admitted limits security
      (key_of limits security (call 5 (some 1)))
      (call 5 (some 1) ∷ counted)
      []
    ≡ 2
unfolding admitted check_login_rate_limit limit_key strip
third_counted = refl

check-bounded_example :
    admitted limits security
      (key_of limits security (call 5 (some 1)))
      (call 5 (some 1) ∷ counted)
      []
    ≤ 2
check-bounded_example = check-bounded limits security (call 5 (some 1)) counted [] refl (inl rising)
