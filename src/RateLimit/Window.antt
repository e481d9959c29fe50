-- ===== src/RateLimit/Window.antt =====
-- rate_limit_service.py: how many attempts pass in one window.
use raj_data_handle.Base.{
  ℕ, suc, ◌+◌, ◌-◌, ◌≤◌, ◌<◌, ◌≡◌, refl, sym, ap, ◌∙◌, String, Bool, true, false, ◌&&◌, Option,
  none, some, List, [], ◌∷◌, Result, ok, err, leb, ◌==◌, if◌then◌else◌, Bool-cases, inl, inr, arith,
  eq_iff, All,
}
use mathlib.Core.Path.{subst}
use raj_data_handle.RateLimit.{
  LimitSettings, Counter, Counters, find_counter, put_counter, current, counter_after,
  development_fallback,
}

find-put :
    (key other : String) (c : Counter) (counters : Counters)
    → find_counter key (put_counter other c counters)
      ≡ (if other == key then some c else find_counter key counters)
find-put key other c [] = refl
find-put key other c ((k, d) ∷ counters) =
    ground (arith, eq_iff k other, eq_iff k key, eq_iff other key, find-put key other c counters)

abbrev pub is_ok : {A : Type 0} → Result A → Bool
is_ok (ok _) = true
is_ok (err _) = false

-- A login attempt: its key and its time
abbrev pub Attempt : Type 0
Attempt = String × ℕ

module _ (settings : LimitSettings) where
  -- how many of the attempts with that key pass, one after the other
  unfoldable pub passed : String → List Attempt → Counters → ℕ
  passed key [] counters = 0
  passed key ((other, now) ∷ attempts) counters =
      let (outcome, next) = development_fallback settings other now counters in
      let rest = passed key attempts next in
      if other == key && is_ok outcome then suc rest else rest

  counter_after-open :
      (now : ℕ) (c : Counter)
      → now < c.expires_at
      → counter_after settings now (some c)
        ≡ record { count = c.count + 1; expires_at = c.expires_at }
  unfolding counter_after current
  counter_after-open now c h =
      let later : leb c.expires_at now ≡ false = ground arith in rw later refl

  passed-same :
      (key : String) (now : ℕ) (attempts : List Attempt) (counters : Counters) (c : Counter)
      → counter_after settings now (find_counter key counters) ≡ c
      → passed key ((key, now) ∷ attempts) counters ≡ (
          if leb c.count settings.max_attempts
          then suc (passed key attempts (put_counter key c counters))
          else passed key attempts (put_counter key c counters))
  unfolding passed development_fallback
  passed-same key now attempts counters c h = rw h (ground (arith, eq_iff key key))

  passed-other :
      (key other : String) (now : ℕ) (attempts : List Attempt) (counters : Counters)
      → (other == key) ≡ false
      → passed key ((other, now) ∷ attempts) counters
        ≡ passed key attempts
            (put_counter other (counter_after settings now (find_counter other counters)) counters)
  unfolding passed development_fallback
  passed-other key other now attempts counters h = rw h refl

  passed-after :
      (key : String) (attempts : List Attempt) (counters : Counters) (c : Counter)
      → find_counter key counters ≡ some c
      → All (λ (a : Attempt). a.1 < c.expires_at) attempts
      → passed key attempts counters ≤ settings.max_attempts - c.count
  unfolding passed
  passed-after key [] counters c h k = omega arith
  passed-after key ((other, now) ∷ attempts) counters c h (early, k) =
      elim (Bool-cases (other == key)) [
        | inl e ↦
            let same : other ≡ key = ground (arith, eq_iff other key) in
            let next : Counter = record { count = c.count + 1; expires_at = c.expires_at } in
            let after =
              passed-after key attempts (put_counter key next counters) next
                (find-put key key next counters ∙ ground (arith, eq_iff key key)) k in
            let step =
              passed-same key now attempts counters next
                (ap (counter_after settings now) h ∙ counter_after-open now c early) in
            subst
              (λ (o : String).
                passed key ((o, now) ∷ attempts) counters ≤ settings.max_attempts - c.count)
              (sym same) (rw step (ground (arith, after)))
        | inr e ↦
            let next = counter_after settings now (find_counter other counters) in
            rw (passed-other key other now attempts counters e) (
              passed-after key attempts (put_counter other next counters) c
                (find-put key other next counters ∙ rw e h) k)
      ]

  counter_after-fresh :
      (now : ℕ) (o : Option Counter)
      → ((c : Counter) → o ≡ some c → c.expires_at ≤ now)
      → counter_after settings now o
        ≡ record { count = 1; expires_at = now + settings.window_seconds }
  unfolding counter_after current
  counter_after-fresh now none h = refl
  counter_after-fresh now (some c) h =
      let over : leb c.expires_at now ≡ true = ground (arith, h c refl) in rw over refl

  -- However the attempts of several keys follow one another: from an attempt that opens a window for a key,
  -- no more than `max_attempts` with that key pass before the window ends.
  pub passed-bounded :
      (key : String) (start : ℕ) (attempts : List Attempt) (counters : Counters)
      → ((c : Counter) → find_counter key counters ≡ some c → c.expires_at ≤ start)
      → All (λ (a : Attempt). a.1 < start + settings.window_seconds) attempts
      → passed key ((key, start) ∷ attempts) counters ≤ settings.max_attempts
  passed-bounded key start attempts counters h k =
      let next : Counter = record { count = 1; expires_at = start + settings.window_seconds } in
      let after =
        passed-after key attempts (put_counter key next counters) next
          (find-put key key next counters ∙ ground (arith, eq_iff key key)) k in
      rw
        (passed-same key start attempts counters next
          (counter_after-fresh start (find_counter key counters) h))
        (ground (arith, after))
