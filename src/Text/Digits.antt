-- ===== src/Text/Digits.antt =====
-- `int(str(n))`.
use Prim.Native.Char.{code}
use native.Mathlib.Nat.{pow-suc}
use raj_data_handle.Base.{
  ℕ, zero, suc, ◌+◌, ◌*◌, ◌/◌, ◌%◌, ◌^◌, ◌<◌, ◌≡◌, refl, ap, ◌∙◌, String, Bool, true, false, some,
  arith, ltb, Bool-cases, inl, inr,
}
use raj_data_handle.Base.Int.{pos}
use raj_data_handle.Text.{
  digit, digits_from, str_ℕ, read_digits, signed, read_int, strip, lstrip, rstrip, is_space,
  is_digit, positive,
}

by_digit :
    (P : ℕ → Type 0)
    → P 0
    → P 1
    → P 2
    → P 3
    → P 4
    → P 5
    → P 6
    → P 7
    → P 8
    → P 9
    → (d : ℕ) → d < 10
    → P d
by_digit P p0 p1 p2 p3 p4 p5 p6 p7 p8 p9 zero h = p0
by_digit P p0 p1 p2 p3 p4 p5 p6 p7 p8 p9 (suc zero) h = p1
by_digit P p0 p1 p2 p3 p4 p5 p6 p7 p8 p9 (suc (suc zero)) h = p2
by_digit P p0 p1 p2 p3 p4 p5 p6 p7 p8 p9 (suc (suc (suc zero))) h = p3
by_digit P p0 p1 p2 p3 p4 p5 p6 p7 p8 p9 (suc (suc (suc (suc zero)))) h = p4
by_digit P p0 p1 p2 p3 p4 p5 p6 p7 p8 p9 (suc (suc (suc (suc (suc zero))))) h = p5
by_digit P p0 p1 p2 p3 p4 p5 p6 p7 p8 p9 (suc (suc (suc (suc (suc (suc zero)))))) h = p6
by_digit P p0 p1 p2 p3 p4 p5 p6 p7 p8 p9 (suc (suc (suc (suc (suc (suc (suc zero))))))) h = p7
by_digit P p0 p1 p2 p3 p4 p5 p6 p7 p8 p9 (suc (suc (suc (suc (suc (suc (suc (suc zero)))))))) h = p8
by_digit P p0 p1 p2 p3 p4 p5 p6 p7 p8 p9 (suc (suc (suc (suc (suc (suc (suc (suc (suc zero)))))))))
      h =
    p9
by_digit P p0 p1 p2 p3 p4 p5 p6 p7 p8 p9
      (suc (suc (suc (suc (suc (suc (suc (suc (suc (suc n)))))))))) h =
    absurd (omega arith)

read-digit :
    (b : Bool) (a : ℕ) (out : String) (d : ℕ)
    → d < 10
    → read_digits b a (String.◌∷◌ (digit d) out) ≡ read_digits true (a * 10 + d) out
unfolding read_digits digit
read-digit b a out =
    by_digit (λ d. read_digits b a (String.◌∷◌ (digit d) out) ≡ read_digits true (a * 10 + d) out)
      (ap (λ x. read_digits true x out) (omega arith)) refl refl refl refl refl refl refl refl refl

small_digit : (n : ℕ) → ltb n 10 ≡ true → n < 10
small_digit n e = ground arith

carried : (a n : ℕ) → n < 10 → a * 10 + n % 10 ≡ a * 10 ^ 1 + n
carried a n h = omega arith

zero_shift : (n k : ℕ) → 0 * 10 ^ k + n ≡ n
zero_shift n k = grind arith

shifted : (a n k : ℕ) → (a * 10 ^ k + n / 10) * 10 + n % 10 ≡ a * 10 ^ suc k + n
shifted a n k = rw (pow-suc 10 k) (grind arith)

-- the digits in front of `out` are read before it
read-digits_from :
    (fuel n : ℕ) (out : String)
    → n < fuel
    → (k : ℕ) × ((b : Bool) (a : ℕ)
        → read_digits b a (digits_from fuel n out) ≡ read_digits true (a * 10 ^ k + n) out)
unfolding digits_from
read-digits_from zero n out h = absurd (omega arith)
read-digits_from (suc fuel) n out h = elim (Bool-cases (ltb n 10)) [
  | inl e ↦ rw e (
    1,
    λ b a.
        read-digit b a out (n % 10) (omega arith)
        ∙ ap (λ x. read_digits true x out) (carried a n (small_digit n e)),
  )
  | inr e ↦
      let (k, read) =
        read-digits_from fuel (n / 10) (String.◌∷◌ (digit (n % 10)) out) (ground arith) in
      rw e (
        suc k,
        λ b a.
            read b a
            ∙ read-digit true (a * 10 ^ k + n / 10) out (n % 10) (omega arith)
            ∙ ap (λ x. read_digits true x out) (shifted a n k),
      )
]

-- a text that starts with a digit and holds nothing but digits
abbrev IsDigits : String → Type 0
IsDigits String.[] = Unit
IsDigits (String.◌∷◌ c s) = (is_digit (code c) ≡ true) × IsDigits s

digit-is_digit : (d : ℕ) → d < 10 → is_digit (code (digit d)) ≡ true
unfolding digit
digit-is_digit =
    by_digit (λ d. is_digit (code (digit d)) ≡ true) refl refl refl refl refl refl refl refl refl
      refl

digits_from-IsDigits :
    (fuel n : ℕ) (out : String) → IsDigits out → IsDigits (digits_from fuel n out)
unfolding digits_from
digits_from-IsDigits zero n out h = h
digits_from-IsDigits (suc fuel) n out h =
    let shown : IsDigits (String.◌∷◌ (digit (n % 10)) out) =
      (digit-is_digit (n % 10) (omega arith), h) in
    elim (Bool-cases (ltb n 10)) [
      | inl e ↦ rw e shown
      | inr e ↦ rw e (digits_from-IsDigits fuel (n / 10) (String.◌∷◌ (digit (n % 10)) out) shown)
    ]

digit_no_space : (c : ℕ) → is_digit c ≡ true → is_space c ≡ false
unfolding is_space
digit_no_space c h = ground arith

rstrip-digits : (s : String) → IsDigits s → rstrip s ≡ s
unfolding rstrip
rstrip-digits String.[] h = refl
rstrip-digits (String.◌∷◌ c s) (d, h) =
    rw (rstrip-digits s h) (rw (digit_no_space (code c) d) (ground arith))

lstrip-digits : (s : String) → IsDigits s → lstrip s ≡ s
unfolding lstrip
lstrip-digits String.[] h = refl
lstrip-digits (String.◌∷◌ c s) (d, h) = rw (digit_no_space (code c) d) refl

strip-digits : (s : String) → IsDigits s → strip s ≡ s
unfolding strip
strip-digits s h = ap rstrip (lstrip-digits s h) ∙ rstrip-digits s h

signed-digits : (s : String) → IsDigits s → signed s ≡ positive (read_digits false 0 s)
unfolding signed
signed-digits String.[] h = refl
signed-digits (String.◌∷◌ c s) (d, h) = ground arith

-- `int(str(n))` is `n`
pub read_int-str_ℕ : (n : ℕ) → read_int (str_ℕ n) ≡ some (pos n)
unfolding read_int str_ℕ
read_int-str_ℕ n =
    let digits = digits_from-IsDigits (suc n) n "" tt in
    let (k, read) = read-digits_from (suc n) n "" (omega arith) in
    ap signed (strip-digits _ digits)
    ∙ signed-digits _ digits
    ∙ ap positive (read false 0)
    ∙ ap (λ x. some (pos x)) (zero_shift n k)
