-- ===== src/Decimal.antt =====
-- `decimal.Decimal` as the services use it: built from a text, compared by `!=`, printed by `str`.
-- Digits are the ASCII ones, and exponents are unbounded.
mod Tests
use Prim.Native.Char.{code}
use Prim.Native.String
use raj_data_handle.Base.{
  ℕ, zero, ◌+◌, ◌-◌, ◌*◌, ◌^◌, String, Bool, true, false, not, ◌&&◌, ◌||◌, Option, none, some, List,
  [], ◌∷◌, Result, ok, err, invalid_operation, leb, eqb, if◌then◌else◌,
}
use raj_data_handle.Base.Int.{ℤ, pos, negsuc, ◌+ℤ◌, ◌-ℤ◌, ltb_ℤ, leb_ℤ}
use raj_data_handle.Text.{
  strip, str_ℕ, is_digit, signed, lower_codes, codes, take, drop, count, zeros,
}

-- `finite negative coefficient exponent` is ± coefficient * 10 ^ exponent
pub data Decimal : Type 0 where
  finite : (negative : Bool) (coefficient : ℕ) (exponent : ℤ) → Decimal
  infinity : (negative : Bool) → Decimal
  nan : (negative signalling : Bool) (payload : ℕ) → Decimal

without_underscores : String → String
without_underscores String.[] = ""
without_underscores (String.◌∷◌ c s) =
    let rest = without_underscores s in if eqb (code c) b'_' then rest else String.◌∷◌ c rest

exponent_part : ℕ → ℕ → Option ℤ → Option (ℕ × ℤ)
exponent_part coefficient places none = none
exponent_part coefficient places (some e) = some (coefficient, e -ℤ pos places)

-- digits with at most one point and an exponent: the coefficient and the exponent
mantissa : (point digits : Bool) (coefficient places : ℕ) → String → Option (ℕ × ℤ)
mantissa point digits coefficient places String.[] =
    if digits then some (coefficient, pos 0 -ℤ pos places) else none
mantissa point digits coefficient places (String.◌∷◌ c s) =
    let more =
      mantissa point true (coefficient * 10 + (code c - b'0'))
        (if point then places + 1 else places) s in
    let fraction = mantissa true digits coefficient places s in
    if is_digit (code c)
    then more
    else if eqb (code c) b'.' && not point
    then fraction
    else if (eqb (code c) b'e' || eqb (code c) b'E') && digits
    then exponent_part coefficient places (signed s)
    else none

-- the digits after `nan`; none at all stand for 0
payload : ℕ → List ℕ → Option ℕ
payload n [] = some n
payload n (c ∷ rest) = if is_digit c then payload (n * 10 + (c - b'0')) rest else none

-- the codes that follow `word`, which stands first
after : List ℕ → List ℕ → Option (List ℕ)
after [] s = some s
after (w ∷ word) [] = none
after (w ∷ word) (c ∷ s) = if eqb w c then after word s else none

is_end : Option (List ℕ) → Bool
is_end (some []) = true
is_end _ = false

nan_payload : (negative signalling : Bool) → Option ℕ → Option Decimal
nan_payload negative signalling none = none
nan_payload negative signalling (some n) = some (nan negative signalling n)

-- `inf`, `infinity`, `nan` and `snan` in any case, the last two with digits
special : Bool → List ℕ → Option Decimal
special negative low =
    if is_end (after (codes "inf") low) || is_end (after (codes "infinity") low)
    then some (infinity negative)
    else elim (after (codes "nan") low) [
      | some rest ↦ nan_payload negative false (payload 0 rest)
      | none ↦ elim (after (codes "snan") low) [
        | some rest ↦ nan_payload negative true (payload 0 rest)
        | none ↦ none
      ]
    ]

unsigned : Bool → String → Option Decimal
unsigned negative s = elim (mantissa false false 0 0 s) [
  | some (coefficient, exponent) ↦ some (finite negative coefficient exponent)
  | none ↦ special negative (lower_codes s)
]

with_sign : String → Option Decimal
with_sign String.[] = none
with_sign (String.◌∷◌ c s) =
    if eqb (code c) b'-'
    then unsigned true s
    else if eqb (code c) b'+'
    then unsigned false s
    else unsigned false (String.◌∷◌ c s)

-- `Decimal(s)`; `none` is the `InvalidOperation`
unfoldable pub decimal : String → Option Decimal
unfolding with_sign unsigned special nan_payload is_end after payload mantissa exponent_part
    without_underscores strip signed lower_codes codes ◌-ℤ◌
decimal s = with_sign (without_underscores (strip s))

-- ± coefficient * 10 ^ exponent, by the difference of the two exponents
same_magnitude : ℕ → ℕ → ℤ → Bool
same_magnitude a b (pos k) = eqb (a * 10 ^ k) b
same_magnitude a b (negsuc k) = eqb a (b * 10 ^ (k + 1))

same_sign : Bool → Bool → Bool
same_sign true b = b
same_sign false b = not b

abbrev is_signalling : Decimal → Bool
is_signalling (nan _ true _) = true
is_signalling _ = false

equal : Decimal → Decimal → Bool
equal (finite n a e) (finite m b f) =
    eqb a 0 && eqb b 0 || same_sign n m && same_magnitude a b (e -ℤ f)
equal (infinity n) (infinity m) = same_sign n m
equal _ _ = false

-- `a != b`, which raises on a signalling nan
unfoldable pub differs : Decimal → Decimal → Result Bool
unfolding equal same_magnitude same_sign ◌-ℤ◌
differs a b =
    if is_signalling a || is_signalling b then err invalid_operation else ok (not (equal a b))

sign_text : Bool → String
sign_text true = "-"
sign_text false = ""

exponent_text : ℤ → String
exponent_text (pos zero) = ""
exponent_text (pos n) = String.◌++◌ "E+" (str_ℕ n)
exponent_text (negsuc n) = String.◌++◌ "E-" (str_ℕ (n + 1))

-- the digits with the point behind `place` of them
placed : String → ℤ → String
placed digits (negsuc k) = String.◌++◌ "0." (String.◌++◌ (zeros (k + 1)) digits)
placed digits (pos zero) = String.◌++◌ "0." digits
placed digits (pos place) =
    if leb (count digits) place
    then String.◌++◌ digits (zeros (place - count digits))
    else String.◌++◌ (take place digits) (String.◌++◌ "." (drop place digits))

-- `str` moves the point by the exponent if that is not positive and not below -6, and otherwise
-- writes one digit before the point and an exponent.
finite_text : String → ℤ → String
finite_text digits exponent =
    let left = exponent +ℤ pos (count digits) in
    let place = if ltb_ℤ (pos 0) exponent || leb_ℤ left (negsuc 5) then pos 1 else left in
    String.◌++◌ (placed digits place) (exponent_text (left -ℤ place))

nan_text : Bool → ℕ → String
nan_text signalling n =
    let digits = if eqb n 0 then "" else str_ℕ n in
    String.◌++◌ (if signalling then "sNaN" else "NaN") digits

-- `str(d)`
unfoldable pub decimal_text : Decimal → String
unfolding sign_text finite_text nan_text placed exponent_text str_ℕ count take drop zeros ◌+ℤ◌ ◌-ℤ◌
decimal_text (finite n a e) = String.◌++◌ (sign_text n) (finite_text (str_ℕ a) e)
decimal_text (infinity n) = String.◌++◌ (sign_text n) "Infinity"
decimal_text (nan n s p) = String.◌++◌ (sign_text n) (nan_text s p)
