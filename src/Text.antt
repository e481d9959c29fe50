-- ===== src/Text.antt =====
-- Python's `str` methods that the services call, over the native texts. A text is compared as a
-- whole, or read character by character through the code points.
mod Tests
pub mod Digits
use Prim.Native.Char.{Char, code}
use Prim.Native.String
use raj_data_handle.Base.{
  ℕ, zero, suc, ◌+◌, ◌-◌, ◌*◌, ◌/◌, ◌%◌, String, Bool, true, false, ◌&&◌, ◌||◌, Option, none, some,
  List, [], ◌∷◌, ltb, leb, eqb, ◌==◌, if◌then◌else◌,
}
use raj_data_handle.Base.Int.{ℤ, pos, negsuc}

-- `bool(s)` is `not is_empty s`
abbrev pub is_empty : String → Bool
is_empty String.[] = true
is_empty (String.◌∷◌ c s) = false

-- the characters for which `str.isspace` holds, which `str.strip` removes
unfoldable pub is_space : ℕ → Bool
is_space c =
    leb 9 c && leb c 13
    || leb 28 c && leb c 32
    || eqb c 133
    || eqb c 160
    || eqb c 5760
    || leb 8192 c && leb c 8202
    || eqb c 8232
    || eqb c 8233
    || eqb c 8239
    || eqb c 8287
    || eqb c 12288

unfoldable pub lstrip : String → String
lstrip String.[] = ""
lstrip (String.◌∷◌ c s) = let rest = lstrip s in if is_space (code c) then rest else String.◌∷◌ c s

unfoldable pub rstrip : String → String
rstrip String.[] = ""
rstrip (String.◌∷◌ c s) =
    let rest = rstrip s in if is_empty rest && is_space (code c) then "" else String.◌∷◌ c rest

-- `s.strip()`
unfoldable pub strip : String → String
unfolding lstrip rstrip is_space
strip s = rstrip (lstrip s)

unfoldable pub digit : ℕ → Char
digit d =
    if eqb d 0
    then "0"
    else if eqb d 1
    then "1"
    else if eqb d 2
    then "2"
    else if eqb d 3
    then "3"
    else if eqb d 4
    then "4"
    else if eqb d 5
    then "5"
    else if eqb d 6
    then "6"
    else if eqb d 7
    then "7"
    else if eqb d 8
    then "8"
    else "9"

-- the decimal digits of `n` in front of `out`; `n + 1` rounds are enough
digits_from : ℕ → ℕ → String → String
digits_from zero n out = out
digits_from (suc fuel) n out =
    let shown = String.◌∷◌ (digit (n % 10)) out in
    let rest = digits_from fuel (n / 10) shown in if ltb n 10 then shown else rest

-- `str(n)`
unfoldable pub str_ℕ : ℕ → String
unfolding digits_from digit
str_ℕ n = digits_from (suc n) n ""

unfoldable pub str_int : ℤ → String
unfolding str_ℕ
str_int (pos n) = str_ℕ n
str_int (negsuc n) = String.◌++◌ "-" (str_ℕ (n + 1))

abbrev pub is_digit : ℕ → Bool
is_digit c = leb b'0' c && leb c b'9'

-- The digits of an integer literal, with single `_` between digits; `after_digit` says whether the
-- character before was a digit.
unfoldable pub read_digits : Bool → ℕ → String → Option ℕ
read_digits after_digit n String.[] = if after_digit then some n else none
read_digits after_digit n (String.◌∷◌ c s) =
    let longer = read_digits true (n * 10 + (code c - b'0')) s in
    let skipped = read_digits false n s in
    if is_digit (code c) then longer else if after_digit && eqb (code c) b'_' then skipped else none

negated : Option ℕ → Option ℤ
negated none = none
negated (some zero) = some (pos 0)
negated (some (suc n)) = some (negsuc n)

positive : Option ℕ → Option ℤ
positive none = none
positive (some n) = some (pos n)

unfoldable pub signed : String → Option ℤ
unfolding negated positive read_digits
signed String.[] = none
signed (String.◌∷◌ c s) =
    if eqb (code c) b'-'
    then negated (read_digits false 0 s)
    else if eqb (code c) b'+'
    then positive (read_digits false 0 s)
    else positive (read_digits false 0 (String.◌∷◌ c s))

-- `int(s)` for a text in the digits 0 to 9; `none` is the `ValueError`
unfoldable pub read_int : String → Option ℤ
unfolding strip signed
read_int s = signed (strip s)

-- `str.lower` on the ASCII letters
lower_code : ℕ → ℕ
lower_code c = if leb b'A' c && leb c b'Z' then c + 32 else c

-- the code points, in lower case
unfoldable pub lower_codes : String → List ℕ
unfolding lower_code
lower_codes String.[] = []
lower_codes (String.◌∷◌ c s) = lower_code (code c) ∷ lower_codes s

-- the code points
unfoldable pub codes : String → List ℕ
codes String.[] = []
codes (String.◌∷◌ c s) = code c ∷ codes s

-- `s[:n]`
unfoldable pub take : ℕ → String → String
take zero s = ""
take (suc n) String.[] = ""
take (suc n) (String.◌∷◌ c s) = String.◌∷◌ c (take n s)

-- `s[n:]`
unfoldable pub drop : ℕ → String → String
drop zero s = s
drop (suc n) String.[] = ""
drop (suc n) (String.◌∷◌ c s) = drop n s

-- `len(s)`
unfoldable pub count : String → ℕ
count String.[] = 0
count (String.◌∷◌ c s) = suc (count s)

-- `"0" * n`
unfoldable pub zeros : ℕ → String
zeros zero = ""
zeros (suc n) = String.◌++◌ "0" (zeros n)

-- `str.upper` on the ASCII letters
upper_code : ℕ → ℕ
upper_code c = if leb b'a' c && leb c b'z' then c - 32 else c

-- the code points, in upper case
unfoldable pub upper_codes : String → List ℕ
unfolding upper_code
upper_codes String.[] = []
upper_codes (String.◌∷◌ c s) = upper_code (code c) ∷ upper_codes s

abbrev pub same_codes : List ℕ → List ℕ → Bool
same_codes [] [] = true
same_codes (a ∷ s) (b ∷ t) = eqb a b && same_codes s t
same_codes _ _ = false

-- `len(s.encode("utf-8"))`
unfoldable pub utf8_length : String → ℕ
utf8_length String.[] = 0
utf8_length (String.◌∷◌ c s) =
    (if ltb (code c) 128
      then 1
      else if ltb (code c) 2048
      then 2
      else if ltb (code c) 65536
      then 3
      else 4)
    + utf8_length s
