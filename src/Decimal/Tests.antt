-- ===== src/Decimal/Tests.antt =====
-- Decimals read, compared and printed.
use raj_data_handle.Base.{◌≡◌, refl, true, false, some, none, ok, err, invalid_operation}
use raj_data_handle.Base.Int.{pos, negsuc}
use raj_data_handle.Decimal.{finite, infinity, nan, decimal, differs, decimal_text}

decimal_point : decimal " 1_00.50" ≡ some (finite false 10050 (negsuc 1))
unfolding decimal
decimal_point = refl

decimal_exponent : decimal "-1.5E+3" ≡ some (finite true 15 (pos 2))
unfolding decimal
decimal_exponent = refl

decimal_special : decimal "-Infinity" ≡ some (infinity true)
unfolding decimal
decimal_special = refl

decimal_signalling : decimal "sNaN12" ≡ some (nan false true 12)
unfolding decimal
decimal_signalling = refl

decimal_bad : decimal "12a" ≡ none
unfolding decimal
decimal_bad = refl

differs_scale : differs (finite false 10050 (negsuc 1)) (finite false 1005 (negsuc 0)) ≡ ok false
unfolding differs
differs_scale = refl

differs_signalling : differs (nan false true 0) (finite false 1 (pos 0)) ≡ err invalid_operation
unfolding differs
differs_signalling = refl

decimal_text_plain : decimal_text (finite true 10050 (negsuc 1)) ≡ "-100.50"
unfolding decimal_text
decimal_text_plain = refl

decimal_text_small : decimal_text (finite false 5 (negsuc 2)) ≡ "0.005"
unfolding decimal_text
decimal_text_small = refl

decimal_text_exponent : decimal_text (finite false 15 (pos 2)) ≡ "1.5E+3"
unfolding decimal_text
decimal_text_exponent = refl

decimal_text_tiny : decimal_text (finite false 15 (negsuc 6)) ≡ "0.0000015"
unfolding decimal_text
decimal_text_tiny = refl
