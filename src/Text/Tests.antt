-- ===== src/Text/Tests.antt =====
-- Texts stripped, printed and read.
use raj_data_handle.Base.{◌≡◌, refl}
use raj_data_handle.Text.{strip, str_int, read_int}
use raj_data_handle.Base.Int.{negsuc}
use raj_data_handle.Base.{some, none}

strip_example : strip " \t ab c \n" ≡ "ab c"
unfolding strip
strip_example = refl

str_int_example : str_int (negsuc 9479) ≡ "-9480"
unfolding str_int
str_int_example = refl

read_int_example : read_int " -9_480 " ≡ some (negsuc 9479)
unfolding read_int
read_int_example = refl

read_int_bad : read_int "9__480 " ≡ none
unfolding read_int
read_int_bad = refl
