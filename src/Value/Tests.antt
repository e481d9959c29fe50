-- ===== src/Value/Tests.antt =====
-- Values read the way Python reads them.
use raj_data_handle.Base.{◌≡◌, refl, ok}
use raj_data_handle.Base.Int.{pos}
use raj_data_handle.Text.{strip, str_int, read_int}
use raj_data_handle.Value.{int, text, end, field, get, put, stripped, int_of}

stripped_number : stripped (int (pos 94)) ≡ "94"
unfolding stripped strip str_int
stripped_number = refl

stripped_zero : stripped (int (pos 0)) ≡ ""
unfolding stripped strip
stripped_zero = refl

get-put_example : get "b" (put "b" (int (pos 2)) (field "b" (int (pos 1)) end)) ≡ int (pos 2)
unfolding get put
get-put_example = refl

int_of_text : int_of (text " 7 ") ≡ ok (pos 7)
unfolding int_of read_int
int_of_text = refl
