-- ===== src/Value.antt =====
-- What a JSON document or a spreadsheet cell holds, as the services read it: `dict.get`, truth,
-- `str(…)` and `int(…)`.
mod Tests
use raj_data_handle.Base.{
  ℕ, zero, String, Bool, true, false, not, ◌&&◌, none, some, ◌==◌, Result, ok, err, type_error,
  key_error, value_error, overflow_error, if◌then◌else◌,
}
use raj_data_handle.Base.Int.{ℤ, pos, eqb_ℤ}
use raj_data_handle.Text.{is_empty, strip, str_int, read_int}

-- A Python float, by what the services ask of it: `int(x)`, which truncates, and
-- `x.is_integer()`.
pub data Float : Type 0 where
  number : (truncated : ℤ) (integral : Bool) → Float
  nan : Float
  infinite : Float

-- A float, a list and a dict carry the text that `str` gives for them: the services print them
-- only whole.
mutual
  pub data Value : Type 0 where
    null : Value
    bool : Bool → Value
    int : ℤ → Value
    float : String → Float → Value
    text : String → Value
    list : String → Items → Value
    dict : String → Fields → Value

  pub data Items : Type 0 where
    nil : Items
    item : Value → Items → Items

  pub data Fields : Type 0 where
    end : Fields
    field : String → Value → Fields → Fields

-- `d.get(key)`
unfoldable pub get : String → Fields → Value
get key end = null
get key (field k v d) = if k == key then v else get key d

-- `d[key]`
unfoldable pub item_at : String → Fields → Result Value
item_at key end = err key_error
item_at key (field k v d) = if k == key then ok v else item_at key d

-- `{**d, key: value}`
unfoldable pub put : String → Value → Fields → Fields
put key value end = field key value end
put key value (field k v d) = if k == key then field k value d else field k v (put key value d)

-- `bool(value)`
unfoldable pub truthy : Value → Bool
truthy null = false
truthy (bool b) = b
truthy (int n) = not (eqb_ℤ n (pos 0))
truthy (float _ (number t integral)) = not (integral && eqb_ℤ t (pos 0))
truthy (float _ _) = true
truthy (text s) = not (is_empty s)
truthy (list _ nil) = false
truthy (list _ (item _ _)) = true
truthy (dict _ end) = false
truthy (dict _ (field _ _ _)) = true

-- `str(value)`
unfoldable pub str_of : Value → String
str_of null = "None"
str_of (bool true) = "True"
str_of (bool false) = "False"
str_of (int n) = str_int n
str_of (float shown _) = shown
str_of (text s) = s
str_of (list shown _) = shown
str_of (dict shown _) = shown

-- `str(value or "")`
unfoldable pub str_or_empty : Value → String
unfolding truthy str_of
str_or_empty v = if truthy v then str_of v else ""

-- `str(value or "").strip()`
unfoldable pub stripped : Value → String
unfolding str_or_empty
stripped v = strip (str_or_empty v)

unfoldable pub int_of : Value → Result ℤ
int_of null = err type_error
int_of (bool true) = ok (pos 1)
int_of (bool false) = ok (pos 0)
int_of (int n) = ok n
int_of (float _ (number t _)) = ok t
int_of (float _ nan) = err value_error
int_of (float _ infinite) = err overflow_error
int_of (text s) = elim (read_int s) [ none ↦ err value_error | some n ↦ ok n ]
int_of (list _ _) = err type_error
int_of (dict _ _) = err type_error
