-- ===== src/Import/Parse.antt =====
-- payment_import_service.py: the cells of one row, the time window and the row that they make.
use raj_data_handle.Base.{
  ℕ, suc, String, Bool, true, false, not, ◌&&◌, ◌||◌, Option, none, some, List, [], ◌∷◌, Result, ok,
  err, ◌>>=◌, is_some, payment_import_error, leb, any_of, ◌==◌, if◌then◌else◌,
}
use raj_data_handle.Text.{is_empty, strip, str_int}
use raj_data_handle.Value.{Value, null, float, text, number, str_of}
use raj_data_handle.Decimal.{Decimal, decimal}
use raj_data_handle.Payment.{DateTime, PaymentStatusGroup, success, non_success, unknown}

-- what the importer asks of `datetime` and `zoneinfo`; the time zone database is data of the system
pub record Calendar : Type 1 where
  pub Zone : Type 0
  -- a `datetime` as it was read, with or without a zone
  pub Moment : Type 0
  -- `ZoneInfo(name)`; `none` is the `ZoneInfoNotFoundError`
  pub zone_info : String → Option Zone
  -- `datetime.fromisoformat` and the two `strptime` formats, in the order in which they are tried
  pub parsers : List (String → Option Moment)
  -- `parsed.tzinfo is None`
  pub is_naive : Moment → Bool
  -- `parsed.replace(tzinfo=timezone)` and `parsed.astimezone(timezone)`
  pub replaced : Zone → Moment → DateTime
  pub converted : Zone → Moment → DateTime

-- a cell: a value, or a `datetime` with its `str`
pub data Cell (M : Type 0) : Type 0 where
  plain : Value → Cell M
  moment : String → M → Cell M

-- `row.get(column)`; a row is a dict from headers to cells
abbrev pub cell_at : {M : Type 0} → String → List (String × Cell M) → Cell M
cell_at column [] = plain null
cell_at column ((header, c) ∷ row) = if header == column then c else cell_at column row

-- `str(value)`, and `None`
unfoldable pub cell_text : {M : Type 0} → Cell M → Option String
cell_text (plain null) = none
cell_text (plain v) = some (str_of v)
cell_text (moment shown _) = some shown

-- a text, or `None` for the empty one
abbrev pub or_none : String → Option String
or_none s = if is_empty s then none else some s

stripped_text : Option String → Option String
stripped_text none = none
stripped_text (some s) = or_none (strip s)

-- `_order_text`: a whole float is written as an integer
unfoldable pub order_text : {M : Type 0} → Cell M → Option String
unfolding stripped_text
order_text (plain (float _ (number n true))) = or_none (str_int n)
order_text c = stripped_text (cell_text c)

read_decimal : Option String → Option Decimal
read_decimal none = none
read_decimal (some s) = if is_empty (strip s) then none else decimal (strip s)

-- `_decimal`
unfoldable pub cell_decimal : {M : Type 0} → Cell M → Option Decimal
unfolding read_decimal
cell_decimal c = read_decimal (cell_text c)

module _ (cal : Calendar) where
  open cal use {Zone, Moment, zone_info, parsers, is_naive, replaced, converted}

  -- the first parser that reads the text
  pub first_parsed : List (String → Option Moment) → String → Option Moment
  first_parsed [] s = none
  first_parsed (p ∷ ps) s = elim (p s) [ some m ↦ some m | none ↦ first_parsed ps s ]

  pub in_zone : Zone → Option Moment → Option DateTime
  in_zone zone none = none
  in_zone zone (some m) = some (if is_naive m then replaced zone m else converted zone m)

  -- `str(value).strip() in {"", "0"}`
  pub is_blank : String → Bool
  is_blank s = is_empty (strip s) || strip s == "0"

  parse_in : Option Zone → Cell Moment → Result (Option DateTime)
  parse_in none c = err payment_import_error
  parse_in (some zone) (moment _ m) = ok (in_zone zone (some m))
  parse_in (some zone) (plain v) = ok (in_zone zone (first_parsed parsers (strip (str_of v))))

  parse_text : String → Option String → Cell Moment → Result (Option DateTime)
  parse_text zone_name none c = ok none
  parse_text zone_name (some s) c = if is_blank s then ok none else parse_in (zone_info zone_name) c

  -- `_parse_datetime`
  unfoldable pub parse_datetime : Cell Moment → String → Result (Option DateTime)
  unfolding parse_text parse_in in_zone first_parsed is_blank
  parse_datetime c zone_name = parse_text zone_name (cell_text c) c

  required : Option DateTime → Result DateTime
  required none = err payment_import_error
  required (some t) = ok t

  -- `_window_datetime`
  unfoldable pub window_datetime : String → String → Result DateTime
  unfolding required
  window_datetime value zone_name = do required (← parse_datetime (plain (text value)) zone_name)

-- one parsed row
pub record ParsedRow : Type 0 where
  pub row_number : ℕ
  pub merchant_order_no : Option String
  pub platform_order_no : Option String
  pub amount : Option Decimal
  pub payment_status_raw : Option String
  pub payment_status_group : PaymentStatusGroup
  pub payment_time : Option DateTime
  pub invalid : Bool

-- the columns and the window that every row is read by
pub record Layout : Type 0 where
  pub merchant_column : String
  pub platform_column : String
  pub amount_column : String
  pub status_column : String
  pub payment_time_field : String
  pub payment_timezone : String
  pub success_values : List String
  pub window_lower : DateTime
  pub window_upper : DateTime

-- `"success" if raw in success_values else "non_success" if raw else "unknown"`
unfoldable pub status_group : List String → Option String → PaymentStatusGroup
status_group values none = unknown
status_group values (some raw) =
    if any_of (λ v. raw == v) values then success else if is_empty raw then unknown else non_success

-- `payment_time is not None and not (window_lower <= payment_time <= window_upper)`
abbrev pub outside : Layout → Option DateTime → Bool
outside layout none = false
outside layout (some t) =
    not (leb layout.window_lower.wall t.wall && leb t.wall layout.window_upper.wall)

-- the row of a time that is not outside the window
unfoldable pub parsed_row :
    {M : Type 0} → Layout → ℕ → List (String × Cell M) → Option DateTime → ParsedRow
parsed_row layout row_number row payment_time =
    let merchant = order_text (cell_at layout.merchant_column row) in
    let platform =
      if is_empty layout.platform_column
      then none
      else order_text (cell_at layout.platform_column row) in
    let amount = cell_decimal (cell_at layout.amount_column row) in
    let raw = order_text (cell_at layout.status_column row) in
    record {
      row_number = row_number;
      merchant_order_no = merchant;
      platform_order_no = platform;
      amount = amount;
      payment_status_raw = raw;
      payment_status_group = status_group layout.success_values raw;
      payment_time = payment_time;
      invalid =
          not (is_some merchant)
          || not (is_some amount)
          || not (is_some raw)
          || not (is_some payment_time);
    }

-- the rows that are kept, and how many were outside the window
module _ (cal : Calendar) where
  unfoldable pub parse_rows :
      Layout → List (ℕ × List (String × Cell cal.Moment)) → Result (List ParsedRow × ℕ)
  parse_rows layout [] = ok ([], 0)
  parse_rows layout ((number', row) ∷ rows) = do
    time ← parse_datetime cal (cell_at layout.payment_time_field row) layout.payment_timezone
    (kept, excluded) ← parse_rows layout rows
    ok (
        if outside layout time
        then (kept, suc excluded)
        else (parsed_row layout number' row time ∷ kept, excluded))
