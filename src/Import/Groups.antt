-- ===== src/Import/Groups.antt =====
-- payment_import_service.py: grouping the parsed rows by order number, and `import_payment_orders`.
-- SHA-256 of the library `hashlib` is an argument.
pub mod Accounting
use raj_data_handle.Base.{
  ℕ, ◌+◌, String, Bool, true, false, not, ◌&&◌, ◌||◌, Option, none, some, List, [], ◌∷◌, ◌++◌, map,
  Result, ok, err, ◌>>=◌, ◌>>◌, raise_if, payment_import_error, leb, ltb, any_of, length, ◌==◌,
  if◌then◌else◌,
}
use Prim.Native.String
use raj_data_handle.Text.{is_empty, strip, str_ℕ}
use raj_data_handle.Value.{Value, text, list, Items, nil, item, Fields, get, str_of, str_or_empty}
use raj_data_handle.Decimal.{Decimal, decimal_text}
use raj_data_handle.Payment.{
  DateTime, PaymentOrderGroup, ResultStatus, invalid_payment_row, duplicate_payment_conflict,
}
use raj_data_handle.Import.Parse.{Calendar, Cell, ParsedRow, Layout, window_datetime, parse_rows}

-- a group under its key: the first row and those after it
pub record Group : Type 0 where
  pub key : String
  pub first : ParsedRow
  pub rest : List ParsedRow

abbrev pub members : Group → List ParsedRow
members g = g.first ∷ g.rest

-- `row["merchant_order_no"] or f"invalid-row:{row['row_number']}"`
unfoldable pub group_key : ParsedRow → String
group_key row = elim row.merchant_order_no [
  | none ↦ String.◌++◌ "invalid-row:" (str_ℕ row.row_number)
  | some s ↦ if is_empty s then String.◌++◌ "invalid-row:" (str_ℕ row.row_number) else s
]

-- `grouped.setdefault(group_key, []).append(row)`
unfoldable pub add_row : String → ParsedRow → List Group → List Group
add_row key row [] = record { key = key; first = row; rest = [] } ∷ []
add_row key row (g ∷ groups) =
    if g.key == key
    then record g { rest = g.rest ++ row ∷ [] } ∷ groups
    else g ∷ add_row key row groups

unfoldable pub group_rows : List ParsedRow → List Group → List Group
group_rows [] groups = groups
group_rows (row ∷ rows) groups = group_rows rows (add_row (group_key row) row groups)

abbrev same_text : Option String → Option String → Bool
same_text none none = true
same_text (some s) (some t) = s == t
same_text _ _ = false

abbrev amount_text : Option Decimal → Option String
amount_text none = none
amount_text (some a) = some (decimal_text a)

abbrev time_text : Option DateTime → Option String
time_text none = none
time_text (some t) = some t.isoformat

-- equality of two fingerprints
unfoldable pub same_fingerprint : ParsedRow → ParsedRow → Bool
same_fingerprint a b =
    same_text a.merchant_order_no b.merchant_order_no
    && same_text a.platform_order_no b.platform_order_no
    && same_text (amount_text a.amount) (amount_text b.amount)
    && same_text a.payment_status_raw b.payment_status_raw
    && same_text (time_text a.payment_time) (time_text b.payment_time)

-- `invalid_payment_row` if any member is invalid, or else `duplicate_payment_conflict` if the set
-- of fingerprints has more than the first one's
unfoldable pub preliminary_status : Group → Option ResultStatus
preliminary_status g =
    if any_of (λ (m : ParsedRow). m.invalid) (members g)
    then some invalid_payment_row
    else if any_of (λ m. not (same_fingerprint g.first m)) g.rest
    then some duplicate_payment_conflict
    else none

pub record PaymentImportResult : Type 0 where
  pub groups : List PaymentOrderGroup
  pub source_rows : ℕ
  pub included_rows : ℕ
  pub excluded_outside_window : ℕ

-- `[str(value).strip() …]` of the success values
abbrev stripped_values : Items → List String
stripped_values nil = []
stripped_values (item v rest) = strip (str_of v) ∷ stripped_values rest

-- `field in candidate_times`
abbrev has_text : String → Items → Bool
has_text s nil = false
has_text s (item (text t) rest) = if t == s then true else has_text s rest
has_text s (item _ rest) = has_text s rest

-- the test on `candidate_time_fields`
abbrev is_candidate : String → Value → Bool
is_candidate s (list _ times) = has_text s times
is_candidate s _ = false

-- the arguments of `import_payment_orders` beside the file
pub record ImportRequest : Type 0 where
  pub platform_key : String
  pub source_sheet : String
  pub column_mapping : Fields
  pub success_status_values : Items
  pub payment_time_field : String
  pub payment_timezone : String
  pub window_start : String
  pub window_end : String
  pub currency : String

module _ (sha256 : String → String) where
  -- one `PaymentOrderGroup`
  unfoldable pub order_group : ImportRequest → Group → PaymentOrderGroup
  order_group request g = record {
    order_group_id = sha256 (String.◌++◌ request.platform_key (String.◌++◌ ":" g.key));
    merchant_order_no = g.first.merchant_order_no;
    platform_order_no = g.first.platform_order_no;
    amount = g.first.amount;
    currency = request.currency;
    payment_status_raw = g.first.payment_status_raw;
    payment_status_group = g.first.payment_status_group;
    payment_time = g.first.payment_time;
    source_sheet = request.source_sheet;
    source_row_numbers = map (λ (m : ParsedRow). m.row_number) (members g);
    duplicate_count = length (members g);
    preliminary_result_status = preliminary_status g;
    platform_key = request.platform_key;
  }

  -- what is made of the rows that were parsed
  unfoldable pub import_result : ImportRequest → ℕ → List ParsedRow × ℕ → PaymentImportResult
  import_result request source_rows (kept, excluded) = record {
    groups = map (order_group request) (group_rows kept []);
    source_rows = source_rows;
    included_rows = length kept;
    excluded_outside_window = excluded;
  }

  module _ (cal : Calendar) where
    -- the checks on the columns and the window
    unfoldable pub checked_layout : ImportRequest → Result Layout
    checked_layout request = do
      let column = λ (name : String). str_or_empty (get name request.column_mapping)
      raise_if
          (is_empty (column "merchant_order_no")
            || is_empty (column "amount")
            || is_empty (column "payment_status"))
          payment_import_error
      raise_if
          (not (
            is_candidate request.payment_time_field
              (get "candidate_time_fields" request.column_mapping)))
          payment_import_error
      lower ← window_datetime cal request.window_start request.payment_timezone
      upper ← window_datetime cal request.window_end request.payment_timezone
      raise_if (ltb upper.wall lower.wall) payment_import_error
      ok (record {
        merchant_column = column "merchant_order_no";
        platform_column = column "platform_order_no";
        amount_column = column "amount";
        status_column = column "payment_status";
        payment_time_field = request.payment_time_field;
        payment_timezone = request.payment_timezone;
        success_values = stripped_values request.success_status_values;
        window_lower = lower;
        window_upper = upper;
      })

    -- The checks come before the first row is read. `rows` are the rows of the file, or what reading
    -- them raises.
    unfoldable pub import_payment_orders :
        ImportRequest
        → Result (List (ℕ × List (String × Cell cal.Moment)))
        → Result PaymentImportResult
    import_payment_orders request rows = do
      layout ← checked_layout request
      file_rows ← rows
      parsed ← parse_rows cal layout file_rows
      ok (import_result request (length file_rows) parsed)
