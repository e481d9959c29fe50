-- ===== src/Templates.antt =====
-- packages/domain/services/payment_template_service.py: the headers of an uploaded file.
pub mod Detection
mod Tests
use raj_data_handle.Base.{
  ℕ, zero, suc, ◌+◌, ◌-◌, ◌*◌, String, Bool, true, false, not, ◌&&◌, ◌||◌, Option, none, some, List,
  [], ◌∷◌, ◌++◌, map, length, take, keep, any_of, Result, ok, err, raise_if, bind_result, ◌>>=◌,
  ◌>>◌, template_detection_error, ltb, leb, eqb, ◌==◌, is_some, if◌then◌else◌,
}
use raj_data_handle.Text.{is_empty, strip}
use raj_data_handle.Value.{Value, null, str_of}

-- `HeaderCandidate`
pub record HeaderCandidate : Type 0 where
  pub sheet_name : String
  pub header_row : ℕ
  pub headers : List String

-- What openpyxl or the csv module reads: the rows of a worksheet one after the other, until one raises.
pub data Rows : Type 0 where
  no_more : Rows
  broken : Rows
  row : (cells : List Value) → Rows → Rows

pub record Worksheet : Type 0 where
  pub title : String
  pub rows : Rows

-- An upload: the suffix of its name in lower case, and its content as the libraries read it. `none` is the
-- exception of `load_workbook`, and for a CSV file the text that is in neither encoding.
pub record Upload : Type 0 where
  pub file_name : String
  pub suffix : String
  pub worksheets : Option (List Worksheet)
  pub csv_rows : Option Rows

-- `str(value).strip() if value is not None else ""`
abbrev header_text : Value → String
header_text null = ""
header_text value = strip (str_of value)

-- `_normalize_headers`
unfoldable pub normalize_headers : List Value → List String
normalize_headers values = map header_text values

-- `any(headers)`
abbrev any_header : List String → Bool
any_header headers = any_of (λ h. not (is_empty h)) headers

candidate_of : (sheet_name : String) → ℕ → List String → HeaderCandidate
candidate_of sheet_name n headers = record {
  sheet_name = sheet_name;
  header_row = n;
  headers = headers;
}

-- the row with the with_candidate number, the first being 1, and none of it where there is no such row
row_at : ℕ → Rows → Result (List Value)
row_at n no_more = ok []
row_at n broken = err template_detection_error
row_at zero (row cells rest) = ok cells
row_at (suc n) (row cells rest) = row_at n rest

-- the candidate in a row, if it has any header
abbrev in_row : (sheet_name : String) → ℕ → List Value → Option HeaderCandidate
in_row sheet_name n cells =
    let headers = normalize_headers cells in
    if any_header headers then some (candidate_of sheet_name n headers) else none

-- the first row with a header among the next `fuel` ones; `n` is the number of the first of them
first_header : (sheet_name : String) → (fuel n : ℕ) → Rows → Result (Option HeaderCandidate)
unfolding candidate_of
first_header sheet_name zero n rows = ok none
first_header sheet_name (suc fuel) n no_more = ok none
first_header sheet_name (suc fuel) n broken = err template_detection_error
first_header sheet_name (suc fuel) n (row cells rest) =
    let later = first_header sheet_name fuel (n + 1) rest in
    elim (in_row sheet_name n cells) [ none ↦ later | some candidate ↦ ok (some candidate) ]

-- the candidate of one worksheet, or of a CSV file; the rows are counted from 1
unfoldable pub in_sheet :
    (header_row : Option ℕ) → (sheet_name : String) → Rows → Result (Option HeaderCandidate)
unfolding row_at first_header
in_sheet none sheet_name rows = first_header sheet_name 20 1 rows
in_sheet (some n) sheet_name rows =
    bind_result (row_at (n - 1) rows) λ cells. ok (in_row sheet_name n cells)

with_candidate : {A : Type 0} → Option A → List A → List A
with_candidate none rest = rest
with_candidate (some a) rest = a ∷ rest

-- `_xlsx_candidates`
unfoldable pub xlsx_candidates :
    (header_row : Option ℕ) → List Worksheet → Result (List HeaderCandidate)
unfolding with_candidate
xlsx_candidates header_row [] = ok []
xlsx_candidates header_row (sheet ∷ sheets) = do
  candidate ← in_sheet header_row sheet.title sheet.rows
  rest ← xlsx_candidates header_row sheets
  ok (with_candidate candidate rest)

-- to the end of the file, where no row has the number 0
no_row : Rows → Result (Option HeaderCandidate)
no_row no_more = ok none
no_row broken = err template_detection_error
no_row (row cells rest) = no_row rest

in_csv : (header_row : Option ℕ) → Rows → Result (Option HeaderCandidate)
unfolding no_row
in_csv (some zero) rows = no_row rows
in_csv header_row rows = in_sheet header_row "CSV" rows

-- `_csv_candidate`
unfoldable pub csv_candidate : (header_row : Option ℕ) → Option Rows → Result (List HeaderCandidate)
unfolding with_candidate in_csv
csv_candidate header_row none = err template_detection_error
csv_candidate header_row (some rows) = do
  candidate ← in_csv header_row rows
  ok (with_candidate candidate [])

worksheets_of : Option (List Worksheet) → Result (List Worksheet)
worksheets_of none = err template_detection_error
worksheets_of (some sheets) = ok sheets

abbrev is_nil : {A : Type 0} → List A → Bool
is_nil [] = true
is_nil (_ ∷ _) = false

-- `read_header_candidates`; every exception of the reading becomes a `TemplateDetectionError`
unfoldable pub read_header_candidates :
    (header_row : Option ℕ) → Upload → Result (List HeaderCandidate)
unfolding worksheets_of
read_header_candidates header_row upload = do
  candidates ←
      (if upload.suffix == ".xlsx"
        then bind_result (worksheets_of upload.worksheets) (xlsx_candidates header_row)
        else if upload.suffix == ".csv"
        then csv_candidate header_row upload.csv_rows
        else err template_detection_error)
  raise_if (is_nil candidates) template_detection_error
  ok candidates
