-- ===== src/Results/Export.antt =====
-- result_service.py: an export has every row, and which of its texts a spreadsheet could run.
use Prim.Native.Char.{code}
use raj_data_handle.Base.{ℕ, ◌≡◌, ◌≢◌, ◌⊎◌, String, Option, none, some, List, [], ◌∷◌, map}
use raj_data_handle.Value.{Value, text}
use raj_data_handle.Batch.{Batch}
use raj_data_handle.Execution.Steps.{OrderResult}
use raj_data_handle.Results.{status_text}

abbrev pub all_details : String
all_details = "全部明细"

-- the first character of a text
abbrev pub first_code : String → Option ℕ
first_code String.[] = none
first_code (String.◌∷◌ c s) = some (code c)

-- a cell that begins no formula: its text starts with none of = + - @
abbrev pub IsInert : Value → Type 0
IsInert (text s) =
    (first_code s ≢ some b'=')
    × (first_code s ≢ some b'+')
    × (first_code s ≢ some b'-')
    × (first_code s ≢ some b'@')
IsInert _ = Unit

abbrev statuses_of : List OrderResult → List String
statuses_of rows = map (λ (row : OrderResult). status_text row.result_status) rows

-- a cell of the workbook: inert, or one of the two texts of the batch that stand in its first sheet
-- as they are
abbrev pub IsExported : Batch → Value → Type 0
IsExported batch cell =
    IsInert cell ⊎ (cell ≡ text batch.id) ⊎ (cell ≡ text batch.source_display_name)
