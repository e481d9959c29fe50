-- ===== src/Import/Tests.antt =====
-- A file of three rows, one of them outside the window.
use raj_data_handle.Base.{
  ℕ, ◌≡◌, refl, String, true, Option, none, some, List, [], ◌∷◌, ok, ◌==◌, if◌then◌else◌,
}
use raj_data_handle.Value.{text, list, nil, item, end, field, get, str_or_empty}
use raj_data_handle.Text.{strip}
use raj_data_handle.Import.Parse.{
  Calendar, Cell, plain, Layout, ParsedRow, cell_text, parse_datetime, window_datetime, parsed_row,
  parse_rows,
}
use raj_data_handle.Import.Groups.{
  ImportRequest, PaymentImportResult, checked_layout, import_result, import_payment_orders,
}
use raj_data_handle.Import.Groups.Accounting.{IsAccounted, import-IsAccounted}

-- a calendar of one zone and one-letter days
day_of : String → Option ℕ
day_of s =
    if s == "a" then some 1 else if s == "b" then some 2 else if s == "c" then some 3 else none

abbrev calendar : Calendar
calendar = record {
  Zone = Unit;
  Moment = ℕ;
  zone_info = λ name. if name == "UTC" then some tt else none;
  parsers = day_of ∷ [];
  is_naive = λ m. true;
  replaced = λ z m. record { wall = m; isoformat = "" };
  converted = λ z m. record { wall = m; isoformat = "" };
}

abbrev cells : String → String → List (String × Cell ℕ)
cells number time =
    ("no", plain (text number))
    ∷ ("amt", plain (text "10.5"))
    ∷ ("st", plain (text "paid"))
    ∷ ("t", plain (text time))
    ∷ []

abbrev file_rows : List (ℕ × List (String × Cell ℕ))
file_rows = (2, cells "A1" "a") ∷ (3, cells "A2" "c") ∷ (4, cells "A1" "b") ∷ []

abbrev request : ImportRequest
request = record {
  platform_key = "k";
  source_sheet = "s";
  column_mapping = field "merchant_order_no" (text "no") (
      field "amount" (text "amt") (
        field "payment_status" (text "st")
          (field "candidate_time_fields" (list "" (item (text "t") nil)) end)));
  success_status_values = item (text "paid") nil;
  payment_time_field = "t";
  payment_timezone = "UTC";
  window_start = "a";
  window_end = "b";
  currency = "INR";
}

abbrev layout : Layout
layout = record {
  merchant_column = "no";
  platform_column = "";
  amount_column = "amt";
  status_column = "st";
  payment_time_field = "t";
  payment_timezone = "UTC";
  success_values = "paid" ∷ [];
  window_lower = record { wall = 1; isoformat = "" };
  window_upper = record { wall = 2; isoformat = "" };
}

abbrev first_row : ParsedRow
first_row = parsed_row layout 2 (cells "A1" "a") (some (record { wall = 1; isoformat = "" }))

abbrev second_row : ParsedRow
second_row = parsed_row layout 4 (cells "A1" "b") (some (record { wall = 2; isoformat = "" }))

abbrev imported : PaymentImportResult
imported = import_result (λ s. s) request 3 (first_row ∷ second_row ∷ [], 1)

imports : import_payment_orders (λ s. s) calendar request (ok file_rows) ≡ ok imported
unfolding import_payment_orders checked_layout str_or_empty get window_datetime parse_datetime
    cell_text strip day_of parse_rows
imports = refl

import-IsAccounted_example : IsAccounted (2 ∷ 3 ∷ 4 ∷ []) imported
import-IsAccounted_example = import-IsAccounted (λ s. s) calendar request file_rows imported imports
