-- ===== src/Templates/Tests.antt =====
-- payment_template_service.py at a file with one sheet.
use raj_data_handle.Base.{
  ◌≡◌, ◌≤◌, refl, String, Bool, true, false, none, some, List, [], ◌∷◌, length, Result, ok, err,
  inl, template_detection_error, arith, ◌==◌,
}
use raj_data_handle.Value.{null, text, str_of}
use raj_data_handle.Text.{is_empty, strip}
use raj_data_handle.Templates.{
  HeaderCandidate, Upload, Worksheet, no_more, broken, row, read_header_candidates, xlsx_candidates,
  in_sheet, normalize_headers,
}
use raj_data_handle.Templates.Detection.{
  Template, has, header_set, Detection, detect_payment_template, over_candidates, over_templates,
  sheet_matches, response_of, is_full, better, improves,
}
use raj_data_handle.Templates.Detection.Matched.{IsRecognised, detect-IsRecognised}
use raj_data_handle.Templates.Detection.Complete.{detect_complete}

abbrev sheet : Worksheet
sheet = record {
  title = "S";
  rows = row (null ∷ null ∷ []) (row (text "a" ∷ text " b " ∷ text "c" ∷ []) no_more);
}

abbrev upload : Upload
upload = record {
  file_name = "f.xlsx";
  suffix = ".xlsx";
  worksheets = some (sheet ∷ []);
  csv_rows = none;
}

abbrev candidate : HeaderCandidate
candidate = record { sheet_name = "S"; header_row = 2; headers = "a" ∷ "b" ∷ "c" ∷ [] }

abbrev small : Template
small = record {
  id = 1;
  business_type = "payin";
  sheet_name_pattern = none;
  header_signature = "a" ∷ [];
}

abbrev large : Template
large = record {
  id = 2;
  business_type = "payin";
  sheet_name_pattern = some "S";
  header_signature = "b" ∷ "a" ∷ "b" ∷ [];
}

abbrev search : (pattern sheet_name : String) → Result Bool
search pattern sheet_name = ok (pattern == sheet_name)

abbrev detection : Detection
detection = record {
  status = "matched";
  file_name = "f.xlsx";
  source_sheet = "S";
  header_row = 2;
  detected_headers = "a" ∷ "b" ∷ "c" ∷ [];
  header_coverage = (2, 2);
  template = some large;
}

candidates_read : read_header_candidates none upload ≡ ok (candidate ∷ [])
unfolding read_header_candidates xlsx_candidates in_sheet normalize_headers strip str_of
candidates_read = refl

no_such_row : read_header_candidates (some 3) upload ≡ err template_detection_error
unfolding read_header_candidates xlsx_candidates in_sheet normalize_headers
no_such_row = refl

broken_file :
    read_header_candidates none
      (record upload { worksheets = some (record { title = "S"; rows = broken } ∷ []) })
    ≡ err template_detection_error
unfolding read_header_candidates xlsx_candidates in_sheet
broken_file = refl

detected : detect_payment_template search none (small ∷ large ∷ []) upload ≡ ok detection
unfolding detect_payment_template read_header_candidates xlsx_candidates in_sheet normalize_headers
    strip str_of over_candidates over_templates sheet_matches response_of is_full better improves
    header_set
detected = refl

detect-IsRecognised_example :
    (candidates : List HeaderCandidate) × (read_header_candidates none upload ≡ ok candidates)
    × IsRecognised search (small ∷ large ∷ []) candidates detection
detect-IsRecognised_example =
    detect-IsRecognised search none (small ∷ large ∷ []) upload detection detected refl

has_all :
    (h : String)
    → is_empty h ≡ false
    → has h small.header_signature ≡ true
    → has h candidate.headers ≡ true
has_all h not_empty m = ground arith

one_header : 1 ≤ length (header_set small.header_signature)
unfolding header_set
one_header = ground arith

detect_complete_example :
    (detection.status ≡ "matched") × (length (header_set small.header_signature) ≤ 2)
unfolding sheet_matches
detect_complete_example =
    detect_complete search none (small ∷ large ∷ []) upload detection (candidate ∷ []) candidate
      small detected candidates_read (inl refl) (inl refl) refl has_all one_header
