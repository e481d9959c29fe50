-- ===== src/Templates/Detection.antt =====
-- payment_template_service.py: `detect_payment_template`, the best of the templates.
pub mod Matched
pub mod Complete
use raj_data_handle.Base.{
  ℕ, ◌*◌, String, Bool, true, false, not, ◌&&◌, ◌||◌, Option, none, some, List, [], ◌∷◌, length,
  keep, any_of, Result, ok, err, ◌>>=◌, template_detection_error, ltb, leb, eqb, ◌==◌,
  if◌then◌else◌,
}
use raj_data_handle.Text.{is_empty}
use raj_data_handle.Templates.{HeaderCandidate, Upload, read_header_candidates}

-- `PaymentTemplateResponse`, in what the detection reads of it
pub record Template : Type 0 where
  pub id : ℕ
  pub business_type : String
  pub sheet_name_pattern : Option String
  pub header_signature : List String

abbrev pub has : String → List String → Bool
has h headers = any_of (λ x. x == h) headers

-- `{header for header in headers if header}`, as a list without repetitions
unfoldable pub header_set : List String → List String
header_set [] = []
header_set (h ∷ headers) =
    let rest = header_set headers in if is_empty h || has h rest then rest else h ∷ rest

-- `expected & detected`
abbrev pub shared : List String → List String → List String
shared expected detected = keep (λ h. has h detected) expected

-- The template that is the best so far. The coverage is the fraction `covered / total`, and 0 where `total`
-- is 0. Two different fractions of so few headers are different floats in the same order.
pub record Best : Type 0 where
  pub covered : ℕ
  pub total : ℕ
  pub candidate : HeaderCandidate
  pub template : Template

abbrev pub score : HeaderCandidate → Template → Best
score candidate template =
    let expected = header_set template.header_signature in
    record {
      covered = length (shared expected (header_set candidate.headers));
      total = length expected;
      candidate = candidate;
      template = template;
    }

-- `total`, or 1 under a coverage of 0
abbrev pub denominator : Best → ℕ
denominator b = if eqb b.total 0 then 1 else b.total

-- `score > (best[0], best[1])`
unfoldable pub improves : Best → Best → Bool
improves b best =
    ltb (best.covered * denominator b) (b.covered * denominator best)
    || eqb (best.covered * denominator b) (b.covered * denominator best) && ltb best.total b.total

-- `best is None or score > …`
unfoldable pub better : Option Best → Best → Best
better none b = b
better (some best) b = if improves b best then b else best

-- `not pattern or re.search(pattern, sheet_name) is not None`
unfoldable pub sheet_matches :
    (search : (pattern sheet_name : String) → Result Bool) → Option String → String → Result Bool
sheet_matches search none sheet_name = ok true
sheet_matches search (some pattern) sheet_name =
    if is_empty pattern then ok true else search pattern sheet_name

-- `best[0] < 1.0`, turned round; there is a best one
unfoldable pub is_full : Best → Bool
is_full b = leb (denominator b) b.covered

-- `TemplateDetectionResponse`
pub record Detection : Type 0 where
  pub status : String
  pub file_name : String
  pub source_sheet : String
  pub header_row : ℕ
  pub detected_headers : List String
  -- numerator and denominator
  pub header_coverage : ℕ × ℕ
  pub template : Option Template

unknown_response : Upload → HeaderCandidate → (coverage : ℕ × ℕ) → Detection
unknown_response upload candidate coverage = record {
  status = "unknown";
  file_name = upload.file_name;
  source_sheet = candidate.sheet_name;
  header_row = candidate.header_row;
  detected_headers = candidate.headers;
  header_coverage = coverage;
  template = none;
}

matched_response : Upload → Best → Detection
matched_response upload best = record {
  status = "matched";
  file_name = upload.file_name;
  source_sheet = best.candidate.sheet_name;
  header_row = best.candidate.header_row;
  detected_headers = best.candidate.headers;
  header_coverage = (best.covered, denominator best);
  template = some best.template;
}

-- the response; there is at least one candidate
unfoldable pub response_of : Upload → HeaderCandidate → Option Best → Detection
unfolding unknown_response matched_response
response_of upload first none = unknown_response upload first (0, 1)
response_of upload first (some best) =
    if is_full best
    then matched_response upload best
    else unknown_response upload first (best.covered, denominator best)

module _ (search : (pattern sheet_name : String) → Result Bool) where
  -- the inner loop
  unfoldable pub over_templates :
      HeaderCandidate → List Template → Option Best → Result (Option Best)
  over_templates candidate [] best = ok best
  over_templates candidate (template ∷ templates) best = do
    matches ← sheet_matches search template.sheet_name_pattern candidate.sheet_name
    over_templates candidate templates
        (if matches then some (better best (score candidate template)) else best)

  -- the outer loop
  unfoldable pub over_candidates :
      List HeaderCandidate → List Template → Option Best → Result (Option Best)
  over_candidates [] templates best = ok best
  over_candidates (candidate ∷ candidates) templates best = do
    next ← over_templates candidate templates best
    over_candidates candidates templates next

  detected_in : Upload → List Template → List HeaderCandidate → Result Detection
  detected_in upload templates [] = err template_detection_error
  detected_in upload templates (first ∷ candidates) = do
    best ← over_candidates (first ∷ candidates) templates none
    ok (response_of upload first best)

  -- `detect_payment_template` with the templates of `list_payment_templates`
  unfoldable pub detect_payment_template :
      (header_row : Option ℕ) → List Template → Upload → Result Detection
  unfolding detected_in
  detect_payment_template header_row templates upload = do
    candidates ← read_header_candidates header_row upload
    detected_in upload templates candidates
