-- ===== src/Templates/Detection/Matched.antt =====
-- payment_template_service.py: what a detected template has.
use raj_data_handle.Base.{
  ℕ, ◌≡◌, ◌≢◌, ◌≤◌, refl, sym, ap, ◌∙◌, String, Bool, true, false, not, ◌&&◌, Option, none, some,
  List, [], ◌∷◌, length, length-keep, Member, Result, ok, >>=-eq-ok, ok-injective, ◌==◌,
  if◌then◌else◌, Bool-cases, inl, inr, arith, eq_iff,
}
use mathlib.Core.Path.{subst}
use raj_data_handle.Text.{is_empty}
use raj_data_handle.Templates.{HeaderCandidate, Upload, read_header_candidates}
use raj_data_handle.Templates.Detection.{
  Template, has, header_set, shared, Best, score, improves, better, sheet_matches, is_full,
  Detection, response_of, over_templates, over_candidates, detected_in, detect_payment_template,
}

-- a set has the headers of its list but the empty one
pub has-header_set :
    (h : String) (headers : List String)
    → has h (header_set headers) ≡ (not (is_empty h) && has h headers)
unfolding header_set
has-header_set h [] = ground arith
has-header_set h (x ∷ headers) =
    ground (arith, eq_iff x h, has-header_set h headers, has-header_set x headers)

shared-all :
    (h : String) (expected detected : List String)
    → length (shared expected detected) ≡ length expected
    → has h expected ≡ true
    → has h detected ≡ true
shared-all h [] detected e m = cc
shared-all h (x ∷ expected) detected e m =
    ground (
      arith,
      eq_iff x h,
      shared-all h expected detected,
      length-keep (λ y. has y detected) expected,
    )

pub not_matched : ◌≢◌ {A = String} "unknown" "matched"
not_matched k =
    let same : ("unknown" == "matched") ≡ true =
      subst (λ (x : String). (x == "matched") ≡ true) (sym k) refl in
    cc same

-- a property of the best template so far
abbrev pub Holds : (Best → Type 0) → Option Best → Type 0
Holds P none = Unit
Holds P (some b) = P b

pub better-Holds :
    (P : Best → Type 0) (o : Option Best) (b : Best) → Holds P o → P b → P (better o b)
unfolding better
better-Holds P none b h k = k
better-Holds P (some best) b h k = elim (Bool-cases (improves b best)) [
  | inl e ↦ rw e k
  | inr e ↦ rw e h
]

module _ (search : (pattern sheet_name : String) → Result Bool) where
  -- the template and the sheet of a candidate go together
  abbrev pub Fits : HeaderCandidate → Template → Type 0
  Fits candidate template =
      sheet_matches search template.sheet_name_pattern candidate.sheet_name ≡ ok true

  pub over_templates-Holds :
      (P : Best → Type 0) (candidate : HeaderCandidate) (templates : List Template)
      (best next : Option Best)
      → ((t : Template) → Member t templates → Fits candidate t → P (score candidate t))
      → Holds P best
      → over_templates search candidate templates best ≡ ok next
      → Holds P next
  unfolding over_templates
  over_templates-Holds P candidate [] best next new h e = subst (Holds P) (ok-injective e) h
  over_templates-Holds P candidate (t ∷ templates) best next new h e =
      let (b, m, e₁) =
        >>=-eq-ok (sheet_matches search t.sheet_name_pattern candidate.sheet_name) _ e in
      elim (Bool-cases b) [
        | inl k ↦
            over_templates-Holds P candidate templates (some (better best (score candidate t))) next
              (λ u v. new u (inr v))
              (better-Holds P best (score candidate t) h (new t (inl refl) (m ∙ ap ok k)))
              (subst
                (λ c.
                  over_templates search candidate templates
                    (if c then some (better best (score candidate t)) else best)
                  ≡ ok next)
                k e₁)
        | inr k ↦
            over_templates-Holds P candidate templates best next (λ u v. new u (inr v)) h
              (subst
                (λ c.
                  over_templates search candidate templates
                    (if c then some (better best (score candidate t)) else best)
                  ≡ ok next)
                k e₁)
      ]

  pub over_candidates-Holds :
      (P : Best → Type 0) (candidates : List HeaderCandidate) (templates : List Template)
      (best next : Option Best)
      → ((c : HeaderCandidate) (t : Template)
          → Member c candidates
          → Member t templates
          → Fits c t
          → P (score c t))
      → Holds P best
      → over_candidates search candidates templates best ≡ ok next
      → Holds P next
  unfolding over_candidates
  over_candidates-Holds P [] templates best next new h e = subst (Holds P) (ok-injective e) h
  over_candidates-Holds P (c ∷ candidates) templates best next new h e =
      let (b, m, e₁) = >>=-eq-ok (over_templates search c templates best) _ e in
      over_candidates-Holds P candidates templates b next (λ d t v. new d t (inr v))
        (over_templates-Holds P c templates best b (λ t. new c t (inl refl)) h m) e₁

  -- A recognised file: a candidate has every header of a template that has any, and its sheet fits
  pub record IsRecognised (templates : List Template) (candidates : List HeaderCandidate)
      (d : Detection) : Type 0 where
    pub candidate : HeaderCandidate
    pub read : Member candidate candidates
    pub template : Template
    pub listed : Member template templates
    pub fits : Fits candidate template
    pub some_header : 1 ≤ length (header_set template.header_signature)
    pub complete :
        (h : String)
        → is_empty h ≡ false
        → has h template.header_signature ≡ true
        → has h candidate.headers ≡ true
    pub returned : d.template ≡ some template
    pub sheet : d.source_sheet ≡ candidate.sheet_name
    pub number : d.header_row ≡ candidate.header_row
    pub headers : d.detected_headers ≡ candidate.headers

  -- the score of one of the candidates and one of the templates
  abbrev pub IsScore : List HeaderCandidate → List Template → Best → Type 0
  IsScore candidates templates b =
      (c : HeaderCandidate) × (t : Template) × Member c candidates
      × Member t templates
      × Fits c t
      × (b ≡ score c t)

  score-full :
      (c : HeaderCandidate) (t : Template)
      → is_full (score c t) ≡ true
      → (1 ≤ length (header_set t.header_signature))
        × (length (shared (header_set t.header_signature) (header_set c.headers))
            ≡ length (header_set t.header_signature))
  unfolding is_full
  score-full c t h =
      let at_most =
        length-keep (λ x. has x (header_set c.headers)) (header_set t.header_signature) in
      (ground (arith, h, at_most), ground (arith, h, at_most))

  recognised :
      (upload : Upload) (templates : List Template) (candidates : List HeaderCandidate)
      (first : HeaderCandidate) (o : Option Best)
      → Holds (IsScore candidates templates) o
      → (response_of upload first o).status ≡ "matched"
      → IsRecognised templates candidates (response_of upload first o)
  unfolding response_of
  recognised upload templates candidates first none h k = absurd (not_matched k)
  recognised upload templates candidates first (some b) (c, t, read, listed, fits, is_score) k =
      elim (Bool-cases (is_full b)) [
        | inl full ↦
            let (some_header, all) = score-full c t (ap is_full (sym is_score) ∙ full) in
            rw full (record {
              candidate = c;
              read = read;
              template = t;
              listed = listed;
              fits = fits;
              some_header = some_header;
              complete = λ h not_empty expected. ground (
                arith,
                has-header_set h t.header_signature,
                has-header_set h c.headers,
                shared-all h (header_set t.header_signature) (header_set c.headers) all,
              );
              returned = ap (λ (x : Best). some x.template) is_score;
              sheet = ap (λ (x : Best). x.candidate.sheet_name) is_score;
              number = ap (λ (x : Best). x.candidate.header_row) is_score;
              headers = ap (λ (x : Best). x.candidate.headers) is_score;
            })
        | inr partial ↦
            let unmatched : (response_of upload first (some b)).status ≡ "unknown" =
              rw partial refl in
            absurd (not_matched (sym unmatched ∙ k))
      ]

  -- If the detection answers `matched`, its template is one of the templates and its sheet and headers are a
  -- candidate's of the file, that candidate has every header of the template, of which there is at least one,
  -- and the template's pattern fits the sheet.
  pub detect-IsRecognised :
      (header_row : Option ℕ) (templates : List Template) (upload : Upload) (d : Detection)
      → detect_payment_template search header_row templates upload ≡ ok d
      → d.status ≡ "matched"
      → (candidates : List HeaderCandidate) × (read_header_candidates header_row upload
          ≡ ok candidates)
        × IsRecognised templates candidates d
  unfolding detect_payment_template detected_in
  detect-IsRecognised header_row templates upload d h k =
      let (candidates, read, h₁) = >>=-eq-ok (read_header_candidates header_row upload) _ h in
      (candidates, read, found candidates h₁)
    where
      found :
          (candidates : List HeaderCandidate)
          → detected_in search upload templates candidates ≡ ok d
          → IsRecognised templates candidates d
      found [] e = cc
      found (first ∷ rest) e =
          let (best, m, e₁) =
            >>=-eq-ok (over_candidates search (first ∷ rest) templates none) _ e in
          let same = ok-injective e₁ in
          let holds =
            over_candidates-Holds (IsScore (first ∷ rest) templates) (first ∷ rest) templates none
              best (λ c t mc mt fits. (c, t, mc, mt, fits, refl)) tt m in
          subst (IsRecognised templates (first ∷ rest)) same (
            recognised upload templates (first ∷ rest) first best holds
              (ap (λ (x : Detection). x.status) same ∙ k))
