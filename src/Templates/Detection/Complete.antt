-- ===== src/Templates/Detection/Complete.antt =====
-- payment_template_service.py: a file that has all headers of a template is recognised.
use raj_data_handle.Base.{
  ℕ, ◌≡◌, ◌≤◌, ◌*◌, refl, sym, ap, ◌∙◌, String, Bool, true, false, Option, none, some, List, [],
  ◌∷◌, length, length-keep, Member, Result, ok, >>=-eq-ok, ok-injective, leb, if◌then◌else◌,
  Bool-cases, inl, inr, arith, eq_iff,
}
use native.Mathlib.Nat.{le_of_mul-le-mul_left, mul_comm}
use mathlib.Core.Path.{subst}
use raj_data_handle.Text.{is_empty}
use raj_data_handle.Templates.{HeaderCandidate, Upload, read_header_candidates}
use raj_data_handle.Templates.Detection.{
  Template, has, header_set, shared, Best, score, denominator, improves, better, sheet_matches,
  is_full, Detection, response_of, over_templates, over_candidates, detected_in,
  detect_payment_template,
}
use raj_data_handle.Templates.Detection.Matched.{
  Holds, better-Holds, Fits, over_templates-Holds, has-header_set,
}

-- a best one that is complete and has at least `n` headers
abbrev Full : ℕ → Best → Type 0
Full n b = (b.covered ≡ b.total) × (n ≤ b.total)

-- against a complete one with a header
Full-improves :
    (s b : Best)
    → s.covered ≡ s.total
    → 1 ≤ s.total
    → b.covered ≤ b.total
    → improves s b ≡ false
    → Full s.total b
unfolding improves
Full-improves s b full some_header at_most worse =
    let d : denominator s ≡ s.total = ground arith in
    let less : s.total * denominator b ≤ s.total * b.covered =
      ground (arith, d, mul_comm s.total b.covered) in
    let cancelled = le_of_mul-le-mul_left less some_header in
    let e : b.covered ≡ b.total = ground (arith, cancelled) in
    let f : denominator b ≡ b.total = ground (arith, cancelled) in
    (e, ground (arith, worse, d, e, f, full, mul_comm b.total s.total))

-- a complete best one stays or gives way to one that is complete with more headers
improves-Full :
    (s b : Best)
    → s.covered ≤ s.total
    → b.covered ≡ b.total
    → 1 ≤ b.total
    → improves s b ≡ true
    → Full b.total s
unfolding improves
improves-Full s b at_most full some_header wins =
    let d : denominator b ≡ b.total = ground arith in
    let less : b.total * denominator s ≤ b.total * s.covered =
      ground (arith, d, wins, full, mul_comm s.covered b.total) in
    let cancelled = le_of_mul-le-mul_left less some_header in
    let e : s.covered ≡ s.total = ground (arith, cancelled) in
    let f : denominator s ≡ s.total = ground (arith, cancelled) in
    (e, ground (arith, wins, d, e, f, full, mul_comm s.total b.total))

-- the best so far is complete with at least `n` headers
abbrev Reaches : ℕ → Option Best → Type 0
Reaches n none = ⊥
Reaches n (some b) = Full n b

abbrev IsBounded : Best → Type 0
IsBounded b = b.covered ≤ b.total

score-IsBounded : (c : HeaderCandidate) (t : Template) → IsBounded (score c t)
score-IsBounded c t =
    length-keep (λ h. has h (header_set c.headers)) (header_set t.header_signature)

better-keeps :
    (n : ℕ) (o : Option Best) (s : Best)
    → 1 ≤ n
    → IsBounded s
    → Reaches n o
    → Reaches n (some (better o s))
unfolding better
better-keeps n none s one bounded r = absurd r
better-keeps n (some b) s one bounded (full, enough) = elim (Bool-cases (improves s b)) [
  | inl e ↦
      let (covered, more) = improves-Full s b bounded full (omega (arith, one, enough)) e in
      rw e (covered, omega (arith, enough, more))
  | inr e ↦ rw e (full, enough)
]

better-Reaches :
    (o : Option Best) (s : Best)
    → s.covered ≡ s.total
    → 1 ≤ s.total
    → Holds IsBounded o
    → Reaches s.total (some (better o s))
unfolding better
better-Reaches none s full one h = (full, omega arith)
better-Reaches (some b) s full one h = elim (Bool-cases (improves s b)) [
  | inl e ↦ rw e (full, omega arith)
  | inr e ↦ rw e (Full-improves s b full one h e)
]

-- a set whose every header is among the others
shared_complete :
    (expected detected : List String)
    → ((h : String) → has h expected ≡ true → has h detected ≡ true)
    → length (shared expected detected) ≡ length expected
shared_complete [] detected all = refl
shared_complete (x ∷ expected) detected all =
    let here = all x (ground (arith, eq_iff x x)) in
    let later = shared_complete expected detected (λ h m. all h (ground (arith, m))) in
    ground (arith, here, later)

module _ (search : (pattern sheet_name : String) → Result Bool) where
  templates-keeps :
      (n : ℕ) (c : HeaderCandidate) (templates : List Template) (best next : Option Best)
      → 1 ≤ n
      → Reaches n best
      → over_templates search c templates best ≡ ok next
      → Reaches n next
  unfolding over_templates
  templates-keeps n c [] best next one r e = subst (Reaches n) (ok-injective e) r
  templates-keeps n c (t ∷ templates) best next one r e =
      let (b, _, e₁) = >>=-eq-ok (sheet_matches search t.sheet_name_pattern c.sheet_name) _ e in
      templates-keeps n c templates _ next one (kept b) e₁
    where
      kept : (b : Bool) → Reaches n (if b then some (better best (score c t)) else best)
      kept true = better-keeps n best (score c t) one (score-IsBounded c t) r
      kept false = r

  fitting-step :
      (c : HeaderCandidate) (t : Template) (templates : List Template) (best : Option Best)
      → Fits search c t
      → over_templates search c (t ∷ templates) best
        ≡ over_templates search c templates (some (better best (score c t)))
  unfolding over_templates
  fitting-step c t templates best fits = rw fits refl

  templates-Reaches :
      (c : HeaderCandidate) (templates : List Template) (best next : Option Best) (t : Template)
      → Member t templates
      → Fits search c t
      → (score c t).covered ≡ (score c t).total
      → 1 ≤ (score c t).total
      → Holds IsBounded best
      → over_templates search c templates best ≡ ok next
      → Reaches (score c t).total next
  unfolding over_templates
  templates-Reaches c [] best next t m fits full one h e = absurd m
  templates-Reaches c (u ∷ templates) best next t (inl same) fits full one h e =
      templates-keeps (score c t).total c templates (some (better best (score c t))) next one
        (better-Reaches best (score c t) full one h)
        (sym (fitting-step c t templates best fits)
          ∙ ap (λ x. over_templates search c (x ∷ templates) best) same
          ∙ e)
  templates-Reaches c (u ∷ templates) best next t (inr m) fits full one h e =
      let (b, _, e₁) = >>=-eq-ok (sheet_matches search u.sheet_name_pattern c.sheet_name) _ e in
      templates-Reaches c templates _ next t m fits full one (bounded b) e₁
    where
      bounded : (b : Bool) → Holds IsBounded (if b then some (better best (score c u)) else best)
      bounded true = better-Holds IsBounded best (score c u) h (score-IsBounded c u)
      bounded false = h

  candidates-keeps :
      (n : ℕ) (candidates : List HeaderCandidate) (templates : List Template)
      (best next : Option Best)
      → 1 ≤ n
      → Reaches n best
      → over_candidates search candidates templates best ≡ ok next
      → Reaches n next
  unfolding over_candidates
  candidates-keeps n [] templates best next one r e = subst (Reaches n) (ok-injective e) r
  candidates-keeps n (c ∷ candidates) templates best next one r e =
      let (b, m, e₁) = >>=-eq-ok (over_templates search c templates best) _ e in
      candidates-keeps n candidates templates b next one
        (templates-keeps n c templates best b one r m) e₁

  candidates-Reaches :
      (candidates : List HeaderCandidate) (templates : List Template) (best next : Option Best)
      (c : HeaderCandidate) (t : Template)
      → Member c candidates
      → Member t templates
      → Fits search c t
      → (score c t).covered ≡ (score c t).total
      → 1 ≤ (score c t).total
      → Holds IsBounded best
      → over_candidates search candidates templates best ≡ ok next
      → Reaches (score c t).total next
  unfolding over_candidates
  candidates-Reaches [] templates best next c t m k fits full one h e = absurd m
  candidates-Reaches (d ∷ candidates) templates best next c t (inl same) k fits full one h e =
      let (b, e₁, e₂) = >>=-eq-ok (over_templates search d templates best) _ e in
      candidates-keeps (score c t).total candidates templates b next one
        (templates-Reaches c templates best b t k fits full one h
          (ap (λ x. over_templates search x templates best) same ∙ e₁))
        e₂
  candidates-Reaches (d ∷ candidates) templates best next c t (inr m) k fits full one h e =
      let (b, e₁, e₂) = >>=-eq-ok (over_templates search d templates best) _ e in
      candidates-Reaches candidates templates b next c t m k fits full one
        (over_templates-Holds search IsBounded d templates best b (λ u v w. score-IsBounded d u) h
          e₁)
        e₂

  answered :
      (n : ℕ) (upload : Upload) (first : HeaderCandidate) (o : Option Best)
      → 1 ≤ n
      → Reaches n o
      → ((response_of upload first o).status ≡ "matched")
        × (n ≤ (response_of upload first o).header_coverage.0)
  unfolding response_of is_full
  answered n upload first none one r = absurd r
  answered n upload first (some b) one (full, enough) =
      let all : leb (denominator b) b.covered ≡ true = ground arith in
      rw all (refl, omega (arith, full, enough))

  -- If the file has a candidate, and the list a template, such that the sheet fits and the candidate has all
  -- the headers of the template, one at least, then a detection that returns answers `matched`, by a template
  -- that has at least as many headers in the file.
  pub detect_complete :
      (header_row : Option ℕ) (templates : List Template) (upload : Upload) (d : Detection)
      (candidates : List HeaderCandidate) (c : HeaderCandidate) (t : Template)
      → detect_payment_template search header_row templates upload ≡ ok d
      → read_header_candidates header_row upload ≡ ok candidates
      → Member c candidates
      → Member t templates
      → Fits search c t
      → ((h : String)
          → is_empty h ≡ false
          → has h t.header_signature ≡ true
          → has h c.headers ≡ true)
      → 1 ≤ length (header_set t.header_signature)
      → (d.status ≡ "matched") × (length (header_set t.header_signature) ≤ d.header_coverage.0)
  unfolding detect_payment_template detected_in
  detect_complete header_row templates upload d candidates c t h read mc mt fits all one =
      let (cs, read', h₁) = >>=-eq-ok (read_header_candidates header_row upload) _ h in
      found candidates
        (ap (detected_in search upload templates) (ok-injective (sym read ∙ read')) ∙ h₁) mc
    where
      full : (score c t).covered ≡ (score c t).total
      full = shared_complete (header_set t.header_signature) (header_set c.headers) (λ h m.
          ground (arith, m, has-header_set h t.header_signature, has-header_set h c.headers, all h))

      found :
          (cs : List HeaderCandidate)
          → detected_in search upload templates cs ≡ ok d
          → Member c cs
          → (d.status ≡ "matched") × (length (header_set t.header_signature) ≤ d.header_coverage.0)
      found [] e m = absurd m
      found (first ∷ rest) e m =
          let (best, e₁, e₂) =
            >>=-eq-ok (over_candidates search (first ∷ rest) templates none) _ e in
          subst
            (λ (x : Detection).
              (x.status ≡ "matched")
              × (length (header_set t.header_signature) ≤ x.header_coverage.0))
            (ok-injective e₂)
            (answered (score c t).total upload first best one
              (candidates-Reaches (first ∷ rest) templates none best c t m mt fits full one tt e₁))
