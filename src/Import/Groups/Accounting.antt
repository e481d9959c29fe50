-- ===== src/Import/Groups/Accounting.antt =====
-- payment_import_service.py: which rows of the file the result of `import_payment_orders` names,
-- and what its counts are.
use raj_data_handle.Base.{
  ℕ, suc, ◌+◌, ◌≡◌, refl, ap, String, Bool, true, false, List, [], ◌∷◌, ◌++◌, map, ok, arith,
  length, length-append, ◌==◌, if◌then◌else◌, Bool-cases, inl, inr, >>=-eq-ok, ok-injective,
}
use mathlib.Core.List.{Perm, append_assoc, perm_middle, map-append, append-nil}
use mathlib.Core.List.Perm
use mathlib.Core.Path.{subst}
use raj_data_handle.Payment.{PaymentOrderGroup}
use raj_data_handle.Import.Parse.{
  Calendar, Cell, ParsedRow, Layout, parse_rows, parsed_row, parse_datetime, outside, cell_at,
}
use raj_data_handle.Import.Groups.{
  Group, members, group_key, add_row, group_rows, order_group, import_result, ImportRequest,
  import_payment_orders, checked_layout, PaymentImportResult,
}

abbrev number_of : ParsedRow → ℕ
number_of row = row.row_number

abbrev numbers : List Group → List ℕ
numbers [] = []
numbers (g ∷ groups) = map number_of (members g) ++ numbers groups

add_row-Perm :
    (key : String) (row : ParsedRow) (groups : List Group)
    → Perm (numbers (add_row key row groups)) (row.row_number ∷ numbers groups)
unfolding add_row
add_row-Perm key row [] = Perm.refl (row.row_number ∷ [])
add_row-Perm key row (g ∷ groups) =
    let own = map number_of (members g) in
    elim (Bool-cases (g.key == key)) [
      | inl e ↦ rw e (
          rw (map-append number_of g.rest (row ∷ []))
            (rw append_assoc (perm_middle own (numbers groups))))
      | inr e ↦ rw e (
          Perm.trans (Perm.append_left own (add_row-Perm key row groups))
            (perm_middle own (numbers groups)))
    ]

group_rows-Perm :
    (rows : List ParsedRow) (groups : List Group)
    → Perm (numbers (group_rows rows groups)) (map number_of rows ++ numbers groups)
unfolding group_rows
group_rows-Perm [] groups = Perm.refl (numbers groups)
group_rows-Perm (row ∷ rows) groups =
    let own = map number_of rows in
    Perm.trans (group_rows-Perm rows (add_row (group_key row) row groups)) (
      Perm.trans (Perm.append_left own (add_row-Perm (group_key row) row groups))
        (perm_middle own (numbers groups)))

-- the sum of the groups' sizes
abbrev sizes : List Group → ℕ
sizes [] = 0
sizes (g ∷ groups) = length (members g) + sizes groups

add_row-sizes :
    (key : String) (row : ParsedRow) (groups : List Group)
    → sizes (add_row key row groups) ≡ suc (sizes groups)
unfolding add_row
add_row-sizes key row [] = refl
add_row-sizes key row (g ∷ groups) =
    ground (arith, length-append g.rest (row ∷ []), add_row-sizes key row groups)

group_rows-sizes :
    (rows : List ParsedRow) (groups : List Group)
    → sizes (group_rows rows groups) ≡ length rows + sizes groups
unfolding group_rows
group_rows-sizes [] groups = omega arith
group_rows-sizes (row ∷ rows) groups =
    let next = add_row (group_key row) row groups in
    omega (arith, group_rows-sizes rows next, add_row-sizes (group_key row) row groups)

-- the numbers of the rows that the order groups name
abbrev pub numbered : List PaymentOrderGroup → List ℕ
numbered [] = []
numbered (g ∷ groups) = g.source_row_numbers ++ numbered groups

-- the sum of the order groups' `duplicate_count`
abbrev pub counted : List PaymentOrderGroup → ℕ
counted [] = 0
counted (g ∷ groups) = g.duplicate_count + counted groups

module _ (sha256 : String → String) (request : ImportRequest) where
  numbered-groups :
      (groups : List Group) → numbered (map (order_group sha256 request) groups) ≡ numbers groups
  unfolding order_group
  numbered-groups [] = refl
  numbered-groups (g ∷ groups) =
      ap (λ (l : List ℕ). map number_of (members g) ++ l) (numbered-groups groups)

  counted-groups :
      (groups : List Group) → counted (map (order_group sha256 request) groups) ≡ sizes groups
  unfolding order_group
  counted-groups [] = refl
  counted-groups (g ∷ groups) = ap (λ n. length (members g) + n) (counted-groups groups)

-- Every row is either kept or left out.
record IsSplit (file_rows : List ℕ) (p : List ParsedRow × ℕ) : Type 0 where
  left : List ℕ
  counts : length left ≡ p.1
  rows : Perm (map number_of p.0 ++ left) file_rows
  total : length p.0 + p.1 ≡ length file_rows

IsSplit-left :
    (n : ℕ) (ns : List ℕ) (kept : List ParsedRow) (excluded : ℕ)
    → IsSplit ns (kept, excluded)
    → IsSplit (n ∷ ns) (kept, suc excluded)
IsSplit-left n ns kept excluded s = record {
  left = n ∷ s.left;
  counts = omega (arith, s.counts);
  rows = Perm.trans (perm_middle (map number_of kept) s.left) (Perm.cons n s.rows);
  total = omega (arith, s.total);
}

IsSplit-kept :
    (row : ParsedRow) (ns : List ℕ) (kept : List ParsedRow) (excluded : ℕ)
    → IsSplit ns (kept, excluded)
    → IsSplit (row.row_number ∷ ns) (row ∷ kept, excluded)
IsSplit-kept row ns kept excluded s = record {
  left = s.left;
  counts = s.counts;
  rows = Perm.cons row.row_number s.rows;
  total = omega (arith, s.total);
}

IsSplit-if :
    (b : Bool) (row : ParsedRow) (ns : List ℕ) (p : List ParsedRow × ℕ)
    → IsSplit ns p
    → IsSplit (row.row_number ∷ ns) (if b then (p.0, suc p.1) else (row ∷ p.0, p.1))
IsSplit-if true row ns p s = IsSplit-left row.row_number ns p.0 p.1 s
IsSplit-if false row ns p s = IsSplit-kept row ns p.0 p.1 s

module _ (cal : Calendar) (layout : Layout) where
  parse_rows-IsSplit :
      (rows : List (ℕ × List (String × Cell cal.Moment))) (p : List ParsedRow × ℕ)
      → parse_rows cal layout rows ≡ ok p
      → IsSplit (map (λ (r : ℕ × List (String × Cell cal.Moment)). r.0) rows) p
  unfolding parse_rows parsed_row
  parse_rows-IsSplit [] p h =
      subst (IsSplit []) (ok-injective h)
        (record { left = []; counts = refl; rows = Perm.refl []; total = refl })
  parse_rows-IsSplit ((n, row) ∷ rows) p h =
      let (time, th, rest) =
        >>=-eq-ok
          (parse_datetime cal (cell_at layout.payment_time_field row) layout.payment_timezone) _
          h in
      let (q, ph, last) = >>=-eq-ok (parse_rows cal layout rows) _ rest in
      subst (IsSplit _) (ok-injective last) (
        IsSplit-if (outside layout time) (parsed_row layout n row time) _ q
          (parse_rows-IsSplit rows q ph))

-- What the result says of the file: each row is named by exactly one place of one group or is left
-- out, and the counts are those of the rows.
pub record IsAccounted (file_rows : List ℕ) (r : PaymentImportResult) : Type 0 where
  left : List ℕ
  rows : Perm (numbered r.groups ++ left) file_rows
  source : r.source_rows ≡ length file_rows
  included : counted r.groups ≡ r.included_rows
  excluded : length left ≡ r.excluded_outside_window
  total : r.included_rows + r.excluded_outside_window ≡ r.source_rows

result-IsAccounted :
    (sha256 : String → String) (request : ImportRequest) (file_rows : List ℕ)
    (p : List ParsedRow × ℕ)
    → IsSplit file_rows p
    → IsAccounted file_rows (import_result sha256 request (length file_rows) p)
unfolding import_result
result-IsAccounted sha256 request file_rows p s =
    let groups = group_rows p.0 [] in
    record {
      left = s.left;
      rows = rw (numbered-groups sha256 request groups) (
          Perm.trans (Perm.append_right s.left (group_rows-Perm p.0 []))
            (rw (append-nil (map number_of p.0)) s.rows));
      source = refl;
      included = omega (arith, counted-groups sha256 request groups, group_rows-sizes p.0 []);
      excluded = s.counts;
      total = s.total;
    }

length-numbers :
    {A : Type 0} (rows : List (ℕ × A)) → length (map (λ (r : ℕ × A). r.0) rows) ≡ length rows
length-numbers [] = refl
length-numbers (r ∷ rows) = omega (arith, length-numbers rows)

module _ (sha256 : String → String) (cal : Calendar) where
  -- If `import_payment_orders` returns a result for the rows of a file, then the rows that its groups
  -- name and those left out are together the rows of the file, each once; the `duplicate_count`s of
  -- the groups add up to `included_rows`; `excluded_outside_window` is the number of those left out;
  -- and the two counts add up to `source_rows`, the number of rows of the file.
  pub import-IsAccounted :
      (request : ImportRequest) (file_rows : List (ℕ × List (String × Cell cal.Moment)))
      (result : PaymentImportResult)
      → import_payment_orders sha256 cal request (ok file_rows) ≡ ok result
      → IsAccounted (map (λ (r : ℕ × List (String × Cell cal.Moment)). r.0) file_rows) result
  unfolding import_payment_orders
  import-IsAccounted request file_rows result h =
      let (layout, _, rest) = >>=-eq-ok (checked_layout sha256 cal request) _ h in
      let (p, ph, last) = >>=-eq-ok (parse_rows cal layout file_rows) _ rest in
      let numbers_of = map (λ (r : ℕ × List (String × Cell cal.Moment)). r.0) file_rows in
      let split = parse_rows-IsSplit cal layout file_rows p ph in
      subst (IsAccounted numbers_of) (ok-injective last) (
        subst (λ n. IsAccounted numbers_of (import_result sha256 request n p))
          (length-numbers file_rows) (result-IsAccounted sha256 request numbers_of p split))
