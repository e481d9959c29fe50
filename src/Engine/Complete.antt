-- ===== src/Engine/Complete.antt =====
-- reconciliation_engine.py: when a payment is matched, and what the comparison may raise.
use raj_data_handle.Base.{
  ◌≡◌, refl, ◌⊎◌, false, String, Bool, Option, none, some, List, [], ◌∷◌, ok, err, overflow_error,
  invalid_operation, Exception, arith, keep, if◌then◌else◌, inl, inr, Option-cases,
}
use raj_data_handle.Base.Int.{ℤ}
use raj_data_handle.Value.{Value, Fields, get, int_of}
use raj_data_handle.Decimal.{Decimal, differs}
use raj_data_handle.Payment.{PaymentOrderGroup, matched, matched_after_recheck}
use raj_data_handle.Engine.{
  has_order_num, has_out_trade_no, given, evaluate_found_order, compare_with_remote_orders, choose,
  only_primary, among_exact, ReconciliationDecision, remote_decimal, amount_differs, status_number,
  safe_remote_payload,
}
use raj_data_handle.Engine.Matched.{Agrees}

-- `status` is something that `int` reads, or that it refuses by a `TypeError` or `ValueError`
abbrev pub IsReadable : Fields → Type 0
IsReadable order = (n : Option ℤ) × (status_number (int_of (get "status" order)) ≡ ok n)

amount_differs-Agrees :
    (a r : Option Decimal)
    → ((x : Decimal) → a ≡ some x → (y : Decimal) × (r ≡ some y) × (differs y x ≡ ok false))
    → amount_differs a r ≡ ok false
unfolding amount_differs
amount_differs-Agrees none r h = refl
amount_differs-Agrees (some x) r h = let (y, e, f) = h x refl in rw e f

evaluate-Agrees :
    (p : PaymentOrderGroup) (order : Fields) (after : Bool)
    → Agrees p order
    → IsReadable order
    → evaluate_found_order p order after
      ≡ ok (record {
        result_status = if after then matched_after_recheck else matched;
        remote_order = some (safe_remote_payload order);
      })
unfolding evaluate_found_order status_number
evaluate-Agrees p order after agrees (n, readable) = ground (
  arith,
  amount_differs-Agrees p.amount (remote_decimal (get "amount" order)) agrees.amount,
  agrees.status,
)

-- the decision for a payment that an order answers
abbrev pub matched_with : Bool → Fields → ReconciliationDecision
matched_with after order = record {
  result_status = if after then matched_after_recheck else matched;
  remote_order = some (safe_remote_payload order);
}

module _ (p : PaymentOrderGroup) (orders : List Fields) (after : Bool) where
  compare-eq-choose :
      {number : String}
      → p.preliminary_result_status ≡ none
      → given p.merchant_order_no ≡ some number
      → compare_with_remote_orders p orders after
        ≡ choose p after (given p.platform_order_no) (keep (has_order_num number) orders) orders
  unfolding compare_with_remote_orders
  compare-eq-choose classified merchant = simp (classified, merchant)

  choose_unique :
      (order : Fields) (platform : Option String)
      → given p.platform_order_no ≡ platform
      → Agrees p order
      → IsReadable order
      → choose p after platform (order ∷ []) orders ≡ ok (some (matched_with after order))
  unfolding choose only_primary among_exact
  choose_unique order none e agrees readable = rw (evaluate-Agrees p order after agrees readable)
  choose_unique order (some n) e agrees readable =
      rw (agrees.platform n e) (rw (evaluate-Agrees p order after agrees readable))

  -- If a payment has a merchant number and no preliminary status, one order alone carries that
  -- number, it agrees with the payment in what is given, and `int` reads its status or refuses it by
  -- a TypeError or ValueError, then the payment is matched with that order.
  pub unique-matched :
      {number : String} {order : Fields}
      → p.preliminary_result_status ≡ none
      → given p.merchant_order_no ≡ some number
      → keep (has_order_num number) orders ≡ order ∷ []
      → Agrees p order
      → IsReadable order
      → compare_with_remote_orders p orders after ≡ ok (some (matched_with after order))
  unique-matched {order = order} classified merchant only agrees readable =
      rw (compare-eq-choose classified merchant)
        (rw only (choose_unique order (given p.platform_order_no) refl agrees readable))

abbrev pub IsUncaught : Exception → Type 0
IsUncaught e = (e ≡ overflow_error) ⊎ (e ≡ invalid_operation)

differs-raises : (a b : Decimal) (e : Exception) → differs a b ≡ err e → IsUncaught e
unfolding differs
differs-raises a b e h = ground arith

status-raises : (v : Value) (e : Exception) → status_number (int_of v) ≡ err e → IsUncaught e
unfolding status_number int_of
status-raises v e h = ground arith

amount-raises : (a r : Option Decimal) (e : Exception) → amount_differs a r ≡ err e → IsUncaught e
unfolding amount_differs
amount-raises none r e h = ground arith
amount-raises (some a) none e h = ground arith
amount-raises (some a) (some r) e h = differs-raises r a e h

evaluate-raises :
    (p : PaymentOrderGroup) (order : Fields) (after : Bool) (e : Exception)
    → evaluate_found_order p order after ≡ err e
    → IsUncaught e
unfolding evaluate_found_order
evaluate-raises p order after e h = ground (
  arith,
  amount-raises p.amount (remote_decimal (get "amount" order)) e,
  status-raises (get "status" order) e,
)

module _ (p : PaymentOrderGroup) (after : Bool) (e : Exception) where
  only_primary-raises :
      (primary : List Fields) → only_primary p after primary ≡ err e → IsUncaught e
  unfolding only_primary
  only_primary-raises [] h = ground arith
  only_primary-raises (x ∷ []) h = ground (arith, evaluate-raises p x after e)
  only_primary-raises (x ∷ y ∷ xs) h = ground arith

  among_exact-raises :
      (first : Fields) (exact : List Fields)
      → among_exact p after first exact ≡ err e
      → IsUncaught e
  unfolding among_exact
  among_exact-raises first [] h = ground arith
  among_exact-raises first (x ∷ []) h = ground (arith, evaluate-raises p x after e)
  among_exact-raises first (x ∷ y ∷ xs) h = ground arith

  choose-raises :
      (platform : Option String) (primary orders : List Fields)
      → choose p after platform primary orders ≡ err e
      → IsUncaught e
  unfolding choose
  choose-raises none [] orders h = ground arith
  choose-raises none (x ∷ xs) orders h = only_primary-raises (x ∷ xs) h
  choose-raises (some n) [] orders h = ground arith
  choose-raises (some n) (x ∷ xs) orders h =
      among_exact-raises x (keep (has_out_trade_no n) (x ∷ xs)) h

  -- The comparison raises nothing but an `OverflowError` or an `InvalidOperation`.
  pub compare-raises :
      (orders : List Fields) → compare_with_remote_orders p orders after ≡ err e → IsUncaught e
  unfolding compare_with_remote_orders
  compare-raises orders h = elim (Option-cases (given p.merchant_order_no)) [
    | inl absent ↦ ground arith
    | inr (number, merchant) ↦ ground (
      arith,
      choose-raises (given p.platform_order_no) (keep (has_order_num number) orders) orders,
    )
  ]
