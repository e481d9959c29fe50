-- ===== src/Engine/Matched.antt =====
-- reconciliation_engine.py: what a decision says of the remote orders.
use raj_data_handle.Base.{
  ◌≡◌, refl, ◌⊎◌, inl, inr, String, Bool, true, false, Option, none, some, List, [], ◌∷◌, Result,
  ok, ◌>>=◌, arith, keep, Option-cases, Member, Member-keep,
}
use raj_data_handle.Base.Int.{pos}
use raj_data_handle.Value.{Fields, get, int_of}
use raj_data_handle.Decimal.{Decimal, differs}
use raj_data_handle.Payment.{PaymentOrderGroup, success, matched, matched_after_recheck}
use raj_data_handle.Engine.{
  has_order_num, has_out_trade_no, given, evaluate_found_order, compare_with_remote_orders, choose,
  only_primary, among_exact, ReconciliationDecision, remote_decimal, amount_differs, status_number,
  safe_remote_payload,
}

-- the two ways in which a payment counts as matched
abbrev pub IsMatch : ReconciliationDecision → Type 0
IsMatch d = (d.result_status ≡ matched) ⊎ (d.result_status ≡ matched_after_recheck)

-- An order that agrees with a payment: the numbers that are given, the amount that is given, and a
-- success for a success.
pub record Agrees (p : PaymentOrderGroup) (order : Fields) : Type 0 where
  pub merchant :
      (number : String)
      → given p.merchant_order_no ≡ some number
      → has_order_num number order ≡ true
  pub platform :
      (number : String)
      → given p.platform_order_no ≡ some number
      → has_out_trade_no number order ≡ true
  pub amount :
      (a : Decimal)
      → p.amount ≡ some a
      → (r : Decimal) × (remote_decimal (get "amount" order) ≡ some r) × (differs r a ≡ ok false)
  pub status : p.payment_status_group ≡ success → int_of (get "status" order) ≡ ok (pos 1)

evaluate-amount :
    (p : PaymentOrderGroup) (order : Fields) (after : Bool) (d : ReconciliationDecision)
    → evaluate_found_order p order after ≡ ok d
    → IsMatch d
    → amount_differs p.amount (remote_decimal (get "amount" order)) ≡ ok false
unfolding evaluate_found_order
evaluate-amount p order after d h m = ground arith

evaluate-status :
    (p : PaymentOrderGroup) (order : Fields) (after : Bool) (d : ReconciliationDecision)
    → evaluate_found_order p order after ≡ ok d
    → IsMatch d
    → p.payment_status_group ≡ success
    → int_of (get "status" order) ≡ ok (pos 1)
unfolding evaluate_found_order status_number
evaluate-status p order after d h m g = ground arith

evaluate-payload :
    (p : PaymentOrderGroup) (order : Fields) (after : Bool) (d : ReconciliationDecision)
    → evaluate_found_order p order after ≡ ok d
    → d.remote_order ≡ some (safe_remote_payload order)
unfolding evaluate_found_order
evaluate-payload p order after d h = ground arith

evaluated :
    (r : Result ReconciliationDecision) (d : ReconciliationDecision)
    → (r >>= λ x. ok (some x)) ≡ ok (some d)
    → r ≡ ok d
evaluated r d h = ground arith

-- an order among the primary ones, with the platform's number where it is given, was evaluated
Evaluated :
    PaymentOrderGroup
    → Bool
    → Option String
    → List Fields
    → ReconciliationDecision
    → Fields
    → Type 0
Evaluated p after platform primary d order =
    Member order primary
    × ((number : String) → platform ≡ some number → has_out_trade_no number order ≡ true)
    × (evaluate_found_order p order after ≡ ok d)

only_primary-Evaluated :
    (p : PaymentOrderGroup) (after : Bool) (primary : List Fields) (d : ReconciliationDecision)
    → only_primary p after primary ≡ ok (some d)
    → IsMatch d
    → (order : Fields) × Evaluated p after none primary d order
unfolding only_primary Evaluated
only_primary-Evaluated p after [] d h m = ground arith
only_primary-Evaluated p after (x ∷ []) d h m = (x, (inl refl, λ n e. cc, evaluated _ d h))
only_primary-Evaluated p after (x ∷ y ∷ xs) d h m = ground arith

among_exact-Evaluated :
    (p : PaymentOrderGroup) (after : Bool) (n : String) (first : Fields)
    (primary exact : List Fields) (d : ReconciliationDecision)
    → ((a : Fields) → Member a exact → Member a primary × (has_out_trade_no n a ≡ true))
    → among_exact p after first exact ≡ ok (some d)
    → IsMatch d
    → (order : Fields) × Evaluated p after (some n) primary d order
unfolding among_exact Evaluated
among_exact-Evaluated p after n first primary [] d k h m = ground arith
among_exact-Evaluated p after n first primary (x ∷ []) d k h m =
    (x, ((k x (inl refl)).0, λ j e. ground (arith, k x (inl refl)), evaluated _ d h))
among_exact-Evaluated p after n first primary (x ∷ y ∷ xs) d k h m = ground arith

choose-Evaluated :
    (p : PaymentOrderGroup) (after : Bool) (platform : Option String) (primary orders : List Fields)
    (d : ReconciliationDecision)
    → choose p after platform primary orders ≡ ok (some d)
    → IsMatch d
    → (order : Fields) × Evaluated p after platform primary d order
unfolding choose
choose-Evaluated p after none [] orders d h m = ground arith
choose-Evaluated p after none (x ∷ xs) orders d h m = only_primary-Evaluated p after (x ∷ xs) d h m
choose-Evaluated p after (some n) [] orders d h m = ground arith
choose-Evaluated p after (some n) (x ∷ xs) orders d h m =
    among_exact-Evaluated p after n x (x ∷ xs) (keep (has_out_trade_no n) (x ∷ xs)) d
      (λ a. Member-keep (has_out_trade_no n) a (x ∷ xs)) h m

amount-agrees :
    (a : Option Decimal) (r : Option Decimal)
    → amount_differs a r ≡ ok false
    → (x : Decimal) → a ≡ some x
    → (y : Decimal) × (r ≡ some y) × (differs y x ≡ ok false)
unfolding amount_differs
amount-agrees none r h x e = ground arith
amount-agrees (some a) none h x e = ground arith
amount-agrees (some a) (some r) h x e = (r, refl, ground arith)

Evaluated-Agrees :
    (p : PaymentOrderGroup) (orders : List Fields) (after : Bool) (number : String)
    (d : ReconciliationDecision) (order : Fields)
    → given p.merchant_order_no ≡ some number
    → IsMatch d
    → Evaluated p after (given p.platform_order_no) (keep (has_order_num number) orders) d order
    → Member order orders × Agrees p order × (d.remote_order ≡ some (safe_remote_payload order))
unfolding Evaluated
Evaluated-Agrees p orders after number d order merchant m (here, platform, e) =
    let (found, numbered) = Member-keep (has_order_num number) order orders here in
    (
      found,
      record {
        merchant = λ n q. ground arith;
        platform = platform;
        amount = amount-agrees p.amount _ (evaluate-amount p order after d e m);
        status = evaluate-status p order after d e m;
      },
      evaluate-payload p order after d e,
    )

-- If a payment without a preliminary status is matched, at first or after the recheck, then some
-- order among the remote ones carries the numbers and the amount that it has and, for a successful
-- payment, the success status; the decision shows that order.
pub matched_sound :
    (p : PaymentOrderGroup) (orders : List Fields) (after : Bool) (d : ReconciliationDecision)
    → p.preliminary_result_status ≡ none
    → compare_with_remote_orders p orders after ≡ ok (some d)
    → IsMatch d
    → (order : Fields) × Member order orders
      × Agrees p order
      × (d.remote_order ≡ some (safe_remote_payload order))
unfolding compare_with_remote_orders
matched_sound p orders after d classified h m = elim (Option-cases (given p.merchant_order_no)) [
  | inl missing ↦ ground arith
  | inr (number, merchant) ↦
      let (order, found) =
        choose-Evaluated p after (given p.platform_order_no) (keep (has_order_num number) orders)
          orders d (ground arith) m in
      let (here, agrees, shown) = Evaluated-Agrees p orders after number d order merchant m found in
      (order, here, agrees, shown)
]
