-- ===== src/Engine/Statuses.antt =====
-- reconciliation_engine.py: the result statuses that the comparison gives.
use raj_data_handle.Base.{
  ◌≡◌, ◌≢◌, inl, inr, String, Bool, Option, none, some, List, [], ◌∷◌, Result, ok, arith,
  Option-cases, keep,
}
use raj_data_handle.Value.{Fields}
use raj_data_handle.Payment.{PaymentOrderGroup, confirmed_missing}
use raj_data_handle.Engine.{
  ReconciliationDecision, has_order_num, has_out_trade_no, given, evaluate_found_order,
  only_primary, among_exact, choose, compare_with_remote_orders,
}

-- a result that is not a decision of a confirmed omission
abbrev pub NotMissing : Result (Option ReconciliationDecision) → Type 0
NotMissing r = (d : ReconciliationDecision) → r ≡ ok (some d) → d.result_status ≢ confirmed_missing

module _ (p : PaymentOrderGroup) (after : Bool) where
  evaluate-found :
      (order : Fields) (d : ReconciliationDecision)
      → evaluate_found_order p order after ≡ ok d
      → d.result_status ≢ confirmed_missing
  unfolding evaluate_found_order
  evaluate-found order d h m = ground arith

  only_primary-NotMissing : (primary : List Fields) → NotMissing (only_primary p after primary)
  unfolding only_primary
  only_primary-NotMissing [] d h m = ground arith
  only_primary-NotMissing (x ∷ []) d h m = ground (arith, evaluate-found x d)
  only_primary-NotMissing (x ∷ y ∷ xs) d h m = ground arith

  among_exact-NotMissing :
      (first : Fields) (exact : List Fields) → NotMissing (among_exact p after first exact)
  unfolding among_exact
  among_exact-NotMissing first [] d h m = ground arith
  among_exact-NotMissing first (x ∷ []) d h m = ground (arith, evaluate-found x d)
  among_exact-NotMissing first (x ∷ y ∷ xs) d h m = ground arith

  choose-NotMissing :
      (platform : Option String) (primary orders : List Fields)
      → NotMissing (choose p after platform primary orders)
  unfolding choose
  choose-NotMissing none [] orders d h m = ground arith
  choose-NotMissing none (x ∷ xs) orders d h m = only_primary-NotMissing (x ∷ xs) d h m
  choose-NotMissing (some n) [] orders d h m = ground arith
  choose-NotMissing (some n) (x ∷ xs) orders d h m =
      among_exact-NotMissing x (keep (has_out_trade_no n) (x ∷ xs)) d h m

  pub compare-NotMissing :
      (orders : List Fields)
      → p.preliminary_result_status ≡ none
      → NotMissing (compare_with_remote_orders p orders after)
  unfolding compare_with_remote_orders
  compare-NotMissing orders classified d h m = elim (Option-cases (given p.merchant_order_no)) [
    | inl absent ↦ ground arith
    | inr (number, merchant) ↦
        choose-NotMissing (given p.platform_order_no) (keep (has_order_num number) orders) orders d
          (ground arith) m
  ]
