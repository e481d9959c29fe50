-- ===== src/Engine.antt =====
-- packages/domain/services/reconciliation_engine.py: one payment against the remote orders.
pub mod Missing
pub mod Matched
pub mod Complete
pub mod Statuses
mod Tests
use raj_data_handle.Base.{
  ℕ, String, Bool, true, false, not, ◌&&◌, Option, none, some, List, [], ◌∷◌, Result, ok, err,
  type_error, value_error, ◌>>=◌, ◌==◌, keep, if◌then◌else◌,
}
use raj_data_handle.Base.Int.{ℤ, pos, eqb_ℤ}
use raj_data_handle.Text.{is_empty}
use raj_data_handle.Value.{Value, Fields, end, field, get, stripped, str_of, int_of}
use raj_data_handle.Decimal.{Decimal, decimal, differs}
use raj_data_handle.Payment.{
  PaymentOrderGroup, PaymentStatusGroup, success, ResultStatus, matched, matched_after_recheck,
  amount_mismatch, remote_status_not_success, order_reference_conflict, invalid_payment_row,
}

pub record ReconciliationDecision : Type 0 where
  pub result_status : ResultStatus
  pub remote_order : Option Fields

-- remote_charge_service.REMOTE_SUCCESS_STATUS
abbrev pub remote_success_status : ℤ
remote_success_status = pos 1

-- `_remote_decimal`
unfoldable pub remote_decimal : Value → Option Decimal
remote_decimal value = decimal (str_of value)

-- `_safe_remote_payload` of an order that is there
unfoldable pub safe_remote_payload : Fields → Fields
safe_remote_payload order = field "order_num" (get "order_num" order) (
    field "out_trade_no" (get "out_trade_no" order) (
      field "amount" (get "amount" order) (
        field "status" (get "status" order) (
          field "create_time" (get "create_time" order) (
            field "pay_time" (get "pay_time" order) (
              field "pay_method" (get "pay_method" order) (
                field "_remote_channel_code" (get "_remote_channel_code" order)
                  (field "_remote_channel_label" (get "_remote_channel_label" order) end))))))))

-- `payment.amount is not None and (remote_amount is None or remote_amount != payment.amount)`
unfoldable pub amount_differs : Option Decimal → Option Decimal → Result Bool
amount_differs none _ = ok false
amount_differs (some a) none = ok true
amount_differs (some a) (some r) = differs r a

-- `int(value)`, and `None` after a `TypeError` or a `ValueError`
unfoldable pub status_number : Result ℤ → Result (Option ℤ)
status_number (ok n) = ok (some n)
status_number (err type_error) = ok none
status_number (err value_error) = ok none
status_number (err e) = err e

is_success_group : PaymentStatusGroup → Bool
is_success_group success = true
is_success_group _ = false

is_remote_success : Option ℤ → Bool
is_remote_success none = false
is_remote_success (some n) = eqb_ℤ n remote_success_status

-- `_evaluate_found_order`
unfoldable pub evaluate_found_order :
    PaymentOrderGroup → Fields → Bool → Result ReconciliationDecision
unfolding is_success_group is_remote_success
evaluate_found_order payment remote after_recheck = do
  let payload = some (safe_remote_payload remote)
  mismatch ← amount_differs payment.amount (remote_decimal (get "amount" remote))
  if mismatch then ok (record { result_status = amount_mismatch; remote_order = payload }) else do
    remote_status ← status_number (int_of (get "status" remote))
    ok (record {
      result_status =
          if is_success_group payment.payment_status_group && not (is_remote_success remote_status)
          then remote_status_not_success
          else if after_recheck
          then matched_after_recheck
          else matched;
      remote_order = payload;
    })

-- `str(order.get("order_num") or "").strip() == number`
unfoldable pub has_order_num : String → Fields → Bool
has_order_num number order = stripped (get "order_num" order) == number

unfoldable pub has_out_trade_no : String → Fields → Bool
has_out_trade_no number order = stripped (get "out_trade_no" order) == number

-- an optional number that is `None` or empty counts as not given
abbrev pub given : Option String → Option String
given none = none
given (some s) = if is_empty s then none else some s

abbrev pub conflict : Option Fields → ReconciliationDecision
conflict order = record { result_status = order_reference_conflict; remote_order = order }

-- one exact order is evaluated, several conflict, and none leaves the first primary one
among_exact :
    PaymentOrderGroup → Bool → Fields → List Fields → Result (Option ReconciliationDecision)
among_exact payment after_recheck first [] = ok (some (conflict (some (safe_remote_payload first))))
among_exact payment after_recheck first (order ∷ []) = do
  ok (some (← evaluate_found_order payment order after_recheck))
among_exact payment after_recheck first (_ ∷ _ ∷ _) = ok (some (conflict none))

only_primary : PaymentOrderGroup → Bool → List Fields → Result (Option ReconciliationDecision)
only_primary payment after_recheck (order ∷ []) = do
  ok (some (← evaluate_found_order payment order after_recheck))
only_primary payment after_recheck _ = ok (some (conflict none))

-- `primary` holds the orders with the merchant's number
choose :
    PaymentOrderGroup
    → Bool
    → Option String
    → (primary orders : List Fields) → Result (Option ReconciliationDecision)
choose payment after_recheck none [] orders = ok none
choose payment after_recheck none primary orders = only_primary payment after_recheck primary
choose payment after_recheck (some number) [] orders =
    elim (keep (has_out_trade_no number) orders) [
      | [] ↦ ok none
      | (order ∷ _) ↦ ok (some (conflict (some (safe_remote_payload order))))
    ]
choose payment after_recheck (some number) (first ∷ rest) orders =
    among_exact payment after_recheck first (keep (has_out_trade_no number) (first ∷ rest))

by_numbers :
    PaymentOrderGroup
    → Bool
    → List Fields
    → (merchant platform : Option String) → Result (Option ReconciliationDecision)
by_numbers payment after_recheck orders none platform =
    ok (some (record { result_status = invalid_payment_row; remote_order = none }))
by_numbers payment after_recheck orders (some number) platform =
    choose payment after_recheck platform (keep (has_order_num number) orders) orders

-- a payment that the importer has already classified keeps that status
unless_preliminary :
    Option ResultStatus
    → Result (Option ReconciliationDecision)
    → Result (Option ReconciliationDecision)
unless_preliminary (some status) _ =
    ok (some (record { result_status = status; remote_order = none }))
unless_preliminary none compared = compared

-- `compare_with_remote_orders`; `ok none` is a payment that no order answers
unfoldable pub compare_with_remote_orders :
    PaymentOrderGroup
    → List Fields
    → (after_recheck : Bool) → Result (Option ReconciliationDecision)
unfolding unless_preliminary by_numbers choose only_primary among_exact
compare_with_remote_orders payment remote_orders after_recheck =
    unless_preliminary payment.preliminary_result_status (
      by_numbers payment after_recheck remote_orders (given payment.merchant_order_no)
        (given payment.platform_order_no))
