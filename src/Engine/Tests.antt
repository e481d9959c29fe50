-- ===== src/Engine/Tests.antt =====
-- reconciliation_engine.py at concrete payments and orders.
use raj_data_handle.Base.{
  ◌≡◌, refl, ◌↔◌, inl, true, false, none, some, [], ◌∷◌, ok, err, any_of, keep, Member, String,
  overflow_error,
}
use mathlib.Core.Path.{subst}
use raj_data_handle.Base.Int.{pos, negsuc}
use raj_data_handle.Value.{
  Value, text, int, float, infinite, Fields, end, field, get, int_of, stripped,
}
use raj_data_handle.Text.{strip}
use raj_data_handle.Decimal.{finite, decimal, differs}
use raj_data_handle.Payment.{PaymentOrderGroup, success}
use raj_data_handle.Engine.{
  remote_decimal, safe_remote_payload, has_order_num, has_out_trade_no, given, evaluate_found_order,
  amount_differs, status_number, compare_with_remote_orders,
}
use raj_data_handle.Engine.Missing.{carries, compare-none_iff}
use raj_data_handle.Engine.Matched.{Agrees, matched_sound}
use raj_data_handle.Engine.Complete.{
  IsReadable, matched_with, unique-matched, IsUncaught, compare-raises,
}

abbrev payment : PaymentOrderGroup
payment = record {
  order_group_id = "g";
  merchant_order_no = some "A1";
  platform_order_no = some "P1";
  amount = some (finite false 105 (negsuc 0));
  currency = "INR";
  payment_status_raw = some "paid";
  payment_status_group = success;
  payment_time = none;
  source_sheet = "s";
  source_row_numbers = 2 ∷ [];
  duplicate_count = 1;
  preliminary_result_status = none;
  platform_key = "k";
}

abbrev order : Value → Fields
order status =
    field "order_num" (text "A1")
      (field "out_trade_no" (text "P1") (field "amount" (text "10.50") (field "status" status end)))

abbrev paid : Fields
paid = order (int (pos 1))

abbrev endless : Fields
endless = order (float "inf" infinite)

abbrev other : Fields
other = field "order_num" (text "A2") end

some-injective : {s t : String} → some s ≡ some t → s ≡ t
some-injective h = cc

paid-Agrees : Agrees payment paid
unfolding has_order_num has_out_trade_no remote_decimal get int_of differs decimal stripped strip
paid-Agrees = record {
  merchant = λ n e. subst (λ x. has_order_num x paid ≡ true) (some-injective e) refl;
  platform = λ n e. subst (λ x. has_out_trade_no x paid ≡ true) (some-injective e) refl;
  amount = λ a e. (finite false 1050 (negsuc 1), refl, cc);
  status = λ e. refl;
}

-- the order that agrees is found beside another one
only_paid : keep (has_order_num "A1") (other ∷ paid ∷ []) ≡ paid ∷ []
unfolding has_order_num stripped strip get
only_paid = refl

paid-IsReadable : IsReadable paid
unfolding get int_of status_number
paid-IsReadable = (some (pos 1), refl)

matched_run :
    compare_with_remote_orders payment (other ∷ paid ∷ []) false
    ≡ ok (some (matched_with false paid))
matched_run =
    unique-matched payment (other ∷ paid ∷ []) false refl refl only_paid paid-Agrees paid-IsReadable

endless_run : compare_with_remote_orders payment (endless ∷ []) false ≡ err overflow_error
unfolding compare_with_remote_orders has_order_num stripped strip get has_out_trade_no
    evaluate_found_order amount_differs remote_decimal decimal differs status_number int_of
endless_run = refl

matched_sound_example :
    (found : Fields) × Member found (other ∷ paid ∷ [])
    × Agrees payment found
    × ((matched_with false paid).remote_order ≡ some (safe_remote_payload found))
matched_sound_example =
    matched_sound payment (other ∷ paid ∷ []) false (matched_with false paid) refl matched_run
      (inl refl)

compare-none_iff_example : (compare_with_remote_orders payment (other ∷ []) true ≡ ok none) ↔ (
    (any_of (has_order_num "A1") (other ∷ []) ≡ false)
    × (carries has_out_trade_no (given payment.platform_order_no) (other ∷ []) ≡ false))
compare-none_iff_example = compare-none_iff payment (other ∷ []) true refl refl

unique-matched_example :
    compare_with_remote_orders payment (other ∷ paid ∷ []) true ≡ ok (some (matched_with true paid))
unique-matched_example =
    unique-matched payment (other ∷ paid ∷ []) true refl refl only_paid paid-Agrees paid-IsReadable

compare-raises_example : IsUncaught overflow_error
compare-raises_example = compare-raises payment false overflow_error (endless ∷ []) endless_run
