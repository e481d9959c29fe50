-- ===== src/Engine/Missing.antt =====
-- reconciliation_engine.py: which payments no remote order answers, the candidates for
-- `confirmed_missing`.
use raj_data_handle.Base.{
  ◌≡◌, refl, ◌↔◌, ◌≢◌, String, Bool, false, Option, none, some, List, [], ◌∷◌, ok, arith, keep,
  any_of,
}
use raj_data_handle.Value.{Fields}
use raj_data_handle.Payment.{PaymentOrderGroup}
use raj_data_handle.Engine.{
  has_order_num, has_out_trade_no, given, compare_with_remote_orders, only_primary, among_exact,
  choose,
}

-- whether some order carries a number, `none` standing for a number that is not given
abbrev pub carries : (String → Fields → Bool) → Option String → List Fields → Bool
carries has none orders = false
carries has (some number) orders = any_of (has number) orders

any_of-keep :
    (p : Fields → Bool) (orders : List Fields) → (keep p orders ≡ []) ↔ (any_of p orders ≡ false)
any_of-keep p [] = (λ _. refl, λ _. refl)
any_of-keep p (x ∷ xs) = ground (arith, any_of-keep p xs)

only_primary-decides :
    (p : PaymentOrderGroup) (after : Bool) (primary : List Fields)
    → only_primary p after primary ≢ ok none
unfolding only_primary
only_primary-decides p after [] h = ground arith
only_primary-decides p after (x ∷ []) h = ground arith
only_primary-decides p after (x ∷ y ∷ xs) h = ground arith

among_exact-decides :
    (p : PaymentOrderGroup) (after : Bool) (first : Fields) (exact : List Fields)
    → among_exact p after first exact ≢ ok none
unfolding among_exact
among_exact-decides p after first [] h = ground arith
among_exact-decides p after first (x ∷ []) h = ground arith
among_exact-decides p after first (x ∷ y ∷ xs) h = ground arith

choose-none_iff :
    (p : PaymentOrderGroup) (after : Bool) (platform : Option String) (primary orders : List Fields)
    → (choose p after platform primary orders ≡ ok none)
      ↔ ((primary ≡ []) × (carries has_out_trade_no platform orders ≡ false))
unfolding choose
choose-none_iff p after none [] orders = (λ _. (refl, refl), λ _. refl)
choose-none_iff p after none (x ∷ xs) orders =
    (λ h. absurd (only_primary-decides p after (x ∷ xs) h), λ h. cc (h.0))
choose-none_iff p after (some n) [] orders = ground (arith, any_of-keep (has_out_trade_no n) orders)
choose-none_iff p after (some n) (x ∷ xs) orders = (
  λ h. absurd (among_exact-decides p after x (keep (has_out_trade_no n) (x ∷ xs)) h),
  λ h. cc (h.0),
)

-- For a payment with a merchant number and no preliminary status, the comparison returns `None`
-- exactly if no order carries the merchant's number as order_num or, where it is given, the
-- platform's number as out_trade_no.
pub compare-none_iff :
    (p : PaymentOrderGroup) (orders : List Fields) (after : Bool) {number : String}
    → p.preliminary_result_status ≡ none
    → given p.merchant_order_no ≡ some number
    → (compare_with_remote_orders p orders after ≡ ok none) ↔ (
        (any_of (has_order_num number) orders ≡ false)
        × (carries has_out_trade_no (given p.platform_order_no) orders ≡ false))
unfolding compare_with_remote_orders
compare-none_iff p orders after {number} classified merchant =
    rw (classified, merchant)
      (ground (
        arith,
        choose-none_iff p after (given p.platform_order_no) (keep (has_order_num number) orders)
            orders,
        any_of-keep (has_order_num number) orders,
      ))
