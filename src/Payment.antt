-- ===== src/Payment.antt =====
-- The data that the importer, the comparison and the execution share: PaymentOrderGroup of
-- packages/domain/services/payment_import_service.py, and the result statuses, which the source
-- writes as texts.
use raj_data_handle.Base.{ℕ, String, List, Option}
use raj_data_handle.Decimal.{Decimal}

-- An aware `datetime` as the services use it: the wall time in its zone, which orders the times of
-- one zone, and `isoformat()`.
pub record DateTime : Type 0 where
  pub wall : ℕ
  pub isoformat : String

pub data PaymentStatusGroup : Type 0 where
  success non_success unknown : PaymentStatusGroup

pub data ResultStatus : Type 0 where
  matched matched_after_recheck amount_mismatch remote_status_not_success : ResultStatus
  order_reference_conflict invalid_payment_row duplicate_payment_conflict : ResultStatus
  confirmed_missing recheck_inconclusive candidate_missing : ResultStatus

pub record PaymentOrderGroup : Type 0 where
  pub order_group_id : String
  pub merchant_order_no : Option String
  pub platform_order_no : Option String
  pub amount : Option Decimal
  pub currency : String
  pub payment_status_raw : Option String
  pub payment_status_group : PaymentStatusGroup
  pub payment_time : Option DateTime
  pub source_sheet : String
  pub source_row_numbers : List ℕ
  pub duplicate_count : ℕ
  pub preliminary_result_status : Option ResultStatus
  pub platform_key : String
