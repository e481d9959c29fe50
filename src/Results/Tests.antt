-- ===== src/Results/Tests.antt =====
-- result_service.py at two rows, of which one has a number that reads as a formula.
use raj_data_handle.Base.{◌≡◌, refl, none, some, List, [], ◌∷◌, true}
use raj_data_handle.Value.{Value, int, text, end}
use raj_data_handle.Payment.{success, confirmed_missing, candidate_missing, ResultStatus}
use raj_data_handle.Base.Int.{pos}
use raj_data_handle.BatchState.{completed}
use raj_data_handle.Batch.{Batch}
use raj_data_handle.Execution.Steps.{OrderResult}
use raj_data_handle.Results.{status_text, group_text, safe_export_value, summary}

abbrev row : ResultStatus → OrderResult
row status = record {
  batch_id = "b1";
  order_group_id = "g1";
  result_status = status;
  payment_status_raw = some "SUCCESS";
  payment_status_group = success;
  merchant_order_no = some "=1+1";
  platform_order_no = none;
  payload_json = end;
  is_final = true;
}

abbrev rows : List OrderResult
rows = row confirmed_missing ∷ row candidate_missing ∷ []

quoted : safe_export_value (text "=1+1") ≡ text "'=1+1"
unfolding safe_export_value
quoted = refl

abbrev batch : Batch
batch = record {
  id = "b1";
  comparison_series_id = "s1";
  comparison_identity_key = none;
  run_version = 1;
  rerun_of_batch_id = none;
  source_id = "x";
  source_display_name = "=X";
  source_config_version = 1;
  source_business_timezone = "UTC";
  source_currency = "INR";
  business_type = "payin";
  status = completed;
  is_final = true;
  uploaded_file_name = "f.csv";
  uploaded_file_sha256 = "0";
  parameters_json = end;
  progress_json = end;
  execution_requested_by = 7;
  created_by = 7;
  error_category = none;
  cancellation_requested_at = none;
  cancelled_at = none;
  cancelled_by = none;
  cancellation_reason = none;
  created_at = 0;
  started_at = some 1;
  completed_at = some 2;
  result_expires_at = 100;
}

-- the display name stands in the first sheet as it is
summarised :
    summary batch rows
    ≡ (text "项目" ∷ text "值" ∷ [])
      ∷ (text "批次 ID" ∷ text "b1" ∷ [])
      ∷ (text "盘口" ∷ text "=X" ∷ [])
      ∷ (text "执行版本" ∷ int (pos 1) ∷ [])
      ∷ (text "状态" ∷ text "completed" ∷ [])
      ∷ (text "candidate_missing" ∷ int (pos 1) ∷ [])
      ∷ (text "confirmed_missing" ∷ int (pos 1) ∷ [])
      ∷ (text "confirmed_missing_success" ∷ int (pos 1) ∷ [])
      ∷ []
unfolding summary status_text group_text
summarised = refl
