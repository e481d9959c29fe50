-- ===== src/Batch/Tests.antt =====
-- batch_service.py at a store with one batch.
use raj_data_handle.Base.{◌≡◌, refl, true, false, none, some, [], ◌∷◌, ok}
use raj_data_handle.Text.{strip, upper_codes, codes}
use raj_data_handle.Value.{get, stripped, Fields, bool, dict, item, list, nil, end, field, text}
use raj_data_handle.BatchState.{
  Status, queued, awaiting_confirmation, cancelled, failed, ensure_transition, allowed_transitions,
}
use raj_data_handle.Batch.{Batch, Source, FileReference, Store, find_batch}
use raj_data_handle.Batch.Transition.{moved, record_transition, transition_batch}
use raj_data_handle.Batch.Transition.Rows.{IsValid, transition-IsValid}
use raj_data_handle.Batch.Service.{
  CancelTimes, NewBatch, rerun_row, rerun_batch, cancel_batch, get_batch, max_version, add_batch,
  creation,
}
use raj_data_handle.Batch.Service.{confirm_batch, requested}
use raj_data_handle.Batch.Service.Confirm.{IsConfirmed}
use raj_data_handle.Execution.Start.Inputs.Ready.{IsReady, confirm-IsReady}
use raj_data_handle.Batch.Service.Cancel.{
  cancelled_row, cancelled_store, cancel-cancels, cancel-IsValid,
}
use raj_data_handle.Batch.Service.Versions.{UniqueVersions, IsNextVersion, rerun-UniqueVersions}

abbrev row : Status → Batch
row status = record {
  id = "b1";
  comparison_series_id = "s1";
  comparison_identity_key = none;
  run_version = 1;
  rerun_of_batch_id = none;
  source_id = "x";
  source_display_name = "X";
  source_config_version = 1;
  source_business_timezone = "UTC";
  source_currency = "INR";
  business_type = "payin";
  status = status;
  is_final = false;
  uploaded_file_name = "f.csv";
  uploaded_file_sha256 = "0";
  parameters_json = end;
  progress_json = end;
  execution_requested_by = 7;
  created_by = 7;
  error_category = none;
  cancellation_requested_at = none;
  cancelled_at = none;
  cancelled_by = none;
  cancellation_reason = none;
  created_at = 0;
  started_at = none;
  completed_at = none;
  result_expires_at = 100;
}

abbrev source : Source
source = record {
  source_id = "x";
  display_name = "X";
  enabled = true;
  base_url = none;
  encrypted_credentials = none;
  credential_version = 1;
  config_version = 1;
  business_timezone = "UTC";
  currency = "INR";
  credential_updated_at = none;
  last_tested_at = none;
  last_test_status = none;
  last_test_request_id = none;
  created_by = none;
  updated_by = none;
}

abbrev reference : FileReference
reference = record { file_object_id = "o"; batch_id = "b1"; expires_at = 1000 }

abbrev store_of : Status → Store
store_of status = record {
  batches = row status ∷ [];
  sources = source ∷ [];
  files = [];
  references = reference ∷ [];
  activities = [];
  notifications = [];
}

queued-IsValid : IsValid (store_of queued)
queued-IsValid = record {
  unique = (refl, tt);
  sound = (record { timed = refl; final = refl; told = refl }, tt);
}

-- the store after the batch has failed in the queue
abbrev failed_store : Store
failed_store = record_transition failed none end 5 (row queued) (store_of queued)

fails :
    transition_batch (row queued) failed none end 5 (store_of queued)
    ≡ ok (moved failed 5 (row queued), failed_store)
unfolding transition_batch ensure_transition allowed_transitions
fails = refl

transition-IsValid_example : IsValid failed_store
transition-IsValid_example =
    transition-IsValid (row queued) (moved failed 5 (row queued)) failed none end 5
      (store_of queued) failed_store queued-IsValid refl fails

abbrev times : CancelTimes
times = record { requested = 1; cancelling = 2; cancelled = 3; stamped = 4 }

cancels :
    cancel_batch "b1" 7 (some " stop ") times (store_of queued)
    ≡ ok (
      cancelled_row 7 (some " stop ") times (row queued),
      cancelled_store "b1" 7 (some " stop ") times (row queued) (store_of queued),
    )
cancels = cancel-cancels "b1" 7 (some " stop ") times (row queued) (store_of queued) refl refl

cancel-IsValid_example :
    IsValid (cancelled_store "b1" 7 (some " stop ") times (row queued) (store_of queued))
cancel-IsValid_example =
    cancel-IsValid "b1" 7 (some " stop ") times (store_of queued)
      (cancelled_store "b1" 7 (some " stop ") times (row queued) (store_of queued))
      (cancelled_row 7 (some " stop ") times (row queued)) queued-IsValid cancels

abbrev new : NewBatch
new = record {
  now = 10;
  id = "b2";
  series_id = "s2";
  uploaded_file_retention_days = 2;
  result_retention_days = 3;
}

abbrev second : Batch
second = rerun_row new 8 (row failed) source 1

abbrev rerun_store : Store
rerun_store =
    add_batch new second "o"
      (creation second "batch.rerun" 8 (field "rerunOfBatchId" (text "b1") end)) (store_of failed)

reruns : rerun_batch "b1" 8 new (store_of failed) ≡ ok (second, rerun_store)
unfolding rerun_batch get_batch max_version rerun_row add_batch
reruns = refl

rerun-UniqueVersions_example :
    ((previous : Batch) × (find_batch "b1" (store_of failed).batches ≡ some previous)
      × IsNextVersion previous second (store_of failed) rerun_store)
    × UniqueVersions rerun_store.batches
rerun-UniqueVersions_example =
    rerun-UniqueVersions "b1" 8 new (store_of failed) rerun_store second (tt, tt) reruns

-- a draft with all that `confirm_batch` asks for
abbrev parameters : Fields
parameters =
    field "templateDetection"
      (dict "" (
        field "status" (text "matched") (
          field "template"
            (dict "" (field "businessType" (text "payin") (field "platformKey" (text "pay") end)))
            end)))
      (field "selectedChannels"
        (list "" (
          item
            (dict "" (
              field "code" (text "c")
                (field "label" (text "C") (field "platformKey" (text "pay") end))))
            nil))
        (field "comparisonWindow"
          (dict "" (
            field "start" (text "2026-01-01") (
              field "end" (text "2026-01-02") (
                field "paymentTimeField" (text "time") (
                  field "paymentTimezone" (text "UTC") (
                    field "remoteTimeField" (text "pay_time")
                      (field "remoteBusinessTimezone" (text "UTC") end)))))))
          (field "currency" (text "inr") end)))

abbrev draft : Batch
draft = record (row awaiting_confirmation) { parameters_json = parameters }

abbrev draft_store : Store
draft_store = record (store_of awaiting_confirmation) { batches = draft ∷ [] }

abbrev confirmed : Batch
confirmed = moved queued 5 (requested 7 draft)

abbrev confirmed_store : Store
confirmed_store =
    record_transition queued (some 7) (field "parametersConfirmed" (bool true) end) 5
      (requested 7 draft) (record draft_store { batches = requested 7 draft ∷ [] })

confirms : confirm_batch "b1" 7 5 draft_store ≡ ok (confirmed, confirmed_store)
unfolding confirm_batch get stripped strip upper_codes codes transition_batch ensure_transition
confirms = refl

confirm-IsReady_example :
    IsConfirmed "b1" 7 5 draft_store confirmed confirmed_store × IsReady confirmed
confirm-IsReady_example = confirm-IsReady "b1" 7 5 draft_store confirmed_store confirmed confirms
