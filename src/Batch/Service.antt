-- ===== src/Batch/Service.antt =====
-- packages/domain/services/batch_service.py: creating, confirming, cancelling and rerunning a
-- batch. What an operation that raises has not committed is lost, so it returns no store then.
pub mod Cancel
pub mod Confirm
pub mod Versions
use Prim.Native.Nat.{max}
use raj_data_handle.Base.{
  ℕ, ◌+◌, ◌*◌, ◌≡◌, String, Bool, true, false, not, ◌&&◌, ◌||◌, Option, none, some, List, [], ◌∷◌,
  ◌++◌, Result, ok, err, arith, raise_if, is_some, ◌>>=◌, ◌>>◌, type_error, batch_validation_error,
  leb, ltb, eqb, any_of, ◌==◌, if◌then◌else◌,
}
use raj_data_handle.Base.Int.{pos}
use raj_data_handle.Text.{is_empty, strip, upper_codes, codes, same_codes}
use raj_data_handle.Value.{
  Value, null, bool, int, text, list, dict, Items, nil, item, Fields, end, field, get, put, truthy,
  str_or_empty, stripped,
}
use raj_data_handle.BatchState.{
  Status, queued, cancelling, cancelled, failed, awaiting_confirmation, terminal_batch_statuses,
  cancellable_batch_statuses, same_status, is_in,
}
use raj_data_handle.Batch.{
  Batch, Source, FileObject, FileReference, Activity, Store, find_batch, update_batch, find_source,
}
use raj_data_handle.Batch.Transition.{transition_batch}
use raj_data_handle.Batch.Validation.{validate_execution_parameters}

-- `get_batch`
unfoldable pub get_batch : String → Store → Result Batch
get_batch id s = elim (find_batch id s.batches) [
  | none ↦ err batch_validation_error
  | some b ↦ ok b
]

-- {"stage": stage, "processedRows": 0}
abbrev pub progress_at : String → Fields
progress_at stage = field "stage" (text stage) (field "processedRows" (int (pos 0)) end)

abbrev pub requested : ℕ → Batch → Batch
requested actor b = record b {
  execution_requested_by = actor;
  progress_json = progress_at "queued";
}

-- `confirm_batch`; the columns that it sets are committed with the transition
unfoldable pub confirm_batch : String → (actor : ℕ) → (now : ℕ) → Store → Result (Batch × Store)
unfolding get_batch validate_execution_parameters
confirm_batch id actor now s = do
  b ← get_batch id s
  raise_if (not (same_status b.status awaiting_confirmation)) batch_validation_error
  validate_execution_parameters b
  transition_batch (requested actor b) queued (some actor)
      (field "parametersConfirmed" (bool true) end) now
      (record s { batches = update_batch id (requested actor) s.batches })

-- `(reason or "").strip() or None`
abbrev given_reason : Option String → Option String
given_reason none = none
given_reason (some r) = if is_empty (strip r) then none else some (strip r)

abbrev cancellation : ℕ → ℕ → Option String → Batch → Batch
cancellation now actor reason b = record b {
  cancellation_requested_at = some now;
  cancelled_by = some actor;
  cancellation_reason = given_reason reason;
}

abbrev stamped : ℕ → Batch → Batch
stamped now b = record b { cancelled_at = some now }

-- the readings of the clock in `cancel_batch`, in order
pub record CancelTimes : Type 0 where
  pub requested : ℕ
  pub cancelling : ℕ
  pub cancelled : ℕ
  pub stamped : ℕ

-- the second transition and the stamp after it
finish_cancel : String → ℕ → CancelTimes → Batch → Store → Result (Batch × Store)
finish_cancel id actor times c s = do
  (d, t) ← transition_batch c cancelled (some actor) end times.cancelled s
  ok (
    stamped times.stamped d,
    record t { batches = update_batch id (stamped times.stamped) t.batches },
  )

run_cancel : String → ℕ → Option String → CancelTimes → Batch → Store → Result (Batch × Store)
run_cancel id actor reason times b s = do
  (c, s₁) ←
      transition_batch (cancellation times.requested actor reason b) cancelling (some actor)
        (field "reasonProvided" (bool (is_some (given_reason reason))) end) times.cancelling
        (record s {
          batches = update_batch id (cancellation times.requested actor reason) s.batches;
        })
  if same_status c.status cancelling then finish_cancel id actor times c s₁ else ok (c, s₁)

-- the tests on the status
cancel_found : String → ℕ → Option String → CancelTimes → Batch → Store → Result (Batch × Store)
cancel_found id actor reason times b s =
    if is_in b.status terminal_batch_statuses
    then if same_status b.status cancelled then ok (b, s) else err batch_validation_error
    else if is_in b.status cancellable_batch_statuses
    then run_cancel id actor reason times b s
    else err batch_validation_error

-- `cancel_batch`
pub cancel_batch :
    String → (actor : ℕ) → (reason : Option String) → CancelTimes → Store → Result (Batch × Store)
cancel_batch id actor reason times s = do b ← get_batch id s; cancel_found id actor reason times b s

-- the largest `run_version` of a series, `none` if it has no row
unfoldable pub max_version : String → List Batch → Option ℕ
max_version series [] = none
max_version series (b ∷ batches) =
    let rest = max_version series batches in
    if b.comparison_series_id == series
    then elim rest [ none ↦ some b.run_version | some n ↦ some (max b.run_version n) ]
    else rest

-- `int(max_or_none or default)`
abbrev latest_version : Option ℕ → ℕ → ℕ
latest_version none default = default
latest_version (some n) default = if eqb n 0 then default else n

-- the first reference of the batch that has not expired
abbrev live_reference : String → ℕ → List FileReference → Option FileReference
live_reference id now [] = none
live_reference id now (r ∷ references) =
    if r.batch_id == id && ltb now r.expires_at then some r else live_reference id now references

-- an enabled source, or the refusal
abbrev pub enabled_source : Option Source → Result Source
enabled_source none = err batch_validation_error
enabled_source (some x) = if x.enabled then ok x else err batch_validation_error

abbrev pub day : ℕ
day = 86400000000

-- what a new version takes from outside: the time, in microseconds, the id that `new_uuid` gives,
-- and the retention settings in days
pub record NewBatch : Type 0 where
  pub now : ℕ
  pub id : String
  pub series_id : String
  pub uploaded_file_retention_days : ℕ
  pub result_retention_days : ℕ

unfoldable pub rerun_row : NewBatch → ℕ → Batch → Source → ℕ → Batch
rerun_row new actor previous source version = record {
  id = new.id;
  comparison_series_id = previous.comparison_series_id;
  comparison_identity_key = previous.comparison_identity_key;
  run_version = version + 1;
  rerun_of_batch_id = some previous.id;
  source_id = source.source_id;
  source_display_name = source.display_name;
  source_config_version = source.config_version;
  source_business_timezone = source.business_timezone;
  source_currency = source.currency;
  business_type = previous.business_type;
  status = awaiting_confirmation;
  is_final = false;
  uploaded_file_name = previous.uploaded_file_name;
  uploaded_file_sha256 = previous.uploaded_file_sha256;
  parameters_json = previous.parameters_json;
  progress_json = progress_at "awaiting_confirmation";
  execution_requested_by = actor;
  created_by = previous.created_by;
  error_category = none;
  cancellation_requested_at = none;
  cancelled_at = none;
  cancelled_by = none;
  cancellation_reason = none;
  created_at = new.now;
  started_at = none;
  completed_at = none;
  result_expires_at = new.now + new.result_retention_days * day;
}

-- the log entry of a new row
abbrev pub creation : Batch → String → ℕ → Fields → Activity
creation b action actor metadata = record {
  batch_id = b.id;
  actor_user_id = some actor;
  action = action;
  from_status = none;
  to_status = some b.status;
  metadata_json = metadata;
}

-- the rows that the commit of a new batch adds
unfoldable pub add_batch : NewBatch → Batch → String → Activity → Store → Store
add_batch new b file_object_id activity s = record s {
  batches = s.batches ++ b ∷ [];
  references =
      s.references
      ++ record {
        file_object_id = file_object_id;
        batch_id = b.id;
        expires_at = new.now + new.uploaded_file_retention_days * day;
      }
        ∷ [];
  activities = s.activities ++ activity ∷ [];
}

abbrev found_reference : Option FileReference → Result FileReference
found_reference none = err batch_validation_error
found_reference (some r) = ok r

-- `rerun_batch`; the flush before the search for the reference is rolled back if there is none
unfoldable pub rerun_batch : String → (actor : ℕ) → NewBatch → Store → Result (Batch × Store)
unfolding get_batch max_version rerun_row add_batch
rerun_batch id actor new s = do
  previous ← get_batch id s
  raise_if (not (is_in previous.status terminal_batch_statuses)) batch_validation_error
  source ← enabled_source (find_source previous.source_id s.sources)
  let version =
      latest_version (max_version previous.comparison_series_id s.batches) previous.run_version
  let b = rerun_row new actor previous source version
  reference ← found_reference (live_reference previous.id new.now s.references)
  ok (
    b,
    add_batch new b reference.file_object_id
        (creation b "batch.rerun" actor (field "rerunOfBatchId" (text previous.id) end)) s,
  )

-- `get_batch` of a row that is there, and of one that is not
pub get_batch-some :
    (id : String) (s : Store) {b : Batch} → find_batch id s.batches ≡ some b → get_batch id s ≡ ok b
unfolding get_batch
get_batch-some id s h = ground arith

pub get_batch-none :
    (id : String) (s : Store)
    → find_batch id s.batches ≡ none
    → get_batch id s ≡ err batch_validation_error
unfolding get_batch
get_batch-none id s h = ground arith
