-- ===== src/Execution/Publish.antt =====
-- reconciliation_execution_service.py: `_result_payload`, `_save_results`, and the end of
-- `execute_reconciliation_batch` with the handler before it.
pub mod Rows
use raj_data_handle.Base.{
  ℕ, String, Bool, true, false, not, Option, none, some, List, [], ◌∷◌, ◌++◌, map, Exception,
  value_error, key_error, zone_not_found, invalid_batch_transition, batch_validation_error,
  payment_import_error, security_validation_error, is_remote_error, is_key_error, is_value_error,
  ◌||◌, length, keep, ◌==◌, if◌then◌else◌,
}
use raj_data_handle.Base.Int.{pos}
use raj_data_handle.Value.{Value, null, text, int, list, dict, Items, nil, item, Fields, end, field}
use raj_data_handle.Payment.{PaymentOrderGroup, DateTime}
use raj_data_handle.Decimal.{Decimal, decimal_text}
use raj_data_handle.BatchState.{comparing, completed, comparison_incomplete}
use raj_data_handle.Batch.{Batch, update_batch}
use raj_data_handle.Batch.Transition.{transition_batch}
use raj_data_handle.Remote.{Channel}
use raj_data_handle.Execution.Steps.{
  OrderResult, World, Outcome, value, raised, returned, Task, pure, return_early, ◌>>=◌, ◌>>◌,
}
use raj_data_handle.Execution.{
  Decided, moved_to, set_progress, transition, unless_cancelled, decide,
}

abbrev amount_value : Option Decimal → Value
amount_value none = null
amount_value (some a) = text (decimal_text a)

abbrev time_value : Option DateTime → Value
time_value none = null
time_value (some t) = text t.isoformat

abbrev number_items : List ℕ → Items
number_items [] = nil
number_items (n ∷ numbers) = item (int (pos n)) (number_items numbers)

abbrev order_value : (Fields → String) → Option Fields → Value
order_value shown none = null
order_value shown (some order) = dict (shown order) order

-- `_result_payload`; the texts are those that `str` would give for the list and the dict
unfoldable pub result_payload : (List ℕ → String) → (Fields → String) → Decided → Fields
result_payload shown_list shown_dict (p, d) = field "platformKey" (text p.platform_key) (
    field "amount" (amount_value p.amount) (
      field "currency" (text p.currency) (
        field "paymentTime" (time_value p.payment_time) (
          field "sourceSheet" (text p.source_sheet) (
            field "sourceRowNumbers"
              (list (shown_list p.source_row_numbers) (number_items p.source_row_numbers))
              (field "duplicateCount" (int (pos p.duplicate_count))
                (field "remoteOrder" (order_value shown_dict d.remote_order) end)))))))

module _ (shown_list : List ℕ → String) (shown_dict : Fields → String) where
  unfoldable pub result_row : String → Decided → OrderResult
  result_row batch_id (p, d) = record {
    batch_id = batch_id;
    order_group_id = p.order_group_id;
    result_status = d.result_status;
    payment_status_raw = p.payment_status_raw;
    payment_status_group = p.payment_status_group;
    merchant_order_no = p.merchant_order_no;
    platform_order_no = p.platform_order_no;
    payload_json = result_payload shown_list shown_dict (p, d);
    is_final = false;
  }

  -- `_save_results`: the rows of the batch are replaced
  unfoldable pub save_results : List Decided → Task Unit
  save_results decisions s = (
    value tt,
    record s {
      results =
          keep (λ (row : OrderResult). not (row.batch_id == s.batch.id)) s.results
          ++ map (result_row s.batch.id) decisions;
    },
  )

-- `.values(is_final=True)` on the rows of the batch
unfoldable pub finalized : String → List OrderResult → List OrderResult
finalized id [] = []
finalized id (row ∷ rows) =
    (if row.batch_id == id then record row { is_final = true } else row) ∷ finalized id rows

-- `RemoteChargeError`, `KeyError` and `ValueError` with their subclasses
abbrev pub is_incomplete : Exception → Bool
is_incomplete e = is_remote_error e || is_key_error e || is_value_error e

-- a transition together with `error_category`, which is lost if the transition is refused
unfoldable pub failed_with : String → Batch → Batch
failed_with category b = record b { error_category = some category }

module _ (world : World) where
  -- the handler of the `try`
  unfoldable pub give_up : Task Unit
  unfolding moved_to failed_with
  give_up s =
      let category = failed_with "remote_read_incomplete" in
      let store = world.others s.moment s.store in
      moved_to
        (transition_batch (category s.batch) comparison_incomplete none end (world.now s.moment)
          (record store { batches = update_batch s.batch.id category store.batches }))
        s

  unfoldable pub handled : {A : Type 0} → Outcome A → Task A
  handled (value a) = pure a
  handled returned = return_early
  handled (raised e) = if is_incomplete e then (give_up >> return_early) else (λ s. (raised e, s))

  unfoldable pub attempt : {A : Type 0} → Task A → Task A
  unfolding handled
  attempt body s = let (r, t) = body s in handled r t

  -- The rest of the `try`, from the orders that are in the window on: `fetched_rows` and
  -- `fetched_pages` are the counts of the fetch.
  unfoldable pub compare_found :
      List Channel
      → (fetched_rows fetched_pages : ℕ) → List Fields
      → List PaymentOrderGroup
      → Task (List Decided)
  compare_found channels fetched_rows fetched_pages orders groups = do
    _ ← set_progress world (
        ("remoteRows", int (pos (length orders)))
        ∷ ("remoteFetchedRows", int (pos fetched_rows))
        ∷ ("remotePages", int (pos fetched_pages))
        ∷ [])
    _ ← unless_cancelled world
    _ ← transition world comparing
    decide world channels orders groups

  -- The update of the result rows has one commit with the last transition: if that is refused, it is
  -- lost.
  unfoldable pub finalize : Task Unit
  finalize s = (value tt, record s { results = finalized s.batch.id s.results })

  module _ (shown_list : List ℕ → String) (shown_dict : Fields → String) where
    -- what follows the `try`
    unfoldable pub publish : List Decided → Task Unit
    publish decisions = do
      _ ← save_results shown_list shown_dict decisions
      _ ← unless_cancelled world
      _ ←
          set_progress world
            (("stage", text "completed") ∷ ("processedRows", int (pos (length decisions))) ∷ [])
      _ ← unless_cancelled world
      _ ← transition world completed
      finalize
