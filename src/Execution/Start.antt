-- ===== src/Execution/Start.antt =====
-- reconciliation_execution_service.py: `execute_reconciliation_batch` from its start: the checks and
-- the import under the first handler, the window and the fetch under the second one.
pub mod Inputs
pub mod Times
pub mod Ended
pub mod Settled
use raj_data_handle.Base.{
  ℕ, ◌+◌, String, Bool, true, false, not, ◌&&◌, ◌||◌, Option, none, some, List, [], ◌∷◌, Result, ok,
  err, Exception, bind_result, raise_if, ◌>>◌, execution_error, type_error, is_key_error,
  is_value_error, if◌then◌else◌,
}
use raj_data_handle.Base as Base
use raj_data_handle.Base.Int.{pos}
use raj_data_handle.Value.{Value, text, int, Fields, end, item_at, str_of}
use raj_data_handle.BatchState.{validating, fetching_remote, failed}
use raj_data_handle.Batch.{Batch, Source, Store, find_source, update_batch}
use raj_data_handle.Batch.Transition.{transition_batch}
use raj_data_handle.Import.Groups.{PaymentImportResult}
use raj_data_handle.Payment.{DateTime, PaymentOrderGroup}
use raj_data_handle.Remote.{Channel}
use raj_data_handle.Remote.Session.{Client}
use raj_data_handle.Remote.Orders.{fetch_all_charge_orders}
use raj_data_handle.Execution.Steps.{
  Run, World, Outcome, value, raised, returned, Task, pure, return_early, ◌>>=◌, lift, remote,
}
use raj_data_handle.Execution.{Decided, moved_to, set_progress, transition, unless_cancelled}
use raj_data_handle.Execution.Publish.{attempt, failed_with, publish, compare_found}
use Times.{window_bounds, in_window, buffered}
use Inputs.{Front, ReadInputs, validated, selected_channels, item_of}

-- `RajAdminChargeClient(…)` with the decrypted credentials
unfoldable pub client_of : Fields → Result Client
client_of credentials = bind_result (item_at "username" credentials) λ username.
    bind_result (item_at "password" credentials) λ password.
      bind_result (item_at "totp_secret" credentials) λ totp_secret. ok (record {
        username = str_of username;
        password = str_of password;
        totp_secret = str_of totp_secret;
        page_size = 100;
        token = none;
        sent = [];
      })

-- the classes of the first handler
abbrev is_invalid : Exception → Bool
is_invalid execution_error = true
is_invalid type_error = true
is_invalid e = is_key_error e || is_value_error e

module _ (world : World) where
  -- `batch.error_category = "validation_error"` with the transition to `failed`
  unfoldable pub fail_validation : Task Unit
  unfolding moved_to failed_with
  fail_validation s =
      let category = failed_with "validation_error" in
      let store = world.others s.moment s.store in
      moved_to
        (transition_batch (category s.batch) failed none end (world.now s.moment)
          (record store { batches = update_batch s.batch.id category store.batches }))
        s

  -- the handlers of the validation and of the window
  handled_by : {A : Type 0} → (Exception → Bool) → Outcome A → Task A
  handled_by is_caught (value a) = pure a
  handled_by is_caught returned = return_early
  handled_by is_caught (raised e) =
      if is_caught e then (fail_validation >>= λ _. return_early) else (λ s. (raised e, s))

  unfoldable pub guarded : {A : Type 0} → (Exception → Bool) → Task A → Task A
  unfolding handled_by
  guarded is_caught body s = let (r, t) = body s in handled_by is_caught r t

abbrev is_execution_error : Exception → Bool
is_execution_error execution_error = true
is_execution_error _ = false

module _ (world : World) (front : Front) where
  -- the body of the first `try`, which reads the rows of the source and the file
  unfoldable pub read_inputs : Task ReadInputs
  read_inputs s =
      let store = world.others s.moment s.store in
      (lift (validated front s.batch store)) (record s { store = store; moment = s.moment + 1 })

  -- the client of the execution
  unfoldable pub open_client : Fields → Task Unit
  open_client credentials = do
    client ← lift (client_of credentials)
    λ s. (value tt, record s { client = client })

  -- the body of the second `try`
  unfoldable pub fetch_and_compare :
      ReadInputs
      → (lower upper : DateTime) → (create_start create_end zone_name : String) → List Channel
      → Task (List Decided)
  fetch_and_compare inputs lower upper create_start create_end zone_name channels = do
    _ ← open_client inputs.credentials
    (orders, pages) ← remote (fetch_all_charge_orders world.site channels create_start create_end)
    time_field ← lift (item_of "remoteTimeField" inputs.window)
    filtered ← lift (in_window front (str_of time_field) zone_name lower upper orders)
    compare_found world channels (Base.length orders) pages filtered inputs.imported.groups

  -- from the window to the end of the second `try`
  unfoldable pub fetch_and_decide : ReadInputs → Task (List Decided)
  fetch_and_decide inputs = do
    zone ← lift (item_of "remoteBusinessTimezone" inputs.window)
    (lower, upper) ←
        guarded world is_execution_error (lift (window_bounds front inputs.window (str_of zone)))
    query_lower ← lift (buffered front.minus_hours "bufferBeforeHours" inputs.window lower)
    query_upper ← lift (buffered front.plus_hours "bufferAfterHours" inputs.window upper)
    channels ← (λ s. lift (selected_channels s.batch.parameters_json) s)
    attempt world (
        fetch_and_compare inputs lower upper (front.strftime query_lower)
          (front.strftime query_upper) (str_of zone) channels)

  -- `execute_reconciliation_batch`
  unfoldable pub execute_reconciliation_batch :
      (shown_list : List ℕ → String) (shown_dict : Fields → String) → Task Unit
  execute_reconciliation_batch shown_list shown_dict = do
    _ ← transition world validating
    inputs ← guarded world is_invalid read_inputs
    _ ← set_progress world (
        ("stage", text "fetching_remote")
        ∷ ("sourceRows", int (pos inputs.imported.source_rows))
        ∷ ("includedRows", int (pos inputs.imported.included_rows))
        ∷ ("excludedOutsideWindow", int (pos inputs.imported.excluded_outside_window))
        ∷ [])
    _ ← unless_cancelled world
    _ ← transition world fetching_remote
    decisions ← fetch_and_decide inputs
    publish world shown_list shown_dict decisions
