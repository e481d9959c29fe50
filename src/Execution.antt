-- ===== src/Execution.antt =====
-- packages/domain/services/reconciliation_execution_service.py: the comparison, the recheck and the
-- publication of results, from the filtered remote orders on.
pub mod Steps
pub mod Decisions
pub mod Confirmed
pub mod Publish
pub mod Start
mod Tests
use raj_data_handle.Base.{
  ℕ, zero, suc, ◌+◌, ◌-◌, ◌%◌, String, Bool, true, false, not, ◌&&◌, ◌||◌, Option, none, some, List,
  [], ◌∷◌, ◌++◌, map, Result, ok, err, bind_result, Exception, invalid_request_error, value_error,
  key_error, zone_not_found, invalid_batch_transition, batch_validation_error, payment_import_error,
  security_validation_error, is_remote_error, eqb, length, keep, ◌==◌, if◌then◌else◌,
}
use raj_data_handle.Base.Int.{pos}
use raj_data_handle.Value.{
  Value, null, text, int, list, dict, Items, nil, item, Fields, end, field, put,
}
use raj_data_handle.Payment.{PaymentOrderGroup, DateTime, confirmed_missing, recheck_inconclusive}
use raj_data_handle.Decimal.{Decimal, decimal_text}
use raj_data_handle.Engine.{ReconciliationDecision, compare_with_remote_orders}
use raj_data_handle.BatchState.{
  Status, cancelling, cancelled, comparing, completed, comparison_incomplete, rechecking,
  same_status, is_in,
}
use raj_data_handle.Batch.{Batch, Store, find_batch, update_batch}
use raj_data_handle.Batch.Transition.{transition_batch}
use raj_data_handle.Remote.{Channel}
use raj_data_handle.Remote.Session.{Client, Site}
use raj_data_handle.Remote.Orders.{ExactSearchResult, exact_search}
use Steps.{
  OrderResult, Run, World, Outcome, value, raised, returned, Task, pure, return_early, ◌>>=◌, ◌>>◌,
  lift, remote,
}

abbrev pub Decided : Type 0
Decided = PaymentOrderGroup × ReconciliationDecision

-- `{**batch.progress_json, **values}`
merged : Fields → List (String × Value) → Fields
merged progress [] = progress
merged progress ((key, v) ∷ values) = merged (put key v progress) values

refreshed : Option Batch → Store → Run → Outcome Bool × Run
refreshed none store s =
    (raised invalid_request_error, record s { store = store; moment = s.moment + 1 })
refreshed (some b) store s = (
  value (is_in b.status (cancelling ∷ cancelled ∷ [])),
  record s { batch = b; store = store; moment = s.moment + 1 },
)

moved_to : Result (Batch × Store) → Task Unit
moved_to (err e) s = (raised e, record s { moment = s.moment + 1 })
moved_to (ok (b, store)) s =
    (value tt, record s { batch = b; store = store; moment = s.moment + 1 })

module _ (world : World) where
  -- `_set_progress`: the one column that changed is written to the row
  unfoldable pub set_progress : List (String × Value) → Task Unit
  unfolding merged
  set_progress values s =
      let progress = merged s.batch.progress_json values in
      let store = world.others s.moment s.store in
      (
        value tt,
        record s {
          batch = record s.batch { progress_json = progress };
          store = record store {
            batches =
                update_batch s.batch.id (λ b. record b { progress_json = progress }) store.batches;
          };
          moment = s.moment + 1;
        },
      )

  -- `_cancelled`
  unfoldable pub is_cancelled : Task Bool
  unfolding refreshed
  is_cancelled s =
      let store = world.others s.moment s.store in
      refreshed (find_batch s.batch.id store.batches) store s

  -- `transition_batch` without an actor
  unfoldable pub transition : Status → Task Unit
  unfolding moved_to
  transition to_status s =
      moved_to
        (transition_batch s.batch to_status none end (world.now s.moment)
          (world.others s.moment s.store))
        s

-- a group without a decision is a candidate
unfoldable pub sorted_out :
    PaymentOrderGroup
    → Option ReconciliationDecision
    → List Decided × List PaymentOrderGroup
    → List Decided × List PaymentOrderGroup
sorted_out p none (decisions, candidates) = (decisions, p ∷ candidates)
sorted_out p (some d) (decisions, candidates) = ((p, d) ∷ decisions, candidates)

-- the first pass over the groups: decisions and candidates
unfoldable pub first_pass :
    List Fields → List PaymentOrderGroup → Result (List Decided × List PaymentOrderGroup)
first_pass orders [] = ok ([], [])
first_pass orders (p ∷ groups) =
    bind_result (compare_with_remote_orders p orders false)
      λ d. bind_result (first_pass orders groups) λ rest. ok (sorted_out p d rest)

-- the decision after the exact search
unfoldable pub after_search : Bool → Option ReconciliationDecision → ReconciliationDecision
after_search complete (some d) = d
after_search complete none = record {
  result_status = if not complete then recheck_inconclusive else confirmed_missing;
  remote_order = none;
}

abbrev or_empty : Option String → String
or_empty none = ""
or_empty (some s) = s

module _ (world : World) where
  -- `if await _cancelled(session, batch): return`
  unfoldable pub unless_cancelled : Task Unit
  unless_cancelled = is_cancelled world >>= λ stop. if stop then return_early else pure tt

  -- one candidate is searched for by its numbers
  unfoldable pub recheck_one : List Channel → PaymentOrderGroup → Task Decided
  recheck_one channels p = do
    exact ←
        remote (exact_search world.site channels (or_empty p.merchant_order_no) p.platform_order_no)
    d ← lift (compare_with_remote_orders p exact.orders true)
    pure (p, after_search exact.complete d)

  -- the progress after every 25 candidates and after the last
  unfoldable pub report : (total index decided : ℕ) → Task Unit
  report total index decided =
      if eqb (index % 25) 0 || eqb index total
      then set_progress world (
          ("stage", text "rechecking")
          ∷ ("recheckedRows", int (pos index))
          ∷ ("processedRows", int (pos decided))
          ∷ [])
      else pure tt

  -- the loop over the candidates from `index` on
  unfoldable pub recheck :
      List Channel → (total index : ℕ) → List PaymentOrderGroup → List Decided → Task (List Decided)
  recheck channels total index [] decisions = pure decisions
  recheck channels total index (p ∷ rest) decisions = do
    _ ← if eqb (index % 25) 1 then unless_cancelled else pure tt
    one ← recheck_one channels p
    _ ← report total index (length (decisions ++ one ∷ []))
    recheck channels total (index + 1) rest (decisions ++ one ∷ [])

  unfoldable pub recheck_all :
      List Channel → List PaymentOrderGroup → List Decided → Task (List Decided)
  recheck_all channels [] decisions = pure decisions
  recheck_all channels (p ∷ rest) decisions = do
    _ ← unless_cancelled
    _ ← transition world rechecking
    recheck channels (length (p ∷ rest)) 1 (p ∷ rest) decisions

  -- from the first pass to the end of the `try`
  unfoldable pub decide : List Channel → List Fields → List PaymentOrderGroup → Task (List Decided)
  decide channels orders groups = do
    (decisions, candidates) ← lift (first_pass orders groups)
    _ ← set_progress world (
        ("stage", text "comparing")
        ∷ ("processedRows", int (pos (length groups - length candidates)))
        ∷ ("candidateMissing", int (pos (length candidates)))
        ∷ [])
    recheck_all channels candidates decisions
