-- ===== src/Worker.antt =====
-- apps/worker/main.py: `process_next_batch` around an execution. An execution is what it does to the
-- store and whether it raises; what it is in detail stands in Execution.
pub mod Settled
pub mod Whole
mod Tests
use raj_data_handle.Base.{
  ℕ, String, Bool, true, false, not, ◌&&◌, Option, none, some, List, [], ◌∷◌, Result, ok, err,
  invalid_request_error, leb, if◌then◌else◌,
}
use raj_data_handle.Value.{end}
use raj_data_handle.BatchState.{Status, queued, failed, terminal_batch_statuses, same_status, is_in}
use raj_data_handle.Batch.{Batch, Store, find_batch, update_batch}
use raj_data_handle.Batch.Transition.{transition_batch}

-- `execute_reconciliation_batch` with its commits, also those before an exception
abbrev pub Execute : Type 0
Execute = Batch → Store → Result (Unit {0}) × Store

first_of : Batch → Option Batch → Batch
first_of b none = b
first_of b (some c) = if leb b.created_at c.created_at then b else c

-- the queued batch that was created first and is not locked by another worker
unfoldable pub next_queued : (locked : String → Bool) → List Batch → Option Batch
unfolding first_of
next_queued locked [] = none
next_queued locked (b ∷ batches) =
    let rest = next_queued locked batches in
    if same_status b.status queued && not (locked b.id) then some (first_of b rest) else rest

unfoldable pub internal_error : Batch → Batch
internal_error b = record b { error_category = some "internal_error" }

-- the commit of a transition, or the rollback after its exception
committed : Result (Batch × Store) → Store → Store
committed (ok r) s = r.1
committed (err e) s = s

-- the row as it is after the rollback, where it is not terminal
unfoldable pub mark_failed : (now : ℕ) → Batch → Store → Store
unfolding committed internal_error
mark_failed now b s =
    if is_in b.status terminal_batch_statuses
    then s
    else committed
        (transition_batch (internal_error b) failed none end now
          (record s { batches = update_batch b.id internal_error s.batches }))
        s

-- the handler with the row that `refresh` reads, which raises where it is gone
recover : (now : ℕ) → Option Batch → Store → Result Bool × Store
recover now none s = (err invalid_request_error, s)
recover now (some b) s = (ok true, mark_failed now b s)

unfoldable pub after_execution :
    (id : String) → (now : ℕ) → Result (Unit {0}) × Store → Result Bool × Store
unfolding recover
after_execution id now (ok _, s) = (ok true, s)
after_execution id now (err e, s) = recover now (find_batch id s.batches) s

process : Execute → (now : ℕ) → Store → Option Batch → Result Bool × Store
unfolding after_execution
process execute now s none = (ok false, s)
process execute now s (some b) = after_execution b.id now (execute b s)

-- `process_next_batch`
unfoldable pub process_next_batch :
    Execute → (locked : String → Bool) → (now : ℕ) → Store → Result Bool × Store
unfolding process
process_next_batch execute locked now s = process execute now s (next_queued locked s.batches)
