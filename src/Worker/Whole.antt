-- ===== src/Worker/Whole.antt =====
-- apps/worker/main.py: `process_next_batch` with the execution as it is.
use mathlib.Core.Path.{subst}
use raj_data_handle.Base.{
  ℕ, ◌≡◌, refl, sym, ap, ◌∙◌, ◌⊎◌, inl, inr, String, Bool, none, some, List, Result, ok, err,
  Exception, Option-cases,
}
use raj_data_handle.Value.{Fields}
use raj_data_handle.Batch.{Batch, Store, find_batch}
use raj_data_handle.Remote.Session.{Client}
use raj_data_handle.Execution.Steps.{OrderResult, Run, World, Outcome, value, raised, returned}
use raj_data_handle.Execution.Start.{execute_reconciliation_batch}
use raj_data_handle.Execution.Start.Inputs.{Front}
use raj_data_handle.Execution.Start.Ended.{IsDone}
use raj_data_handle.Execution.Start.Settled.{execute-IsDone}
use raj_data_handle.Worker.{
  Execute, next_queued, after_execution, recover, process, process_next_batch,
}
use raj_data_handle.Worker.Settled.{IsSettled, process_next_batch-IsSettled}

-- what the worker sees of an outcome
abbrev seen_as : Outcome (Unit {0}) → Result (Unit {0})
seen_as (value _) = ok tt
seen_as returned = ok tt
seen_as (raised e) = err e

module _ (world : World) (front : Front) (shown_list : List ℕ → String)
    (shown_dict : Fields → String) where
  -- the call of `execute_reconciliation_batch` with the batch that was taken; the client is not open
  unfoldable pub executed : (results : List OrderResult) → (closed : Client) → Execute
  executed results closed b s =
      let (o, t) =
        execute_reconciliation_batch world front shown_list shown_dict
          (record { batch = b; store = s; results = results; client = closed; moment = 0 }) in
      (seen_as o, t.store)

  -- a row that is there after an execution that returns
  seen_as-IsSettled :
      (id : String) (o : Outcome (Unit {0})) (t : Run) (row : Batch)
      → IsDone id (o, t)
      → seen_as o ≡ ok tt
      → find_batch id t.store.batches ≡ some row
      → IsSettled row.status
  seen_as-IsSettled id (value _) t row (e, h) k found =
      h row (ap (λ n. find_batch n t.store.batches) e ∙ found)
  seen_as-IsSettled id returned t row (e, h) k found =
      h row (ap (λ n. find_batch n t.store.batches) e ∙ found)
  seen_as-IsSettled id (raised x) t row h k found = absurd (cc k)

  Result-cases : (r : Result (Unit {0})) → (r ≡ ok tt) ⊎ ((e : Exception) × (r ≡ err e))
  Result-cases (ok _) = inl refl
  Result-cases (err e) = inr (e, refl)

  after_returned :
      (execute : Execute) (locked : String → Bool) (now : ℕ) (s : Store) (b : Batch)
      → next_queued locked s.batches ≡ some b
      → (execute b s).0 ≡ ok tt
      → (process_next_batch execute locked now s).1 ≡ (execute b s).1
  unfolding process_next_batch process after_execution
  after_returned execute locked now s b taken done =
      ap (λ o. (process execute now s o).1) taken
      ∙ ap (λ r. (after_execution b.id now (r, (execute b s).1)).1) done

  after_lost :
      (execute : Execute) (locked : String → Bool) (now : ℕ) (s : Store) (b : Batch) (e : Exception)
      → next_queued locked s.batches ≡ some b
      → (execute b s).0 ≡ err e
      → find_batch b.id (execute b s).1.batches ≡ none
      → (process_next_batch execute locked now s).1 ≡ (execute b s).1
  unfolding process_next_batch process after_execution recover
  after_lost execute locked now s b e taken broken lost =
      ap (λ o. (process execute now s o).1) taken
      ∙ ap (λ r. (after_execution b.id now (r, (execute b s).1)).1) broken
      ∙ ap (λ o. (recover now o (execute b s).1).1) lost

  -- Whatever the remote site answers, other sessions commit and the file holds: a batch that the
  -- worker takes from the queue is afterwards in a terminal status or in cancelling, if its row is
  -- still there, whether its execution returns or raises.
  pub worker-IsSettled :
      (results : List OrderResult) (closed : Client) (locked : String → Bool) (now : ℕ) (s : Store)
      (b row : Batch)
      → next_queued locked s.batches ≡ some b
      → find_batch b.id (process_next_batch (executed results closed) locked now s).1.batches
        ≡ some row
      → IsSettled row.status
  unfolding executed
  worker-IsSettled results closed locked now s b row taken found =
      let execute = executed results closed in
      let run : Run = record {
        batch = b;
        store = s;
        results = results;
        client = closed;
        moment = 0;
      } in
      let done = (execute-IsDone world front shown_list shown_dict).from run in
      elim (Result-cases (execute b s).0) [
        | inl returns ↦
            let same = after_returned execute locked now s b taken returns in
            seen_as-IsSettled b.id
              (execute_reconciliation_batch world front shown_list shown_dict run).0
              (execute_reconciliation_batch world front shown_list shown_dict run).1 row done
              returns (sym (ap (λ (t : Store). find_batch b.id t.batches) same) ∙ found)
        | inr (e, raises) ↦ elim (Option-cases (find_batch b.id (execute b s).1.batches)) [
          | inl lost ↦
              let same = after_lost execute locked now s b e taken raises lost in
              absurd (cc (ap (λ (t : Store). find_batch b.id t.batches) same))
          | inr (r, there) ↦
              let (c, stored, settled) =
                process_next_batch-IsSettled execute locked now s (execute b s).1 b r e taken
                  (ap
                    (λ (x : Result (Unit {0})).
                      let y : Result (Unit {0}) × Store = (x, (execute b s).1) in y)
                    raises)
                  there in
              let same : some c ≡ some row = sym stored ∙ found in
              let same_row : c ≡ row = cc same in
              subst (λ (x : Batch). IsSettled x.status) same_row settled
        ]
      ]
