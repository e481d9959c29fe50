-- ===== src/Worker/Settled.antt =====
-- apps/worker/main.py: the batch after an execution that raised.
use raj_data_handle.Base.{
  ℕ, ◌≡◌, ◌⊎◌, refl, sym, ap, ◌∙◌, String, Bool, true, false, none, some, List, [], ◌∷◌, Result, ok,
  err, Exception, Bool-cases, inl, inr, arith, eq_iff,
}
use mathlib.Core.Path.{Path}
use raj_data_handle.Value.{end}
use raj_data_handle.BatchState.{
  Status, uploaded, awaiting_confirmation, queued, validating, fetching_remote, comparing,
  rechecking, completed, cancelling, cancelled, failed, comparison_incomplete,
  terminal_batch_statuses, is_in, allowed_transitions, ensure_transition,
}
use raj_data_handle.Batch.{Batch, Store, find_batch, update_batch}
use raj_data_handle.Batch.Transition.{moved, record_transition, transition_batch}
use raj_data_handle.Worker.{
  Execute, next_queued, internal_error, committed, mark_failed, recover, after_execution, process,
  process_next_batch,
}

-- what the worker leaves a batch as
abbrev pub IsSettled : Status → Type 0
IsSettled status = (is_in status terminal_batch_statuses ≡ true) ⊎ (status ≡ cancelling)

pub find_batch-update :
    (id : String) (f : Batch → Batch) (batches : List Batch) {b : Batch}
    → ((x : Batch) → (f x).id ≡ x.id)
    → find_batch id batches ≡ some b
    → find_batch id (update_batch id f batches) ≡ some (f b)
find_batch-update id f [] keeps h = cc
find_batch-update id f (a ∷ batches) {b} keeps h =
    ground (arith, keeps a, find_batch-update id f batches {b = b} keeps)

pub find_batch-id :
    (id : String) (batches : List Batch) {b : Batch} → find_batch id batches ≡ some b → b.id ≡ id
find_batch-id id [] h = cc
find_batch-id id (a ∷ batches) {b} h =
    ground (arith, eq_iff a.id id, find_batch-id id batches {b = b})

-- the table lets every status that is neither terminal nor `cancelling` fail
failing :
    (status : Status)
    → is_in status terminal_batch_statuses ≡ false
    → (is_in failed (allowed_transitions status) ≡ true) ⊎ (status ≡ cancelling)
unfolding allowed_transitions
failing uploaded h = inl refl
failing awaiting_confirmation h = inl refl
failing queued h = inl refl
failing validating h = inl refl
failing fetching_remote h = inl refl
failing comparing h = inl refl
failing rechecking h = inl refl
failing cancelling h = inr refl
failing completed h = cc
failing failed h = cc
failing cancelled h = cc
failing comparison_incomplete h = cc

mark_failed-terminal :
    (now : ℕ) (b : Batch) (s : Store)
    → is_in b.status terminal_batch_statuses ≡ true
    → mark_failed now b s ≡ s
unfolding mark_failed
mark_failed-terminal now b s h = rw h refl

-- the store after the commit that marks a batch as failed
abbrev failed_store : ℕ → Batch → Store → Store
failed_store now b s =
    record_transition failed none end now (internal_error b)
      (record s { batches = update_batch b.id internal_error s.batches })

mark_failed-failing :
    (now : ℕ) (b : Batch) (s : Store)
    → is_in b.status terminal_batch_statuses ≡ false
    → is_in failed (allowed_transitions b.status) ≡ true
    → mark_failed now b s ≡ failed_store now b s
unfolding mark_failed transition_batch ensure_transition committed internal_error
mark_failed-failing now b s h k = rw h (rw k refl)

mark_failed-cancelling :
    (now : ℕ) (b : Batch) (s : Store) → b.status ≡ cancelling → mark_failed now b s ≡ s
unfolding mark_failed transition_batch ensure_transition committed internal_error
    allowed_transitions
mark_failed-cancelling now b s h = rw h refl

failed_store-find :
    (now : ℕ) (b : Batch) (s : Store)
    → find_batch b.id s.batches ≡ some b
    → find_batch b.id (failed_store now b s).batches ≡ some (moved failed now (internal_error b))
unfolding record_transition internal_error moved
failed_store-find now b s h =
    find_batch-update b.id (moved failed now) (update_batch b.id internal_error s.batches)
      (λ x. refl) (find_batch-update b.id internal_error s.batches (λ x. refl) h)

mark_failed-IsSettled :
    (now : ℕ) (b : Batch) (s : Store)
    → find_batch b.id s.batches ≡ some b
    → (c : Batch) × (find_batch b.id (mark_failed now b s).batches ≡ some c) × IsSettled c.status
unfolding moved
mark_failed-IsSettled now b s h = elim (Bool-cases (is_in b.status terminal_batch_statuses)) [
  | inl e ↦
      (b, ap (λ (t : Store). find_batch b.id t.batches) (mark_failed-terminal now b s e) ∙ h, inl e)
  | inr e ↦ elim (failing b.status e) [
    | inl k ↦ (
      moved failed now (internal_error b),
      ap (λ (t : Store). find_batch b.id t.batches) (mark_failed-failing now b s e k)
          ∙ failed_store-find now b s h,
      inl refl,
    )
    | inr k ↦ (
      b,
      ap (λ (t : Store). find_batch b.id t.batches) (mark_failed-cancelling now b s k) ∙ h,
      inr k,
    )
  ]
]

process_next_batch-mark_failed :
    (execute : Execute) (locked : String → Bool) (now : ℕ) (s t : Store) (b r : Batch)
    (e : Exception)
    → next_queued locked s.batches ≡ some b
    → Path (Result (Unit {0}) × Store) (execute b s) (err e, t)
    → find_batch b.id t.batches ≡ some r
    → Path
        (Result Bool × Store)
        (process_next_batch execute locked now s)
        (ok true, mark_failed now r t)
unfolding process_next_batch process recover after_execution
process_next_batch-mark_failed execute locked now s t b r e taken run found =
    ap (process execute now s) taken
    ∙ ap (after_execution b.id now) run
    ∙ ap (λ o. recover now o t) found

-- If the worker takes a batch and its execution raises, whatever the execution has committed before, then a
-- batch that is still there has ended afterwards, or is being cancelled.
pub process_next_batch-IsSettled :
    (execute : Execute) (locked : String → Bool) (now : ℕ) (s t : Store) (b r : Batch)
    (e : Exception)
    → next_queued locked s.batches ≡ some b
    → Path (Result (Unit {0}) × Store) (execute b s) (err e, t)
    → find_batch b.id t.batches ≡ some r
    → (c : Batch) × (find_batch b.id (process_next_batch execute locked now s).1.batches ≡ some c)
      × IsSettled c.status
process_next_batch-IsSettled execute locked now s t b r e taken run found =
    let id = find_batch-id b.id t.batches found in
    let (c, stored, settled) =
      mark_failed-IsSettled now r t (ap (λ n. find_batch n t.batches) id ∙ found) in
    (
      c,
      ap (λ (x : Result Bool × Store). find_batch b.id x.1.batches)
            (process_next_batch-mark_failed execute locked now s t b r e taken run found)
          ∙ ap (λ n. find_batch n (mark_failed now r t).batches) (sym id)
          ∙ stored,
      settled,
    )
