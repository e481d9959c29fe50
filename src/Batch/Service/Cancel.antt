-- ===== src/Batch/Service/Cancel.antt =====
-- batch_service.py: which batches `cancel_batch` cancels, to what end, and the rows after it.
use mathlib.Core.Path.{subst}
use raj_data_handle.Base.{
  ℕ, ◌≡◌, refl, sym, ◌∙◌, ◌⊎◌, inl, inr, String, true, false, Option, some, ok, err,
  batch_validation_error, is_some, arith, Option-cases, Bool-cases, Result, none, false,
}
use raj_data_handle.Value.{Fields, field, bool, end}
use raj_data_handle.BatchState.{
  Status, cancelling, cancelled, terminal_batch_statuses, cancellable_batch_statuses, is_in,
  allowed_transitions, ensure_transition,
}
use raj_data_handle.BatchState.Graph.{cancellable_iff_allowed}
use raj_data_handle.Batch.{Batch, Store, find_batch, update_batch}
use raj_data_handle.Batch.Transition.{moved, transition_batch, record_transition}
use raj_data_handle.Batch.Transition.Rows.{
  IsValid, transition-IsValid, IsValid-update, find-update_self, find_id,
}
use raj_data_handle.Batch.Service.{
  CancelTimes, given_reason, cancellation, stamped, finish_cancel, run_cancel, cancel_found,
  cancel_batch, get_batch-some, get_batch-none,
}

-- the batch that a successful cancellation returns
abbrev pub cancelled_row : ℕ → Option String → CancelTimes → Batch → Batch
cancelled_row actor reason times b = stamped times.stamped (
    moved cancelled times.cancelled
      (moved cancelling times.cancelling (cancellation times.requested actor reason b)))

transition-ok :
    (b : Batch) (to : Status) (actor : Option ℕ) (metadata : Fields) (now : ℕ) (s : Store)
    → is_in to (allowed_transitions b.status) ≡ true
    → transition_batch b to actor metadata now s
      ≡ ok (moved to now b, record_transition to actor metadata now b s)
unfolding transition_batch ensure_transition
transition-ok b to actor metadata now s h = rw h

not_yet :
    (a : Status)
    → is_in a cancellable_batch_statuses ≡ true
    → is_in a terminal_batch_statuses ≡ false
not_yet a h = ground arith

pair-store :
    {b c : Batch} {s t : Store} → Path (Result (Batch × Store)) (ok (b, s)) (ok (c, t)) → s ≡ t
pair-store h = cc

module _ (id : String) (actor : ℕ) (reason : Option String) (times : CancelTimes) where
  abbrev asked : Batch → Batch
  asked = cancellation times.requested actor reason

  abbrev asked_store : Store → Store
  asked_store s = record s { batches = update_batch id asked s.batches }

  abbrev cancelling_store : Batch → Store → Store
  cancelling_store b s =
      record_transition cancelling (some actor)
        (field "reasonProvided" (bool (is_some (given_reason reason))) end) times.cancelling
        (asked b) (asked_store s)

  abbrev cancelling_batch : Batch → Batch
  cancelling_batch b = moved cancelling times.cancelling (asked b)

  abbrev ended_store : Batch → Store → Store
  ended_store b s =
      record_transition cancelled (some actor) end times.cancelled (cancelling_batch b)
        (cancelling_store b s)

  -- the store after both transitions and the stamp
  abbrev pub cancelled_store : Batch → Store → Store
  cancelled_store b s =
      let t = ended_store b s in
      record t { batches = update_batch id (stamped times.stamped) t.batches }

  run_cancel-eq :
      (b : Batch) (s : Store)
      → is_in b.status cancellable_batch_statuses ≡ true
      → run_cancel id actor reason times b s
        ≡ ok (cancelled_row actor reason times b, cancelled_store b s)
  unfolding run_cancel finish_cancel moved allowed_transitions
  run_cancel-eq b s h =
      rw
        (transition-ok (asked b) cancelling (some actor) _ times.cancelling (asked_store s)
          (sym (cancellable_iff_allowed b.status) ∙ h))
        (rw (
          transition-ok (cancelling_batch b) cancelled (some actor) end times.cancelled
            (cancelling_store b s) refl))

  pub cancel-cancels :
      (b : Batch) (s : Store)
      → find_batch id s.batches ≡ some b
      → is_in b.status cancellable_batch_statuses ≡ true
      → cancel_batch id actor reason times s
        ≡ ok (cancelled_row actor reason times b, cancelled_store b s)
  unfolding cancel_batch cancel_found
  cancel-cancels b s found h =
      rw (get_batch-some id s found) (rw (not_yet b.status h) (rw h (run_cancel-eq b s h)))

  cancel_found-otherwise :
      (b : Batch) (s : Store)
      → is_in b.status cancellable_batch_statuses ≡ false
      → (cancel_found id actor reason times b s ≡ err batch_validation_error)
        ⊎ ((b.status ≡ cancelled) × (cancel_found id actor reason times b s ≡ ok (b, s)))
  unfolding cancel_found
  cancel_found-otherwise b s h = ground arith

  pub cancel-otherwise :
      (s : Store)
      → ((b : Batch)
          → find_batch id s.batches ≡ some b
          → is_in b.status cancellable_batch_statuses ≡ false)
      → (cancel_batch id actor reason times s ≡ err batch_validation_error)
        ⊎ ((b : Batch) × (find_batch id s.batches ≡ some b)
            × (b.status ≡ cancelled)
            × (cancel_batch id actor reason times s ≡ ok (b, s)))
  unfolding cancel_batch
  cancel-otherwise s h = elim (Option-cases (find_batch id s.batches)) [
    | inl absent ↦ inl (rw (get_batch-none id s absent))
    | inr (b, found) ↦ elim (cancel_found-otherwise b s (h b found)) [
      | inl refused ↦ inl (rw (get_batch-some id s found) refused)
      | inr (c, same) ↦ inr (b, found, c, rw (get_batch-some id s found) same)
    ]
  ]

  module _ (b : Batch) (s : Store) (valid : IsValid s) (found : find_batch id s.batches ≡ some b)
      (h : is_in b.status cancellable_batch_statuses ≡ true) where
    asked-found : find_batch (asked b).id (asked_store s).batches ≡ some (asked b)
    asked-found =
        subst (λ x. find_batch x (asked_store s).batches ≡ some (asked b))
          (sym (find_id id s.batches found)) (find-update_self id asked s.batches (λ r. refl) found)

    cancelling-found :
        find_batch (asked b).id (cancelling_store b s).batches ≡ some (cancelling_batch b)
    unfolding record_transition moved
    cancelling-found =
        find-update_self (asked b).id (moved cancelling times.cancelling) (asked_store s).batches
          (λ r. refl) asked-found

    ended-IsValid : IsValid (ended_store b s)
    unfolding moved allowed_transitions
    ended-IsValid =
        transition-IsValid (cancelling_batch b) _ cancelled (some actor) end times.cancelled
          (cancelling_store b s) _
          (transition-IsValid (asked b) _ cancelling (some actor) _ times.cancelling (asked_store s)
            _ (IsValid-update id asked s (λ r. (refl, refl, refl, refl)) valid) asked-found
            (transition-ok (asked b) cancelling (some actor) _ times.cancelling (asked_store s)
              (sym (cancellable_iff_allowed b.status) ∙ h)))
          cancelling-found
          (transition-ok (cancelling_batch b) cancelled (some actor) end times.cancelled
            (cancelling_store b s) refl)

    cancelled_store-IsValid : IsValid (cancelled_store b s)
    cancelled_store-IsValid =
        IsValid-update id (stamped times.stamped) (ended_store b s) (λ r. (refl, refl, refl, refl))
          ended-IsValid

  fits_still :
      (b c : Batch)
      → Path (Option Batch) (some b) (some c)
      → is_in b.status cancellable_batch_statuses ≡ false
      → is_in c.status cancellable_batch_statuses ≡ false
  fits_still b c same other =
      let one : b ≡ c = cc same in
      subst (λ (x : Batch). is_in x.status cancellable_batch_statuses ≡ false) one other

  left_alone :
      (s t : Store) (c : Batch) (o : Option Batch)
      → ((b : Batch) → o ≡ some b → is_in b.status cancellable_batch_statuses ≡ false)
      → o ≡ find_batch id s.batches
      → cancel_batch id actor reason times s ≡ ok (c, t)
      → s ≡ t
  left_alone s t c o h same e = elim (cancel-otherwise s λ b found. h b (same ∙ found)) [
    | inl refused ↦ cc
    | inr (b, found, _, unchanged) ↦ pair-store (sym unchanged ∙ e)
  ]

  -- A cancellation that returns keeps the store sound: in each row the completion time, the final
  -- mark and the notification fit its status.
  pub cancel-IsValid :
      (s t : Store) (c : Batch)
      → IsValid s
      → cancel_batch id actor reason times s ≡ ok (c, t)
      → IsValid t
  cancel-IsValid s t c valid e = elim (Option-cases (find_batch id s.batches)) [
    | inl absent ↦ subst IsValid (left_alone s t c none (λ b f. cc f) (sym absent) e) valid
    | inr (b, found) ↦ elim (Bool-cases (is_in b.status cancellable_batch_statuses)) [
      | inl fits ↦
          subst IsValid (pair-store (sym (cancel-cancels b s found fits) ∙ e))
            (cancelled_store-IsValid b s valid found fits)
      | inr other ↦
          subst IsValid (left_alone s t c (some b) (λ x f. fits_still b x f other) (sym found) e)
            valid
    ]
  ]
