-- ===== src/Batch/Service/Confirm.antt =====
-- batch_service.py: what `confirm_batch` returns and stores.
use mathlib.Core.Path.{subst}
use raj_data_handle.Base.{
  ℕ, ◌≡◌, refl, sym, ap, ◌∙◌, String, true, false, not, some, ok, List, Result, Bool, Exception,
  arith, raise_if, >>=-eq-ok, batch_validation_error,
}
use raj_data_handle.Value.{field, bool, end}
use raj_data_handle.BatchState.{
  awaiting_confirmation, queued, same_status, ensure_transition, Status,
}
use raj_data_handle.Batch.{Batch, Store, find_batch, update_batch}
use raj_data_handle.Batch.Transition.{moved, transition_batch, record_transition}
use raj_data_handle.Batch.Transition.Rows.{find-update_self, find_id}
use raj_data_handle.Batch.Validation.{validate_execution_parameters}
use raj_data_handle.Batch.Service.{get_batch, confirm_batch, requested}

-- the row that is confirmed
pub record IsConfirmed (id : String) (actor now : ℕ) (s : Store) (b : Batch) (t : Store)
    : Type 0 where
  pub previous : Batch
  pub found : find_batch id s.batches ≡ some previous
  pub waiting : previous.status ≡ awaiting_confirmation
  pub valid : validate_execution_parameters previous ≡ ok tt
  pub returned : b ≡ moved queued now (requested actor previous)
  pub stored : find_batch id t.batches ≡ some b

get_batch-found :
    (id : String) (s : Store) (b : Batch) → get_batch id s ≡ ok b → find_batch id s.batches ≡ some b
unfolding get_batch
get_batch-found id s b h = ground arith

waits : (a : Status) → not (same_status a awaiting_confirmation) ≡ false → a ≡ awaiting_confirmation
waits a h = ground arith

raise_if-passed : (c : Bool) (e : Exception) → raise_if c e ≡ ok tt → c ≡ false
raise_if-passed true e h = cc
raise_if-passed false e h = refl

pair-ok :
    {x b : Batch} {y t : Store}
    → Path (Result (Batch × Store)) (ok (x, y)) (ok (b, t))
    → (x ≡ b) × (y ≡ t)
pair-ok h = (cc, cc)

asked-stored :
    (id : String) (actor now : ℕ) (batches : List Batch) (previous : Batch)
    → find_batch id batches ≡ some previous
    → find_batch id
        (update_batch previous.id (moved queued now) (update_batch id (requested actor) batches))
      ≡ some (moved queued now (requested actor previous))
unfolding moved
asked-stored id actor now batches previous found =
    subst
      (λ i.
        find_batch id
          (update_batch i (moved queued now) (update_batch id (requested actor) batches))
        ≡ some (moved queued now (requested actor previous)))
      (sym (find_id id batches found))
      (find-update_self id (moved queued now) (update_batch id (requested actor) batches)
        (λ r. refl) (find-update_self id (requested actor) batches (λ r. refl) found))

transition-stored :
    (id : String) (actor now : ℕ) (s t : Store) (b previous : Batch)
    → find_batch id s.batches ≡ some previous
    → transition_batch
        (requested actor previous)
        queued
        (some actor)
        (field "parametersConfirmed" (bool true) end)
        now
        (record s { batches = update_batch id (requested actor) s.batches })
      ≡ ok (b, t)
    → (b ≡ moved queued now (requested actor previous)) × (find_batch id t.batches ≡ some b)
unfolding transition_batch record_transition
transition-stored id actor now s t b previous found h =
    let (_, _, done) = >>=-eq-ok (ensure_transition previous.status queued) _ h in
    let (is_moved, is_stored) = pair-ok done in
    (
      sym is_moved,
      sym (ap (λ (u : Store). find_batch id u.batches) is_stored)
          ∙ (asked-stored id actor now s.batches previous found ∙ ap some is_moved),
    )

pub confirm-IsConfirmed :
    (id : String) (actor now : ℕ) (s t : Store) (b : Batch)
    → confirm_batch id actor now s ≡ ok (b, t)
    → IsConfirmed id actor now s b t
unfolding confirm_batch
confirm-IsConfirmed id actor now s t b h =
    let (previous, got, rest) = >>=-eq-ok (get_batch id s) _ h in
    let (_, passed, rest) =
      >>=-eq-ok
        (raise_if (not (same_status previous.status awaiting_confirmation)) batch_validation_error)
        _ rest in
    let (_, valid, rest) = >>=-eq-ok (validate_execution_parameters previous) _ rest in
    let found = get_batch-found id s previous got in
    let (returned, stored) = transition-stored id actor now s t b previous found rest in
    record {
      previous = previous;
      found = found;
      waiting = waits previous.status (raise_if-passed _ _ passed);
      valid = valid;
      returned = returned;
      stored = stored;
    }
