-- ===== src/BatchState/Tests.antt =====
-- batch_state.py at concrete statuses.
use raj_data_handle.Base.{◌≡◌, refl, ◌↔◌, ℕ, ◌≤◌, err, true, invalid_batch_transition}
use raj_data_handle.BatchState.{
  Status, uploaded, queued, validating, fetching_remote, comparing, completed, failed,
  terminal_batch_statuses, allowed_transitions, is_in, ensure_transition,
}
use raj_data_handle.BatchState.Graph.{Walk, here, next, Walk-bounded, terminal_statuses}

skipping_refused : ensure_transition uploaded queued ≡ err invalid_batch_transition
unfolding ensure_transition
skipping_refused = refl

-- the run of a batch without a recheck
straight : Walk queued 4 completed
unfolding allowed_transitions
straight =
    let checked : Walk queued 1 validating = next here (record { accepted = refl }) in
    let fetched : Walk queued 2 fetching_remote = next checked (record { accepted = refl }) in
    let compared : Walk queued 3 comparing = next fetched (record { accepted = refl }) in
    next compared (record { accepted = refl })

Walk-bounded_example : 4 ≤ 8
Walk-bounded_example = Walk-bounded straight

terminal_statuses_example :
    ((is_in failed terminal_batch_statuses ≡ true)
      ↔ ((b : Status) → ensure_transition failed b ≡ err invalid_batch_transition))
    × ((n : ℕ) × (b : Status) × Walk failed n b × (is_in b terminal_batch_statuses ≡ true))
terminal_statuses_example = terminal_statuses failed
