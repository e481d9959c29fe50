-- ===== src/BatchState.antt =====
-- packages/domain/services/batch_state.py: the statuses of a batch and the table of allowed
-- transitions.
pub mod Graph
mod Tests
use raj_data_handle.Base.{
  ℕ, Bool, true, false, List, [], ◌∷◌, Result, ok, err, invalid_batch_transition, eqb, any_of,
  if◌then◌else◌,
}

pub data Status : Type 0 where
  uploaded awaiting_confirmation queued validating fetching_remote comparing rechecking : Status
  cancelling completed failed comparison_incomplete cancelled : Status

-- TERMINAL_BATCH_STATUSES
abbrev pub terminal_batch_statuses : List Status
terminal_batch_statuses = completed ∷ failed ∷ comparison_incomplete ∷ cancelled ∷ []

-- CANCELLABLE_BATCH_STATUSES
abbrev pub cancellable_batch_statuses : List Status
cancellable_batch_statuses = queued ∷ validating ∷ fetching_remote ∷ comparing ∷ rechecking ∷ []

-- ALLOWED_TRANSITIONS.get(status, set())
unfoldable pub allowed_transitions : Status → List Status
allowed_transitions uploaded = awaiting_confirmation ∷ failed ∷ []
allowed_transitions awaiting_confirmation = queued ∷ failed ∷ []
allowed_transitions queued = validating ∷ cancelling ∷ failed ∷ []
allowed_transitions validating = fetching_remote ∷ cancelling ∷ failed ∷ []
allowed_transitions fetching_remote = comparing ∷ cancelling ∷ failed ∷ comparison_incomplete ∷ []
allowed_transitions comparing =
    rechecking ∷ completed ∷ cancelling ∷ failed ∷ comparison_incomplete ∷ []
allowed_transitions rechecking = completed ∷ cancelling ∷ failed ∷ comparison_incomplete ∷ []
allowed_transitions cancelling = cancelled ∷ []
allowed_transitions _ = []

-- Statuses are texts in the source; equal texts have equal positions in this list.
abbrev pub position : Status → ℕ
position uploaded = 0
position awaiting_confirmation = 1
position queued = 2
position validating = 3
position fetching_remote = 4
position comparing = 5
position rechecking = 6
position cancelling = 7
position completed = 8
position failed = 9
position comparison_incomplete = 10
position cancelled = 11

abbrev pub same_status : Status → Status → Bool
same_status a b = eqb (position a) (position b)

-- `status in statuses`
abbrev pub is_in : Status → List Status → Bool
is_in s statuses = any_of (same_status s) statuses

pub record BatchTransition : Type 0 where
  pub from_status : Status
  pub to_status : Status

unfoldable pub ensure_transition : Status → Status → Result BatchTransition
unfolding allowed_transitions
ensure_transition from_status to_status =
    if is_in to_status (allowed_transitions from_status)
    then ok (record { from_status = from_status; to_status = to_status })
    else err invalid_batch_transition
