-- ===== src/BatchState/Graph.antt =====
-- batch_state.py: the graph that the transition table spans.
use raj_data_handle.Base.{
  ℕ, zero, suc, ◌+◌, ◌≤◌, ◌<◌, ◌≡◌, refl, ◌↔◌, ◌⊎◌, inl, inr, List, [], ◌∷◌, true, ok, err, arith,
  invalid_batch_transition,
}
use mathlib.Core.Path.{subst}
use raj_data_handle.BatchState.{
  Status, uploaded, awaiting_confirmation, queued, validating, fetching_remote, comparing,
  rechecking, cancelling, completed, failed, comparison_incomplete, cancelled,
  terminal_batch_statuses, cancellable_batch_statuses, allowed_transitions, is_in,
  ensure_transition,
}

-- one accepted transition
pub record Step (a b : Status) : Type 0 where
  pub accepted : is_in b (allowed_transitions a) ≡ true

-- `Walk a n b` is a sequence of `n` accepted transitions
pub data Walk (a : Status) : ℕ → Status → Type 0 where
  here : Walk a zero a
  next : {n : ℕ} {b c : Status} → Walk a n b → Step b c → Walk a (suc n) c

-- The call succeeds exactly for a pair of the table, and then returns that pair.
pub ensure_transition_iff :
    (a b : Status)
    → (ensure_transition a b ≡ ok (record { from_status = a; to_status = b }))
      ↔ (is_in b (allowed_transitions a) ≡ true)
unfolding ensure_transition
ensure_transition_iff a b = (λ h. ground arith, λ h. ground arith)

-- A position in the longest chain: every accepted transition goes up.
abbrev height : Status → ℕ
height uploaded = 0
height awaiting_confirmation = 1
height queued = 2
height validating = 3
height fetching_remote = 4
height comparing = 5
height rechecking = 6
height cancelling = 7
height _ = 8

Step-height : (a b : Status) → Step a b → height a < height b
unfolding allowed_transitions
Step-height a b h = ground (arith, h.accepted)

Walk-height : {a b : Status} {n : ℕ} → Walk a n b → height a + n ≤ height b
Walk-height here = omega arith
Walk-height (next {b = b} {c = c} w s) = omega (arith, Walk-height w, Step-height b c s)

height-le : (a : Status) → height a ≤ 8
height-le a = ground arith

-- A walk from any status to any other has at most eight accepted transitions.
pub Walk-bounded : {a b : Status} {n : ℕ} → Walk a n b → n ≤ 8
Walk-bounded {a} {b} w = omega (arith, Walk-height w, height-le b)

-- A status is terminal exactly if every transition out of it is refused.
terminal_iff_stuck :
    (a : Status)
    → (is_in a terminal_batch_statuses ≡ true)
      ↔ ((b : Status) → ensure_transition a b ≡ err invalid_batch_transition)
unfolding ensure_transition
terminal_iff_stuck a = (λ h b. ground arith, λ h. ground (arith, h failed, h cancelled))

-- A status is one of the cancellable ones exactly if the table leads from it to `cancelling`.
pub cancellable_iff_allowed :
    (a : Status) → is_in a cancellable_batch_statuses ≡ is_in cancelling (allowed_transitions a)
unfolding allowed_transitions
cancellable_iff_allowed a = ground arith

-- From every status some walk leads to a terminal one.
terminal_reachable :
    (a : Status) → (n : ℕ) × (b : Status) × Walk a n b × (is_in b terminal_batch_statuses ≡ true)
unfolding allowed_transitions
terminal_reachable cancelling = (1, cancelled, next here (record { accepted = refl }), refl)
terminal_reachable completed = (0, completed, here, refl)
terminal_reachable failed = (0, failed, here, refl)
terminal_reachable comparison_incomplete = (0, comparison_incomplete, here, refl)
terminal_reachable cancelled = (0, cancelled, here, refl)
terminal_reachable _ = (1, failed, next here (record { accepted = refl }), refl)

-- A walk from `cancelling` stays there or ends at `cancelled`.
cancelling-Walk : {n : ℕ} {b : Status} → Walk cancelling n b → (b ≡ cancelling) ⊎ (b ≡ cancelled)
unfolding allowed_transitions
cancelling-Walk here = inl refl
cancelling-Walk (next w s) = ground (arith, cancelling-Walk w, s.accepted)

-- a walk that stands at `via` at some point
data Through (via : Status) (a : Status) : ℕ → Status → Type 0 where
  stop : {n : ℕ} → Walk a n via → Through via a n via
  go : {n : ℕ} {b c : Status} → Through via a n b → Step b c → Through via a (suc n) c

abbrev compared : List Status
compared = comparing ∷ rechecking ∷ completed ∷ []

compared_from :
    (b c : Status)
    → Step b c
    → is_in c compared ≡ true
    → (is_in b compared ≡ true) ⊎ (c ≡ comparing)
unfolding allowed_transitions
compared_from b c s h = ground (arith, s.accepted)

arrive : {n : ℕ} {c : Status} → Walk queued n c → c ≡ comparing → Through comparing queued n c
arrive {n} w e = rw e (stop (subst (λ x. Walk queued n x) e w))

compared-Through :
    {n : ℕ} {b : Status} → Walk queued n b → is_in b compared ≡ true → Through comparing queued n b
compared-Through here h = cc
compared-Through (next {b = b} {c = c} w s) h = elim (compared_from b c s h) [
  | inl before ↦ go (compared-Through w before) s
  | inr now ↦ arrive (next w s) now
]

-- Every walk from the queue to `completed` stands at `comparing` on the way.
completed-Through : {n : ℕ} → Walk queued n completed → Through comparing queued n completed
completed-Through w = compared-Through w refl

-- A status is terminal exactly if every transition out of it is refused, and from every status some
-- walk leads to a terminal one.
pub terminal_statuses :
    (a : Status)
    → ((is_in a terminal_batch_statuses ≡ true)
        ↔ ((b : Status) → ensure_transition a b ≡ err invalid_batch_transition))
      × ((n : ℕ) × (b : Status) × Walk a n b × (is_in b terminal_batch_statuses ≡ true))
terminal_statuses a = (terminal_iff_stuck a, terminal_reachable a)
