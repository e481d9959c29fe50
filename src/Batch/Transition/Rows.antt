-- ===== src/Batch/Transition/Rows.antt =====
-- batch_service.py: the rows of the batches between two commits, under `transition_batch`.
use mathlib.Core.Path.{subst}
use raj_data_handle.Base.{
  ℕ, suc, ◌+◌, ◌≡◌, ◌≢◌, refl, sym, ◌∙◌, String, Bool, true, false, Option, none, some, List, [],
  ◌∷◌, ◌++◌, ok, is_some, arith, ◌==◌, eq_iff, if◌then◌else◌, All, Bool-cases, inl, inr,
}
use raj_data_handle.Value.{Fields}
use raj_data_handle.BatchState.{
  Status, completed, terminal_batch_statuses, same_status, is_in, allowed_transitions,
  ensure_transition,
}
use raj_data_handle.Batch.{Batch, UserNotification, Store, find_batch, update_batch}
use raj_data_handle.Batch.Transition.{moved, notification, record_transition, transition_batch}

abbrev pub is_terminal : Status → Bool
is_terminal s = is_in s terminal_batch_statuses

-- how many notifications a batch has had
abbrev pub notified : String → List UserNotification → ℕ
notified id [] = 0
notified id (n ∷ notes) = if n.batch_id == id then suc (notified id notes) else notified id notes

-- A row is complete in time exactly if it is terminal, final exactly if it is completed, and its
-- user has had one notification if it is terminal and none before.
pub record IsSound (notes : List UserNotification) (b : Batch) : Type 0 where
  pub timed : is_some b.completed_at ≡ is_terminal b.status
  pub final : b.is_final ≡ same_status b.status completed
  pub told : notified b.id notes ≡ (if is_terminal b.status then 1 else 0)

-- no two rows have one id
abbrev pub Unique : List Batch → Type 0
Unique [] = Unit
Unique (b ∷ batches) = (find_batch b.id batches ≡ none) × Unique batches

pub record IsValid (s : Store) : Type 0 where
  pub unique : Unique s.batches
  pub sound : All (IsSound s.notifications) s.batches

notified-append :
    (id : String) (notes : List UserNotification) (n : UserNotification)
    → notified id (notes ++ n ∷ []) ≡ notified id notes + (if n.batch_id == id then 1 else 0)
notified-append id [] n = ground arith
notified-append id (m ∷ notes) n = ground (arith, notified-append id notes n)

head-found :
    (x : String) (c b : Batch) (batches : List Batch)
    → (c.id == x) ≡ true
    → find_batch x (c ∷ batches) ≡ some b
    → c ≡ b
head-found x c b batches same h = ground arith

pub find-update :
    (x y : String) (f : Batch → Batch) (batches : List Batch)
    → ((b : Batch) → (f b).id ≡ b.id)
    → find_batch y batches ≡ none
    → find_batch y (update_batch x f batches) ≡ none
find-update x y f [] keeps h = h
find-update x y f (b ∷ batches) keeps h = elim (Bool-cases (b.id == x)) [
  | inl same ↦ rw same (ground (arith, keeps b))
  | inr differs ↦ rw differs (ground (arith, find-update x y f batches keeps))
]

pub Unique-update :
    (x : String) (f : Batch → Batch) (batches : List Batch)
    → ((b : Batch) → (f b).id ≡ b.id)
    → Unique batches
    → Unique (update_batch x f batches)
Unique-update x f [] keeps u = tt
Unique-update x f (b ∷ batches) keeps u = elim (Bool-cases (b.id == x)) [
  | inl same ↦ rw same (rw (keeps b) u.0, u.1)
  | inr differs ↦
      rw differs (find-update x b.id f batches keeps u.0, Unique-update x f batches keeps u.1)
]

module _ (x : String) (P Q : Batch → Type 0) (others : (b : Batch) → b.id ≢ x → P b → Q b) where
  absent-All : (batches : List Batch) → find_batch x batches ≡ none → All P batches → All Q batches
  absent-All [] h k = tt
  absent-All (b ∷ batches) h (p, k) = elim (Bool-cases (b.id == x)) [
    | inl same ↦ absurd (ground arith)
    | inr differs ↦
        (others b (λ e. ground (arith, eq_iff b.id x)) p, absent-All batches (ground arith) k)
  ]

  -- A write to the row that was found, and to no other.
  pub update-All :
      (f : Batch → Batch) (b : Batch) (batches : List Batch)
      → find_batch x batches ≡ some b
      → Unique batches
      → All P batches
      → (P b → Q (f b))
      → All Q (update_batch x f batches)
  update-All f b [] h u k q = tt
  update-All f b (c ∷ batches) h u (p, k) q = elim (Bool-cases (c.id == x)) [
    | inl same ↦
        let e : c ≡ b = head-found x c b batches same h in
        let absent : find_batch x batches ≡ none =
          subst (λ i. find_batch i batches ≡ none) ((eq_iff c.id x).0 same) u.0 in
        rw same (subst (λ y. Q (f y)) (sym e) (q (subst P e p)), absent-All batches absent k)
    | inr differs ↦ rw differs (
      others c (λ e. ground (arith, eq_iff c.id x)) p,
      update-All f b batches (ground arith) u.1 k q,
    )
  ]

-- columns that no invariant reads may be written in any row
abbrev pub Untouched : (Batch → Batch) → Type 0
Untouched f =
    (b : Batch)
    → ((f b).id ≡ b.id)
      × ((f b).status ≡ b.status)
      × ((f b).completed_at ≡ b.completed_at)
      × ((f b).is_final ≡ b.is_final)

IsSound-update :
    (f : Batch → Batch) (notes : List UserNotification) (b : Batch)
    → Untouched f
    → IsSound notes b
    → IsSound notes (f b)
IsSound-update f notes b same h = record {
  timed = rw ((same b).1, (same b).2) h.timed;
  final = rw ((same b).1, (same b).3) h.final;
  told = rw ((same b).0, (same b).1) h.told;
}

All-update :
    (id : String) (f : Batch → Batch) (notes : List UserNotification) (batches : List Batch)
    → Untouched f
    → All (IsSound notes) batches
    → All (IsSound notes) (update_batch id f batches)
All-update id f notes [] same h = tt
All-update id f notes (b ∷ batches) same (p, h) = elim (Bool-cases (b.id == id)) [
  | inl e ↦ rw e (IsSound-update f notes b same p, h)
  | inr e ↦ rw e (p, All-update id f notes batches same h)
]

pub IsValid-update :
    (id : String) (f : Batch → Batch) (s : Store)
    → Untouched f
    → IsValid s
    → IsValid (record s { batches = update_batch id f s.batches })
IsValid-update id f s same v = record {
  unique = Unique-update id f s.batches (λ b. (same b).0) v.unique;
  sound = All-update id f s.notifications s.batches same v.sound;
}

-- a write keeps the row where it is
pub find-update_self :
    (id : String) (f : Batch → Batch) (batches : List Batch) {b : Batch}
    → ((r : Batch) → (f r).id ≡ r.id)
    → find_batch id batches ≡ some b
    → find_batch id (update_batch id f batches) ≡ some (f b)
find-update_self id f [] keeps h = cc
find-update_self id f (c ∷ batches) {b} keeps h = elim (Bool-cases (c.id == id)) [
  | inl e ↦ rw e (ground (arith, keeps c))
  | inr e ↦ rw e (ground (arith, find-update_self id f batches {b = b} keeps))
]

pub find_id :
    (id : String) (batches : List Batch) {b : Batch} → find_batch id batches ≡ some b → b.id ≡ id
find_id id [] h = cc
find_id id (c ∷ batches) {b} h = ground (arith, eq_iff c.id id, find_id id batches {b = b})

-- the notifications after a transition of `b`
abbrev told_after : Status → Batch → List UserNotification → List UserNotification
told_after to b notes = if is_terminal to then notes ++ notification to b ∷ [] else notes

-- no transition leaves a terminal status
not_terminal : (a to : Status) → is_in to (allowed_transitions a) ≡ true → is_terminal a ≡ false
unfolding allowed_transitions
not_terminal a to h = ground arith

own-note :
    (to : Status) (b : Batch) (notes : List UserNotification)
    → notified b.id (notes ++ notification to b ∷ []) ≡ notified b.id notes + 1
unfolding notification
own-note to b notes = rw notified-append (ground (arith, eq_iff b.id b.id))

IsSound-moved :
    (to : Status) (now : ℕ) (b : Batch) (notes : List UserNotification)
    → is_in to (allowed_transitions b.status) ≡ true
    → IsSound notes b
    → IsSound (told_after to b notes) (moved to now b)
unfolding moved notification
IsSound-moved to now b notes allowed h =
    let open_before = not_terminal b.status to allowed in
    elim (Bool-cases (is_terminal to)) [
      | inl ends ↦ rw ends (record {
        timed = rw ends;
        final = refl;
        told = rw ends (
            omega (
              arith,
              notified-append b.id notes (notification to b),
              own-note to b notes,
              rw open_before at h.told,
            ));
      })
      | inr goes_on ↦ rw goes_on (record {
        timed = rw goes_on (rw open_before at h.timed);
        final = (h.final ∙ ground (arith, open_before));
        told = rw goes_on (rw open_before at h.told);
      })
    ]

IsSound-other :
    (to : Status) (b row : Batch) (notes : List UserNotification)
    → row.id ≢ b.id
    → IsSound notes row
    → IsSound (told_after to b notes) row
unfolding notification
IsSound-other to b row notes ne h = elim (Bool-cases (is_terminal to)) [
  | inl ends ↦ rw ends (record {
    timed = h.timed;
    final = h.final;
    told =
        ground
          (arith, notified-append row.id notes (notification to b), eq_iff b.id row.id, h.told);
  })
  | inr goes_on ↦ rw goes_on h
]

module _ (b b' : Batch) (to : Status) (actor : Option ℕ) (metadata : Fields) (now : ℕ)
    (s s' : Store) (h : transition_batch b to actor metadata now s ≡ ok (b', s')) where
  pub accepted : is_in to (allowed_transitions b.status) ≡ true
  unfolding transition_batch ensure_transition
  accepted = ground arith

  pub stored : record_transition to actor metadata now b s ≡ s'
  unfolding transition_batch ensure_transition
  stored = ground arith

-- A transition that is accepted keeps the rows sound: the row that moves gets its completion time,
-- its final mark and its one notification exactly when it reaches a terminal status.
pub transition-IsValid :
    (b b' : Batch) (to : Status) (actor : Option ℕ) (metadata : Fields) (now : ℕ) (s s' : Store)
    → IsValid s
    → find_batch b.id s.batches ≡ some b
    → transition_batch b to actor metadata now s ≡ ok (b', s')
    → IsValid s'
unfolding record_transition moved
transition-IsValid b b' to actor metadata now s s' v row h =
    let allowed : is_in to (allowed_transitions b.status) ≡ true =
      accepted b b' to actor metadata now s s' h in
    subst IsValid (stored b b' to actor metadata now s s' h) (record {
      unique = Unique-update b.id (moved to now) s.batches (λ r. refl) v.unique;
      sound =
          update-All b.id (IsSound s.notifications) (IsSound (told_after to b s.notifications))
            (λ r ne. IsSound-other to b r s.notifications ne) (moved to now) b s.batches row
            v.unique v.sound (IsSound-moved to now b s.notifications allowed);
    })
