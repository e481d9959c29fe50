-- ===== src/Execution/Start/Ended.antt =====
-- reconciliation_execution_service.py: the steps of an execution that can end it, and how the batch
-- stands then.
use mathlib.Core.Path.{subst}
use raj_data_handle.Base.{
  ℕ, ◌+◌, ◌≡◌, refl, sym, ap, ◌∙◌, inl, inr, String, Bool, true, false, Option, none, some, List,
  [], ◌∷◌, Result, ok, err, Exception, arith, ◌==◌, Bool-cases, if◌then◌else◌,
}
use raj_data_handle.Value.{Value, end}
use raj_data_handle.BatchState.{
  Status, uploaded, awaiting_confirmation, queued, validating, fetching_remote, comparing,
  rechecking, completed, cancelling, cancelled, failed, comparison_incomplete,
  terminal_batch_statuses, is_in, ensure_transition,
}
use raj_data_handle.Batch.{Batch, Store, find_batch, update_batch}
use raj_data_handle.Batch.Transition.{moved, record_transition, transition_batch}
use raj_data_handle.Batch.Transition.Rows.{find_id}
use raj_data_handle.Worker.Settled.{IsSettled}
use raj_data_handle.Remote.Session.{Action}
use raj_data_handle.Execution.Steps.{
  Run, World, Outcome, value, raised, returned, Task, pure, return_early, proceed, ◌>>=◌, lift,
  remote,
}
use raj_data_handle.Execution.{
  moved_to, refreshed, is_cancelled, set_progress, transition, unless_cancelled,
}
use raj_data_handle.Execution.Publish.{is_incomplete, give_up, attempt, failed_with, handled}
use raj_data_handle.Execution.Start.{fail_validation, handled_by, guarded}

-- the row of the batch, if there is one, has ended or is being cancelled
abbrev pub RowSettled : Run → Type 0
RowSettled s =
    (row : Batch) → find_batch s.batch.id s.store.batches ≡ some row → IsSettled row.status

-- an early return leaves the row settled
abbrev pub Early : {A : Type 0} → Outcome A × Run → Type 0
Early (returned, s) = RowSettled s
Early (value _, s) = Unit
Early (raised _, s) = Unit

-- any return does
abbrev pub Settles : {A : Type 0} → Outcome A × Run → Type 0
Settles (returned, s) = RowSettled s
Settles (value _, s) = RowSettled s
Settles (raised _, s) = Unit

-- an end with the batch of that id
abbrev pub IsEnded : {A : Type 0} → String → Outcome A × Run → Type 0
IsEnded id (r, s) = (s.batch.id ≡ id) × Early (r, s)

abbrev pub IsDone : {A : Type 0} → String → Outcome A × Run → Type 0
IsDone id (r, s) = (s.batch.id ≡ id) × Settles (r, s)

-- from every state; records, so that a task is read off its type
pub record Ends {A : Type 0} (m : Task A) : Type 0 where
  pub from : (s : Run) → IsEnded s.batch.id (m s)

pub record Done {A : Type 0} (m : Task A) : Type 0 where
  pub from : (s : Run) → IsDone s.batch.id (m s)

proceed-IsEnded :
    {A B : Type 0} (id : String) (r : Outcome A) (t : Run) (f : A → Task B)
    → IsEnded id (r, t)
    → ((a : A) → Ends (f a))
    → IsEnded id (proceed r f t)
proceed-IsEnded id (value a) t f (e, h) k = subst (λ n. IsEnded n (f a t)) e ((k a).from t)
proceed-IsEnded id (raised x) t f (e, h) k = (e, tt)
proceed-IsEnded id returned t f (e, h) k = (e, h)

pub bind-Ends :
    {A B : Type 0} (m : Task A) (f : A → Task B) → Ends m → ((a : A) → Ends (f a)) → Ends (m >>= f)
unfolding ◌>>=◌
bind-Ends m f h k = record { from = λ s. proceed-IsEnded s.batch.id (m s).0 (m s).1 f (h.from s) k }

proceed-IsDone :
    {A B : Type 0} (id : String) (r : Outcome A) (t : Run) (f : A → Task B)
    → IsEnded id (r, t)
    → ((a : A) → Done (f a))
    → IsDone id (proceed r f t)
proceed-IsDone id (value a) t f (e, h) k = subst (λ n. IsDone n (f a t)) e ((k a).from t)
proceed-IsDone id (raised x) t f (e, h) k = (e, tt)
proceed-IsDone id returned t f (e, h) k = (e, h)

pub bind-Done :
    {A B : Type 0} (m : Task A) (f : A → Task B) → Ends m → ((a : A) → Done (f a)) → Done (m >>= f)
unfolding ◌>>=◌
bind-Done m f h k = record { from = λ s. proceed-IsDone s.batch.id (m s).0 (m s).1 f (h.from s) k }

pub lift-Ends : {A : Type 0} (r : Result A) → Ends (lift r)
lift-Ends (ok a) = record { from = λ s. (refl, tt) }
lift-Ends (err e) = record { from = λ s. (refl, tt) }

pub remote-Ends : {A : Type 0} (action : Action A) → Ends (remote action)
remote-Ends action = record {
  from = λ s. let (r, c) = action s.client in (lift-Ends r).from (record s { client = c });
}

pub pure-Ends : {A : Type 0} (a : A) → Ends (pure a)
pure-Ends a = record { from = λ s. (refl, tt) }

-- the two kinds of call, and what follows them
pub lift-bind :
    {A B : Type 0} (r : Result A) (f : A → Task B) → ((a : A) → Ends (f a)) → Ends (lift r >>= f)
lift-bind r f k = bind-Ends (lift r) f (lift-Ends r) k

pub remote-bind :
    {A B : Type 0} (action : Action A) (f : A → Task B)
    → ((a : A) → Ends (f a))
    → Ends (remote action >>= f)
remote-bind action f k = bind-Ends (remote action) f (remote-Ends action) k

-- the row that a write finds
find-written :
    (id : String) (f : Batch → Batch) (batches : List Batch) {row : Batch}
    → ((x : Batch) → (f x).id ≡ x.id)
    → find_batch id (update_batch id f batches) ≡ some row
    → (x : Batch) × (row ≡ f x)
find-written id f [] keeps h = cc
find-written id f (b ∷ batches) {row} keeps h = elim (Bool-cases (b.id == id)) [
  | inl e ↦
      let first : find_batch id (f b ∷ batches) ≡ some row = rw e at h in
      let own : ((f b).id == id) ≡ true = ap (λ n. n == id) (keeps b) ∙ e in
      let found : some (f b) ≡ some row = rw own at first in (b, cc found)
  | inr e ↦
      let later : find_batch id (b ∷ update_batch id f batches) ≡ some row = rw e at h in
      find-written id f batches keeps (rw e at later)
]

-- what an accepted transition returns and writes
transition_batch-ok :
    (b b' : Batch) (to : Status) (now : ℕ) (store t : Store)
    → transition_batch b to none end now store ≡ ok (b', t)
    → (b'.id ≡ b.id) × (t.batches ≡ update_batch b.id (moved to now) store.batches)
unfolding transition_batch ensure_transition moved record_transition
transition_batch-ok b b' to now store t h = ground arith

-- a transition that is accepted leaves the row in its status
transition_batch-status :
    (b b' : Batch) (to : Status) (now : ℕ) (store t : Store) (row : Batch)
    → transition_batch b to none end now store ≡ ok (b', t)
    → find_batch b'.id t.batches ≡ some row
    → row.status ≡ to
unfolding moved
transition_batch-status b b' to now store t row h found =
    let (id, rows) = transition_batch-ok b b' to now store t h in
    let (x, same) =
      find-written b.id (moved to now) store.batches (λ x. refl)
        (sym (ap (λ n. find_batch n t.batches) id ∙ ap (find_batch b.id) rows) ∙ found) in
    ap (λ (b : Batch). b.status) same

-- after the step the row has the status
abbrev pub At : String → Status → Outcome Unit × Run → Type 0
At id to (value _, s) =
    (s.batch.id ≡ id)
    × ((row : Batch) → find_batch s.batch.id s.store.batches ≡ some row → row.status ≡ to)
At id to (raised _, s) = s.batch.id ≡ id
At id to (returned, s) = ⊥

moved_to-At :
    (id : String) (to : Status) (r : Result (Batch × Store)) (s : Run)
    → s.batch.id ≡ id
    → ((b : Batch) (t : Store) → r ≡ ok (b, t) → b.id ≡ id)
    → ((b : Batch) (t : Store) (row : Batch)
        → r ≡ ok (b, t)
        → find_batch b.id t.batches ≡ some row
        → row.status ≡ to)
    → At id to (moved_to r s)
unfolding moved_to
moved_to-At id to (err e) s own h k = own
moved_to-At id to (ok (b, t)) s own h k = (h b t refl, λ row found. k b t row refl found)

At-Ends :
    (id : String) (to : Status) (r : Outcome Unit) (s : Run) → At id to (r, s) → IsEnded id (r, s)
At-Ends id to (value _) s h = (h.0, tt)
At-Ends id to (raised _) s h = (h, tt)
At-Ends id to returned s h = elim h [ ]

-- an end in the status, which is terminal
At-returned :
    (A : Type 0) (id : String) (to : Status) (r : Outcome Unit) (s : Run)
    → is_in to terminal_batch_statuses ≡ true
    → At id to (r, s)
    → IsEnded id (proceed r (λ _. return_early {A = A}) s)
At-returned A id to (value _) s terminal (e, h) =
    (e, λ row found. inl (ap (λ x. is_in x terminal_batch_statuses) (h row found) ∙ terminal))
At-returned A id to (raised _) s terminal h = (h, tt)
At-returned A id to returned s terminal h = elim h [ ]

being_cancelled :
    (status : Status) → is_in status (cancelling ∷ cancelled ∷ []) ≡ true → IsSettled status
being_cancelled cancelling h = inr refl
being_cancelled cancelled h = inl refl
being_cancelled completed h = inl refl
being_cancelled failed h = inl refl
being_cancelled comparison_incomplete h = inl refl
being_cancelled uploaded h = cc
being_cancelled awaiting_confirmation h = cc
being_cancelled queued h = cc
being_cancelled validating h = cc
being_cancelled fetching_remote h = cc
being_cancelled comparing h = cc
being_cancelled rechecking h = cc

stop-Ends :
    (stop : Bool) (s : Run)
    → (stop ≡ true → RowSettled s)
    → IsEnded s.batch.id ((if stop then return_early else pure tt) s)
stop-Ends true s h = (refl, h refl)
stop-Ends false s h = (refl, tt)

refreshed-Ends :
    (found : Option Batch) (store : Store) (s : Run)
    → find_batch s.batch.id store.batches ≡ found
    → IsEnded s.batch.id (
        proceed
          (refreshed found store s).0
          (λ stop. if stop then return_early else pure tt)
          (refreshed found store s).1)
unfolding refreshed
refreshed-Ends none store s h = (refl, tt)
refreshed-Ends (some b) store s h =
    let own = find_id s.batch.id store.batches h in
    let (kept, ended) =
      stop-Ends (is_in b.status (cancelling ∷ cancelled ∷ []))
        (record s { batch = b; store = store; moment = s.moment + 1 })
        λ stops row found.
          let same : some row ≡ some b = sym found ∙ ap (λ n. find_batch n store.batches) own ∙ h in
          let same_row : row ≡ b = cc same in
          subst (λ (x : Batch). IsSettled x.status) (sym same_row)
            (being_cancelled b.status stops) in
    (kept ∙ own, ended)

module _ (world : World) where
  pub unless_cancelled-Ends : Ends (unless_cancelled world)
  unfolding unless_cancelled is_cancelled ◌>>=◌
  unless_cancelled-Ends = record {
    from = λ s.
        let store = world.others s.moment s.store in
        refreshed-Ends (find_batch s.batch.id store.batches) store s refl;
  }

  give_up-At : (s : Run) → At s.batch.id comparison_incomplete (give_up world s)
  unfolding give_up failed_with
  give_up-At s =
      moved_to-At s.batch.id comparison_incomplete _ s refl
        (λ b t e.
          (transition_batch-ok (failed_with "remote_read_incomplete" s.batch) b
            comparison_incomplete (world.now s.moment) _ t e).0)
        λ b t row e found.
          transition_batch-status (failed_with "remote_read_incomplete" s.batch) b
            comparison_incomplete (world.now s.moment) _ t row e found

  fail_validation-At : (s : Run) → At s.batch.id failed (fail_validation world s)
  unfolding fail_validation failed_with
  fail_validation-At s =
      moved_to-At s.batch.id failed _ s refl
        (λ b t e.
          (transition_batch-ok (failed_with "validation_error" s.batch) b failed
            (world.now s.moment) _ t e).0)
        λ b t row e found.
          transition_batch-status (failed_with "validation_error" s.batch) b failed
            (world.now s.moment) _ t row e found

  handled-Ends :
      {A : Type 0} (id : String) (r : Outcome A) (s : Run)
      → IsEnded id (r, s)
      → IsEnded id (handled world r s)
  unfolding handled ◌>>=◌
  handled-Ends id (value a) s h = h
  handled-Ends id returned s h = h
  handled-Ends {A} id (raised e) s (own, h) = elim (Bool-cases (is_incomplete e)) [
    | inl caught ↦ rw caught (
        At-returned A id comparison_incomplete (give_up world s).0 (give_up world s).1 refl
          (subst (λ n. At n comparison_incomplete (give_up world s)) own (give_up-At s)))
    | inr other ↦ rw other (own, tt)
  ]

  pub attempt-Ends : {A : Type 0} (m : Task A) → Ends m → Ends (attempt world m)
  unfolding attempt
  attempt-Ends m h = record { from = λ s. handled-Ends s.batch.id (m s).0 (m s).1 (h.from s) }

  handled_by-Ends :
      {A : Type 0} (id : String) (is_caught : Exception → Bool) (r : Outcome A) (s : Run)
      → IsEnded id (r, s)
      → IsEnded id (handled_by world is_caught r s)
  unfolding handled_by ◌>>=◌
  handled_by-Ends id is_caught (value a) s h = h
  handled_by-Ends id is_caught returned s h = h
  handled_by-Ends {A} id is_caught (raised e) s (own, h) = elim (Bool-cases (is_caught e)) [
    | inl caught ↦ rw caught (
        At-returned A id failed (fail_validation world s).0 (fail_validation world s).1 refl
          (subst (λ n. At n failed (fail_validation world s)) own (fail_validation-At s)))
    | inr other ↦ rw other (own, tt)
  ]

  pub guarded-Ends :
      {A : Type 0} (is_caught : Exception → Bool) (m : Task A)
      → Ends m
      → Ends (guarded world is_caught m)
  unfolding guarded
  guarded-Ends is_caught m h = record {
    from = λ s. handled_by-Ends s.batch.id is_caught (m s).0 (m s).1 (h.from s);
  }

  pub transition-At : (to : Status) (s : Run) → At s.batch.id to (transition world to s)
  unfolding transition
  transition-At to s =
      moved_to-At s.batch.id to _ s refl
        (λ b t e. (transition_batch-ok s.batch b to (world.now s.moment) _ t e).0)
        λ b t row e found. transition_batch-status s.batch b to (world.now s.moment) _ t row e found

  pub transition-Ends : (to : Status) → Ends (transition world to)
  transition-Ends to = record {
    from = λ s.
        At-Ends s.batch.id to (transition world to s).0 (transition world to s).1
          (transition-At to s);
  }

  pub set_progress-Ends : (values : List (String × Value)) → Ends (set_progress world values)
  unfolding set_progress
  set_progress-Ends values = record { from = λ s. (refl, tt) }
