-- ===== src/Execution/Publish/Rows.antt =====
-- reconciliation_execution_service.py: the result rows of a batch after `publish`.
use raj_data_handle.Base.{
  ℕ, ◌≡◌, refl, ap, ◌∙◌, inl, inr, String, Bool, true, false, not, Option, none, some, List, [],
  ◌∷◌, ◌++◌, map, Result, ok, err, arith, keep, ◌==◌, eq_iff, Bool-cases, if◌then◌else◌,
}
use raj_data_handle.Value.{Value, Fields, end}
use raj_data_handle.BatchState.{Status, completed, ensure_transition}
use raj_data_handle.Batch.{Batch, Store}
use raj_data_handle.Batch.Transition.{moved, transition_batch}
use raj_data_handle.Batch.Transition.Rows.{find_id}
use raj_data_handle.Execution.Steps.{
  OrderResult, Run, World, Outcome, value, raised, returned, Task, pure, return_early, proceed,
  ◌>>=◌,
}
use raj_data_handle.Execution.{
  Decided, moved_to, refreshed, is_cancelled, set_progress, transition, unless_cancelled,
}
use raj_data_handle.Execution.Decisions.{bind-value}
use raj_data_handle.Execution.Publish.{result_row, save_results, finalized, finalize, publish}

-- a row of the batch
abbrev pub is_own : String → OrderResult → Bool
is_own id row = row.batch_id == id

-- a step that leaves the result rows and the batch's id alone
abbrev Keeps : {A : Type 0} → Task A → Type 0
Keeps m = (s : Run) → ((m s).1.results ≡ s.results) × ((m s).1.batch.id ≡ s.batch.id)

proceed-run :
    {A B : Type 0} (r : Outcome A) (t : Run) (f : A → Task B) {a : A}
    → r ≡ value a
    → (proceed r f t).1 ≡ (f a t).1
proceed-run (value x) t f h = cc
proceed-run (raised e) t f h = absurd (cc h)
proceed-run returned t f h = absurd (cc h)

bind-run :
    {A B : Type 0} (m : Task A) (f : A → Task B) (s : Run) {a : A}
    → (m s).0 ≡ value a
    → ((m >>= f) s).1 ≡ (f a (m s).1).1
unfolding ◌>>=◌
bind-run m f s h = let (r, t) = m s in proceed-run r t f h

proceed-Keeps :
    {A B : Type 0} (r : Outcome A) (t : Run) (f : A → Task B)
    → ((a : A) → Keeps (f a))
    → ((proceed r f t).1.results ≡ t.results) × ((proceed r f t).1.batch.id ≡ t.batch.id)
proceed-Keeps (value a) t f k = k a t
proceed-Keeps (raised e) t f k = (refl, refl)
proceed-Keeps returned t f k = (refl, refl)

refreshed-Keeps :
    (found : Option Batch) (store : Store) (s : Run)
    → ((b : Batch) → found ≡ some b → b.id ≡ s.batch.id)
    → ((refreshed found store s).1.results ≡ s.results)
      × ((refreshed found store s).1.batch.id ≡ s.batch.id)
unfolding refreshed
refreshed-Keeps none store s h = (refl, refl)
refreshed-Keeps (some b) store s h = (refl, h b refl)

moved_to-Keeps :
    (r : Result (Batch × Store)) (s : Run)
    → ((b : Batch) (t : Store) → r ≡ ok (b, t) → b.id ≡ s.batch.id)
    → ((moved_to r s).1.results ≡ s.results) × ((moved_to r s).1.batch.id ≡ s.batch.id)
unfolding moved_to
moved_to-Keeps (ok (b, t)) s h = (refl, h b t refl)
moved_to-Keeps (err e) s h = (refl, refl)

transition_batch-id :
    (b b' : Batch) (to : Status) (now : ℕ) (s t : Store)
    → transition_batch b to none end now s ≡ ok (b', t)
    → b'.id ≡ b.id
unfolding transition_batch ensure_transition moved
transition_batch-id b b' to now s t h = ground arith

stop-Keeps : (stop : Bool) → Keeps (if stop then return_early else pure tt)
stop-Keeps true s = (refl, refl)
stop-Keeps false s = (refl, refl)

module _ (world : World) where
  is_cancelled-Keeps : Keeps (is_cancelled world)
  unfolding is_cancelled
  is_cancelled-Keeps s =
      refreshed-Keeps _ _ s λ b h. find_id s.batch.id (world.others s.moment s.store).batches h

  unless_cancelled-Keeps : Keeps (unless_cancelled world)
  unfolding unless_cancelled ◌>>=◌
  unless_cancelled-Keeps s =
      let (rows, id) =
        proceed-Keeps (is_cancelled world s).0 (is_cancelled world s).1
          (λ stop. if stop then return_early else pure tt) stop-Keeps in
      let (rows', id') = is_cancelled-Keeps s in (rows ∙ rows', id ∙ id')

  set_progress-Keeps : (values : List (String × Value)) → Keeps (set_progress world values)
  unfolding set_progress
  set_progress-Keeps values s = (refl, refl)

  transition-Keeps : (to : Status) → Keeps (transition world to)
  unfolding transition
  transition-Keeps to s = moved_to-Keeps _ s λ b t h. transition_batch-id s.batch b to _ _ t h

self : (s : String) → (s == s) ≡ true
self s = ground (arith, eq_iff s s)

finalized-own :
    (id : String) (rows : List OrderResult) (decisions : List Decided)
    (shown_list : List ℕ → String) (shown_dict : Fields → String)
    → keep (is_own id) (
        finalized id (
          keep (λ (row : OrderResult). not (is_own id row)) rows
          ++ map (result_row shown_list shown_dict id) decisions))
      ≡ map (λ x. record (result_row shown_list shown_dict id x) { is_final = true }) decisions
unfolding finalized result_row
finalized-own id [] [] sl sd = refl
finalized-own id [] (x ∷ xs) sl sd = rw (self id) (
    rw (self id) (
      ap (λ l. record (result_row sl sd id x) { is_final = true } ∷ l)
        (finalized-own id [] xs sl sd)))
finalized-own id (row ∷ rows) xs sl sd = elim (Bool-cases (row.batch_id == id)) [
  | inl e ↦ rw e (finalized-own id rows xs sl sd)
  | inr e ↦ rw (e, e, e) (finalized-own id rows xs sl sd)
]

-- a task that finalizes the rows it starts from, if it comes to its end
abbrev Finalizes : Task Unit → Type 0
Finalizes m = (s : Run) → (m s).0 ≡ value tt → (m s).1.results ≡ finalized s.batch.id s.results

bind-Finalizes :
    {A : Type 0} (m : Task A) (f : A → Task Unit)
    → Keeps m
    → ((a : A) → Finalizes (f a))
    → Finalizes (m >>= f)
bind-Finalizes m f keeps k s h =
    let (a, e, rest) = bind-value m f s h in
    let (rows, id) = keeps s in
    ap (λ (t : Run). t.results) (bind-run m f s e)
    ∙ k a (m s).1 rest
    ∙ ap (λ x. finalized x (m s).1.results) id
    ∙ ap (finalized s.batch.id) rows

module _ (world : World) (shown_list : List ℕ → String) (shown_dict : Fields → String) where
  finalize-Finalizes : Finalizes (finalize world)
  unfolding finalize
  finalize-Finalizes s h = refl

  -- If the publication of the decisions comes to its end, then the result rows of the batch are one
  -- final row for each decision, in order, and no other.
  pub publish-rows :
      (decisions : List Decided) (s : Run)
      → (publish world shown_list shown_dict decisions s).0 ≡ value tt
      → keep (is_own s.batch.id) (publish world shown_list shown_dict decisions s).1.results
        ≡ map
            (λ x. record (result_row shown_list shown_dict s.batch.id x) { is_final = true })
            decisions
  unfolding publish save_results
  publish-rows decisions s h =
      let m = save_results shown_list shown_dict decisions in
      let (_, e, rest) = bind-value m _ s h in
      let ended =
        bind-Finalizes (unless_cancelled world) _ (unless_cancelled-Keeps world)
          (λ _. bind-Finalizes (set_progress world _) _ (set_progress-Keeps world _) λ _.
            bind-Finalizes (unless_cancelled world) _ (unless_cancelled-Keeps world) λ _.
              bind-Finalizes (transition world completed) _ (transition-Keeps world completed)
                λ _. finalize-Finalizes)
          (m s).1 rest in
      ap (λ (t : Run). keep (is_own s.batch.id) t.results) (bind-run m _ s e)
      ∙ ap (keep (is_own s.batch.id)) ended
      ∙ finalized-own s.batch.id s.results decisions shown_list shown_dict
