-- ===== src/Batch/Service/Versions.antt =====
-- batch_service.py: the versions that `rerun_batch` gives.
use Prim.Native.Nat.{max}
use mathlib.Core.Path.{subst}
use raj_data_handle.Base.{
  ℕ, ◌+◌, ◌≤◌, ◌<◌, ◌≡◌, ◌≢◌, refl, sym, String, true, Option, none, some, List, [], ◌∷◌, ◌++◌, ok,
  arith, ◌==◌, eq_iff, if◌then◌else◌, All, All-append, Bool-cases, Option-cases, inl, inr,
}
use raj_data_handle.BatchState.{awaiting_confirmation, terminal_batch_statuses, is_in}
use raj_data_handle.Batch.{Batch, Store, find_batch, find_source, Source}
use raj_data_handle.Batch.Service.{max_version, latest_version, NewBatch, rerun_row, rerun_batch}

-- no row of the series has that version or a later one
abbrev pub IsAbove : String → ℕ → List Batch → Type 0
IsAbove series version =
    All (λ (row : Batch). (row.comparison_series_id ≡ series → row.run_version < version))

-- the unique constraint on the series and the version
abbrev pub UniqueVersions : List Batch → Type 0
UniqueVersions [] = Unit
UniqueVersions (b ∷ batches) =
    All
      (λ (row : Batch).
        (row.comparison_series_id ≡ b.comparison_series_id → row.run_version ≢ b.run_version))
      batches
    × UniqueVersions batches

IsAbove-weaken :
    (series : String) (m n : ℕ) (batches : List Batch)
    → m ≤ n
    → IsAbove series m batches
    → IsAbove series n batches
IsAbove-weaken series m n [] h k = tt
IsAbove-weaken series m n (b ∷ batches) h (p, k) =
    (λ e. omega (arith, p e), IsAbove-weaken series m n batches h k)

-- the versions that a maximum bounds; without one the series has no row
abbrev Bounds : String → Option ℕ → List Batch → Type 0
Bounds series none batches = All (λ (row : Batch). row.comparison_series_id ≢ series) batches
Bounds series (some n) batches = IsAbove series (n + 1) batches

absent-IsAbove :
    (series : String) (v : ℕ) (batches : List Batch)
    → Bounds series none batches
    → IsAbove series v batches
absent-IsAbove series v [] h = tt
absent-IsAbove series v (b ∷ batches) (p, h) =
    (λ e. absurd (p e), absent-IsAbove series v batches h)

max_version-cons :
    (series : String) (b : Batch) (batches : List Batch) (m : Option ℕ)
    → Bounds series m batches
    → Bounds series
        (if b.comparison_series_id == series
          then (elim m [ none ↦ some b.run_version | some n ↦ some (max b.run_version n) ])
          else m)
        (b ∷ batches)
max_version-cons series b batches none h = elim (Bool-cases (b.comparison_series_id == series)) [
  | inl e ↦ rw e (λ _. omega arith, absent-IsAbove series (b.run_version + 1) batches h)
  | inr e ↦ rw e (λ q. ground (arith, eq_iff b.comparison_series_id series, q), h)
]
max_version-cons series b batches (some n) h =
    elim (Bool-cases (b.comparison_series_id == series)) [
      | inl e ↦ rw e (
        λ _. omega arith,
        IsAbove-weaken series (n + 1) (max b.run_version n + 1) batches (omega arith) h,
      )
      | inr e ↦ rw e (λ q. ground (arith, eq_iff b.comparison_series_id series, q), h)
    ]

max_version-Bounds :
    (series : String) (batches : List Batch) → Bounds series (max_version series batches) batches
unfolding max_version
max_version-Bounds series [] = tt
max_version-Bounds series (b ∷ batches) =
    max_version-cons series b batches (max_version series batches)
      (max_version-Bounds series batches)

latest-IsAbove :
    (series : String) (m : Option ℕ) (default : ℕ) (batches : List Batch)
    → Bounds series m batches
    → IsAbove series (latest_version m default + 1) batches
latest-IsAbove series none default batches h = absent-IsAbove series (default + 1) batches h
latest-IsAbove series (some n) default batches h =
    IsAbove-weaken series (n + 1) _ batches (ground arith) h

UniqueVersions-append :
    (batches : List Batch) (b : Batch)
    → IsAbove b.comparison_series_id b.run_version batches
    → UniqueVersions batches
    → UniqueVersions (batches ++ b ∷ [])
UniqueVersions-append [] b h u = (tt, tt)
UniqueVersions-append (c ∷ batches) b (p, h) (q, u) = (
  All-append _ batches (b ∷ []) q (λ e f. absurd (omega (arith, p (sym e), f)), tt),
  UniqueVersions-append batches b h u,
)

-- What a rerun that goes through has found and stored.
pub record IsNextVersion (previous : Batch) (b : Batch) (s t : Store) : Type 0 where
  pub ended : is_in previous.status terminal_batch_statuses ≡ true
  pub series : b.comparison_series_id ≡ previous.comparison_series_id
  pub status : b.status ≡ awaiting_confirmation
  pub newest : IsAbove b.comparison_series_id b.run_version s.batches
  pub stored : t.batches ≡ s.batches ++ b ∷ []

abbrev next_version : Batch → Store → ℕ
next_version previous s =
    latest_version (max_version previous.comparison_series_id s.batches) previous.run_version

module _ (id : String) (actor : ℕ) (new : NewBatch) (s t : Store) (b : Batch) where
  rerun-none : find_batch id s.batches ≡ none → rerun_batch id actor new s ≢ ok (b, t)
  unfolding rerun_batch
  rerun-none absent h = ground arith

  rerun-no_source :
      (previous : Batch)
      → find_batch id s.batches ≡ some previous
      → find_source previous.source_id s.sources ≡ none
      → rerun_batch id actor new s ≢ ok (b, t)
  unfolding rerun_batch
  rerun-no_source previous found absent h = ground arith

  rerun-some :
      (previous : Batch) (source : Source)
      → find_batch id s.batches ≡ some previous
      → find_source previous.source_id s.sources ≡ some source
      → rerun_batch id actor new s ≡ ok (b, t)
      → (is_in previous.status terminal_batch_statuses ≡ true)
        × (rerun_row new actor previous source (next_version previous s) ≡ b)
        × (t.batches ≡ s.batches ++ b ∷ [])
  unfolding rerun_batch
  rerun-some previous source found sold h = (ground arith, ground arith, ground arith)

IsNextVersion-row :
    (new : NewBatch) (actor : ℕ) (previous b : Batch) (source : Source) (s t : Store)
    → is_in previous.status terminal_batch_statuses ≡ true
    → rerun_row new actor previous source (next_version previous s) ≡ b
    → t.batches ≡ s.batches ++ b ∷ []
    → IsNextVersion previous b s t
unfolding rerun_row
IsNextVersion-row new actor previous b source s t ended e stored =
    subst (λ x. (t.batches ≡ s.batches ++ x ∷ []) → IsNextVersion previous x s t) e
      (λ q. record {
        ended = ended;
        series = refl;
        status = refl;
        newest =
            latest-IsAbove previous.comparison_series_id
              (max_version previous.comparison_series_id s.batches) previous.run_version s.batches
              (max_version-Bounds previous.comparison_series_id s.batches);
        stored = q;
      })
      stored

rerun-IsNextVersion :
    (id : String) (actor : ℕ) (new : NewBatch) (s t : Store) (b : Batch)
    → rerun_batch id actor new s ≡ ok (b, t)
    → (previous : Batch) × (find_batch id s.batches ≡ some previous) × IsNextVersion previous b s t
rerun-IsNextVersion id actor new s t b h = elim (Option-cases (find_batch id s.batches)) [
  | inl absent ↦ absurd (rerun-none id actor new s t b absent h)
  | inr (previous, found) ↦ elim (Option-cases (find_source previous.source_id s.sources)) [
    | inl none_there ↦ absurd (rerun-no_source id actor new s t b previous found none_there h)
    | inr (source, sold) ↦
        let (ended, row, stored) = rerun-some id actor new s t b previous source found sold h in
        (previous, found, IsNextVersion-row new actor previous b source s t ended row stored)
  ]
]

-- A rerun that returns has an ended batch before it; it adds one row to its series, waiting for
-- confirmation, with a version above every version of the series. If the rows keep the unique
-- constraint on the series and the version, they do so afterwards.
pub rerun-UniqueVersions :
    (id : String) (actor : ℕ) (new : NewBatch) (s t : Store) (b : Batch)
    → UniqueVersions s.batches
    → rerun_batch id actor new s ≡ ok (b, t)
    → ((previous : Batch) × (find_batch id s.batches ≡ some previous)
        × IsNextVersion previous b s t)
      × UniqueVersions t.batches
rerun-UniqueVersions id actor new s t b u h =
    let (previous, found, r) = rerun-IsNextVersion id actor new s t b h in
    ((previous, found, r), rw r.stored (UniqueVersions-append s.batches b r.newest u))
