-- ===== src/Sources/Update/Version.antt =====
-- source_service.py: `config_version` under an upsert, and the rows that it stores.
use raj_data_handle.Base.{
  ℕ, ◌+◌, ◌≡◌, ◌≢◌, ◌⊎◌, refl, sym, ap, ◌∙◌, String, Bool, false, not, ◌||◌, none, some, List, [],
  ◌∷◌, ◌++◌, ok, ◌==◌, is_some, if◌then◌else◌, Bool-cases, inl, inr, arith, eq_iff,
}
use raj_data_handle.Batch.{Source, find_source}
use raj_data_handle.Secret.{Cipher, SecretSettings}
use raj_data_handle.Sources.{Library, SourceSettings, SourceStore, update_source}
use raj_data_handle.Sources.Request.{SourceRequest, attributes, contains}
use raj_data_handle.Sources.Update.{Draft, UpdateInputs, closed, upsert_source}
use raj_data_handle.Sources.Update.Stages.{
  closed-IsKept, enabled_step-IsSettled, started-cases, find_source-id,
}
use raj_data_handle.Sources.Update.Upserts.{IsUpsert, upsert_source-IsUpsert}

find_source-update :
    (row : Source) (id : String) (sources : List Source) {old : Source}
    → find_source row.source_id sources ≡ some old
    → find_source id (update_source row sources)
      ≡ (if row.source_id == id then some row else find_source id sources)
find_source-update row id [] h = cc
find_source-update row id (a ∷ sources) {old} h = ground (
  arith,
  eq_iff a.source_id row.source_id,
  eq_iff row.source_id id,
  eq_iff a.source_id id,
  find_source-update row id sources {old = old},
)

find_source-append :
    (row : Source) (id : String) (sources : List Source)
    → find_source row.source_id sources ≡ none
    → find_source id (sources ++ row ∷ [])
      ≡ (if row.source_id == id then some row else find_source id sources)
find_source-append row id [] h = refl
find_source-append row id (a ∷ sources) h = ground (
  arith,
  eq_iff a.source_id row.source_id,
  eq_iff row.source_id id,
  eq_iff a.source_id id,
  find_source-append row id sources,
)

List-cases : {A : Type 0} (xs : List A) → (xs ≡ []) ⊎ (xs ≢ [])
List-cases [] = inl refl
List-cases (x ∷ xs) = inr (cc)

draft-is :
    (d : Draft) (old : Source)
    → d.source ≡ old
    → d.changed_fields ≡ []
    → d ≡ record { source = old; changed_fields = [] }
draft-is d old h k i = record { source = h i; changed_fields = k i }

closed-same :
    (creating : Bool) (actor : ℕ) (source : Source)
    → closed false creating actor (record { source = source; changed_fields = [] })
      ≡ record source { updated_by = some actor }
unfolding closed
closed-same creating actor source = refl

closed-counts :
    (touched : Bool) (actor : ℕ) (source : Source) (names : List String)
    → names ≢ []
    → (closed touched false actor
        (record { source = source; changed_fields = names })).config_version
      ≡ source.config_version + 1
unfolding closed
closed-counts touched actor source [] h = absurd (h refl)
closed-counts touched actor source (n ∷ names) h =
    elim (Bool-cases (touched || contains "base_url" (n ∷ names))) [
      | inl e ↦ rw e refl
      | inr e ↦ rw e refl
    ]

module _ (library : Library) (settings : SourceSettings) (cipher : Cipher)
    (secrets : SecretSettings) (source_id : String) (request : SourceRequest) (actor : ℕ)
    (inputs : UpdateInputs) (s t : SourceStore) (row : Source) where
  pub row-id :
      (r : IsUpsert library settings cipher secrets source_id request actor inputs s t row)
      → row.source_id ≡ r.source.source_id
  row-id r =
      let kept =
        closed-IsKept r.touched (not (is_some (find_source r.id s.sources))) actor r.final in
      let settled =
        enabled_step-IsSettled (not (is_some (find_source r.id s.sources)))
          (attributes request).enabled r.draft r.final r.last in
      ap (λ (a : Source). a.source_id) (sym r.stored) ∙ kept.id ∙ settled.id ∙ r.is_draft.id

  -- the row that was stored is the one that the upsert has worked on
  stored-source :
      (r : IsUpsert library settings cipher secrets source_id request actor inputs s t row)
      (old : Source)
      → find_source row.source_id s.sources ≡ some old
      → (r.source ≡ old) × (find_source r.id s.sources ≡ some old)
  stored-source r old found =
      elim (started-cases library settings request actor r.id (find_source r.id s.sources) r.source
        r.start) [
          | inl stored ↦
              let id = row-id r ∙ find_source-id r.id s.sources stored in
              let same : some r.source ≡ some old =
                sym stored ∙ ap (λ n. find_source n s.sources) (sym id) ∙ found in
              (cc same, stored ∙ same)
          | inr (missing, id, _, _, _) ↦
              absurd (cc (sym found ∙ ap (λ n. find_source n s.sources) (row-id r ∙ id) ∙ missing))
        ]

  -- An upsert of a source that was there gives it the next configuration version, or has changed nothing of
  -- it but who updated it.
  pub upsert-version :
      (old : Source)
      → upsert_source library settings cipher secrets source_id request actor inputs s ≡ ok (row, t)
      → find_source row.source_id s.sources ≡ some old
      → (row.config_version ≡ old.config_version + 1)
        ⊎ (row ≡ record old { updated_by = some actor })
  upsert-version old h found =
      let r =
        upsert_source-IsUpsert library settings cipher secrets source_id request actor inputs s t
          row h in
      let (same, stored) = stored-source r old found in
      let settled =
        enabled_step-IsSettled (not (is_some (find_source r.id s.sources)))
          (attributes request).enabled r.draft r.final r.last in
      let updating : not (is_some (find_source r.id s.sources)) ≡ false = rw stored refl in
      let row_is : closed r.touched false actor r.final ≡ row =
        ap (λ b. closed r.touched b actor r.final) (sym updating) ∙ r.stored in
      elim (List-cases r.final.changed_fields) [
        | inl e ↦
            let empty : r.draft.changed_fields ≡ [] =
              ap (λ (d : Draft). d.changed_fields) (sym (settled.same e)) ∙ e in
            let final_is =
              settled.same e ∙ draft-is r.draft old (r.is_draft.same empty ∙ same) empty in
            let quiet : r.touched ≡ false = elim (Bool-cases r.touched) [
              | inl k ↦ absurd (r.is_draft.marked k empty)
              | inr k ↦ k
            ] in
            inr (
              sym row_is
              ∙ ap (λ b. closed b false actor r.final) quiet
              ∙ ap (closed false false actor) final_is
              ∙ closed-same false actor old)
        | inr e ↦ inl (
            ap (λ (a : Source). a.config_version) (sym row_is)
            ∙ closed-counts r.touched actor r.final.source r.final.changed_fields e
            ∙ ap (λ n. n + 1)
                (settled.config_version
                  ∙ r.is_draft.version
                  ∙ ap (λ (a : Source). a.config_version) same))
      ]

  -- After an upsert the id of the row that it returns leads to that row, and every other id to what it led
  -- to before.
  pub upsert-stores :
      (id : String)
      → upsert_source library settings cipher secrets source_id request actor inputs s ≡ ok (row, t)
      → find_source id t.sources
        ≡ (if row.source_id == id then some row else find_source id s.sources)
  upsert-stores id h =
      let r =
        upsert_source-IsUpsert library settings cipher secrets source_id request actor inputs s t
          row h in
      let row_source = row-id r in
      rw (sym r.sources)
        (elim (started-cases library settings request actor r.id (find_source r.id s.sources)
          r.source r.start) [
            | inl stored ↦
                let same = row_source ∙ find_source-id r.id s.sources stored in
                rw stored (
                  find_source-update row id s.sources
                    (ap (λ n. find_source n s.sources) same ∙ stored))
            | inr (missing, same, _, _, _) ↦ rw missing (
                find_source-append row id s.sources
                  (ap (λ n. find_source n s.sources) (row_source ∙ same) ∙ missing))
          ])
