-- ===== src/Sources/Update/Enabled.antt =====
-- source_service.py: which sources an upsert leaves enabled.
use raj_data_handle.Base.{
  ℕ, ◌≡◌, ◌⊎◌, sym, ap, ◌∙◌, String, true, false, not, ◌||◌, some, ok, is_some, inl, inr, arith,
}
use raj_data_handle.Batch.{Source, find_source}
use raj_data_handle.Secret.{Cipher, SecretSettings}
use raj_data_handle.Sources.{Library, SourceSettings, SourceStore}
use raj_data_handle.Sources.Request.{SourceRequest, attributes, contains}
use raj_data_handle.Sources.Update.{UpdateInputs, upsert_source}
use raj_data_handle.Sources.Update.Stages.{
  enabled_step-IsSettled, started-cases, find_source-id, closed-IsKept, closed-enabled,
}
use raj_data_handle.Sources.Update.Upserts.{upsert_source-IsUpsert}

module _ (library : Library) (settings : SourceSettings) (cipher : Cipher)
    (secrets : SecretSettings) (source_id : String) (request : SourceRequest) (actor : ℕ)
    (inputs : UpdateInputs) (s t : SourceStore) (row : Source) where
  -- where the row stood before, with what an enabled one needs
  pub record IsFit (old : Source) : Type 0 where
    pub stored : find_source row.source_id s.sources ≡ some old
    pub url : row.base_url ≡ old.base_url
    pub credentials : row.encrypted_credentials ≡ old.encrypted_credentials
    pub version : row.credential_version ≡ old.credential_version
    pub allowed : (old.enabled ≡ true) ⊎ (old.last_test_status ≡ some "passed")

  -- A source that an upsert leaves enabled was there before with the same address and credentials, and was
  -- enabled or had passed its last connection test.
  pub upsert-IsFit :
      upsert_source library settings cipher secrets source_id request actor inputs s ≡ ok (row, t)
      → row.enabled ≡ true
      → (old : Source) × IsFit old
  upsert-IsFit h on =
      let r =
        upsert_source-IsUpsert library settings cipher secrets source_id request actor inputs s t
          row h in
      let (untouched, enabled) =
        closed-enabled r.touched _ actor r.final (ap (λ (a : Source). a.enabled) r.stored ∙ on) in
      let kept =
        closed-IsKept r.touched (not (is_some (find_source r.id s.sources))) actor r.final in
      let settled =
        enabled_step-IsSettled (not (is_some (find_source r.id s.sources)))
          (attributes request).enabled r.draft r.final r.last in
      let quiet : (r.touched || contains "base_url" r.draft.changed_fields) ≡ false =
        ground (arith, untouched, settled.marked) in
      elim (started-cases library settings request actor r.id (find_source r.id s.sources) r.source
        r.start) [
          | inl stored ↦
              let id =
                ap (λ (a : Source). a.source_id) (sym r.stored)
                ∙ kept.id
                ∙ settled.id
                ∙ r.is_draft.id
                ∙ find_source-id r.id s.sources stored in
              (
                r.source,
                record {
                  stored = rw id stored;
                  url =
                      ap (λ (a : Source). a.base_url) (sym r.stored)
                      ∙ kept.url
                      ∙ settled.url
                      ∙ r.is_draft.url (ground (arith, quiet));
                  credentials =
                      ap (λ (a : Source). a.encrypted_credentials) (sym r.stored)
                      ∙ kept.credentials
                      ∙ settled.credentials
                      ∙ r.is_draft.credentials (ground (arith, quiet));
                  version =
                      ap (λ (a : Source). a.credential_version) (sym r.stored)
                      ∙ kept.version
                      ∙ settled.credential_version
                      ∙ r.is_draft.credential_version (ground (arith, quiet));
                  allowed =
                      ground (
                        arith,
                        settled.allowed enabled,
                        r.is_draft.enabled,
                        r.is_draft.status quiet,
                      );
                },
              )
          | inr (_, _, off, untested, _) ↦ absurd (
              ground (
                arith,
                settled.allowed enabled,
                r.is_draft.enabled,
                r.is_draft.status quiet,
                off,
                untested,
              ))
        ]
