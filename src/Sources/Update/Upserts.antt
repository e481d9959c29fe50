-- ===== src/Sources/Update/Upserts.antt =====
-- source_service.py: the stages of an upsert that went through.
use raj_data_handle.Base.{
  ℕ, ◌≡◌, refl, sym, ap, ◌∙◌, String, Bool, false, not, [], ok, >>=-eq-ok, ok-injective, is_some,
}
use raj_data_handle.Batch.{Source, find_source}
use raj_data_handle.Secret.{Cipher, SecretSettings}
use raj_data_handle.Sources.{Library, SourceSettings, SourceStore, validate_source_id}
use raj_data_handle.Sources.Request.{SourceRequest, Attributes, attributes, provided, no_fields}
use raj_data_handle.Sources.Update.{
  Draft, UpdateInputs, enabled_step, url_step, field_steps, credentials_step, all_steps,
  stored_rows, closed, started, upsert_source,
}
use raj_data_handle.Sources.Update.Drafts.{
  IsDraft, field_steps-IsDraft, url_step-IsDraft, credentials_step-IsDraft,
}

-- the draft before the check on `requested_enabled`
all_steps-ready :
    (library : Library) (settings : SourceSettings) (cipher : Cipher) (secrets : SecretSettings)
    (creating : Bool) (a : Attributes) (inputs : UpdateInputs) (source : Source) (final : Draft)
    → all_steps library settings cipher secrets creating a inputs
        (record { source = source; changed_fields = [] })
      ≡ ok final
    → (ready : Draft) × IsDraft source (not (no_fields (provided a.credentials))) ready
      × (enabled_step creating a.enabled ready ≡ ok final)
unfolding all_steps
all_steps-ready library settings cipher secrets creating a inputs source final e =
    let d : Draft = record { source = source; changed_fields = [] } in
    let fresh : IsDraft source false d = record {
      id = refl;
      enabled = refl;
      version = refl;
      url = λ k. refl;
      credentials = λ k. refl;
      credential_version = λ k. refl;
      status = λ k. refl;
      untested = λ k. absurd (cc k);
      same = λ k. refl;
      marked = λ k. absurd (cc k);
    } in
    let (d₁, e₁, r₁) = >>=-eq-ok (field_steps library settings a d) _ e in
    let (d₂, e₂, r₂) = >>=-eq-ok (url_step library settings a d₁) _ r₁ in
    let (d₃, e₃, r₃) =
      >>=-eq-ok
        (credentials_step cipher secrets creating inputs.nonce inputs.now (provided a.credentials)
          d₂)
        _ r₂ in
    let fields = field_steps-IsDraft source library settings a d d₁ fresh e₁ in
    let address = url_step-IsDraft source library settings a d₁ d₂ fields e₂ in
    (
      d₃,
      credentials_step-IsDraft source cipher secrets creating inputs.nonce inputs.now
          (provided a.credentials) d₂ d₃ address e₃,
      r₃,
    )

module _ (library : Library) (settings : SourceSettings) (cipher : Cipher)
    (secrets : SecretSettings) (source_id : String) (request : SourceRequest) (actor : ℕ)
    (inputs : UpdateInputs) (s t : SourceStore) (row : Source) where
  -- an upsert that went through
  pub record IsUpsert : Type 0 where
    pub id : String
    pub source : Source
    pub start : started library settings request id actor (find_source id s.sources) ≡ ok source
    pub touched : Bool
    pub draft : Draft
    pub is_draft : IsDraft source touched draft
    pub final : Draft
    pub worked :
        all_steps library settings cipher secrets
          (not (is_some (find_source id s.sources)))
          (attributes request)
          inputs
          (record { source = source; changed_fields = [] })
        ≡ ok final
    pub last :
        enabled_step (not (is_some (find_source id s.sources))) (attributes request).enabled draft
        ≡ ok final
    pub stored : closed touched (not (is_some (find_source id s.sources))) actor final ≡ row
    pub sources : stored_rows (not (is_some (find_source id s.sources))) row s.sources ≡ t.sources

  pub upsert_source-IsUpsert :
      upsert_source library settings cipher secrets source_id request actor inputs s ≡ ok (row, t)
      → IsUpsert
  unfolding upsert_source
  upsert_source-IsUpsert h =
      let (id, _, h₁) = >>=-eq-ok (validate_source_id source_id) _ h in
      let (source, start, h₂) =
        >>=-eq-ok (started library settings request id actor (find_source id s.sources)) _ h₁ in
      let (final, e, h₃) =
        >>=-eq-ok
          (all_steps library settings cipher secrets (not (is_some (find_source id s.sources)))
            (attributes request) inputs (record { source = source; changed_fields = [] }))
          _ h₂ in
      let (ready, is_draft, last) =
        all_steps-ready library settings cipher secrets (not (is_some (find_source id s.sources)))
          (attributes request) inputs source final e in
      let same = ok-injective h₃ in
      let stored = ap (λ (r : Source × SourceStore). r.0) same in
      record {
        id = id;
        source = source;
        start = start;
        touched = not (no_fields (provided (attributes request).credentials));
        draft = ready;
        is_draft = is_draft;
        final = final;
        worked = e;
        last = last;
        stored = stored;
        sources =
            ap (λ r. stored_rows (not (is_some (find_source id s.sources))) r s.sources)
              (sym stored)
            ∙ ap (λ (r : Source × SourceStore). r.1.sources) same;
      }
