-- ===== src/Sources/Update.antt =====
-- source_service.py: `upsert_source` and `create_source`.
pub mod Drafts
pub mod Stages
pub mod Upserts
pub mod Enabled
pub mod Version
use raj_data_handle.Base.{
  ℕ, suc, ◌+◌, String, Bool, true, false, not, ◌&&◌, ◌||◌, Option, none, some, List, [], ◌∷◌, ◌++◌,
  Result, ok, err, raise_if, bind_result, ◌>>=◌, ◌>>◌, any_of, type_error, source_validation_error,
  source_conflict_error, security_validation_error, ◌==◌, is_some, if◌then◌else◌,
}
use raj_data_handle.Text.{is_empty, strip}
use raj_data_handle.Value.{Value, text, list, Items, nil, item, Fields, end, field, put}
use raj_data_handle.Batch.{Source, find_source}
use raj_data_handle.Account.{AuditLog}
use raj_data_handle.Secret.{Bytes, Cipher, SecretSettings, encrypt_credentials, decrypt_credentials}
use raj_data_handle.Sources.Request.{
  SourceRequest, upsert, patch, Attributes, attributes, provided, update_fields, has_required,
  contains, sorted_fields, no_fields, is_true,
}
use raj_data_handle.Sources.{
  Library, SourceSettings, SourceStore, validate_source_id, validate_timezone, normalize_base_url,
  is_given, update_source, audited,
}

-- a source with the names of the fields that were changed
pub record Draft : Type 0 where
  pub source : Source
  pub changed_fields : List String

abbrev pub same_value : Option String → Option String → Bool
same_value none none = true
same_value (some s) (some t) = s == t
same_value _ _ = false

-- `if getattr(source, field) != value: setattr(source, field, value)` with the name of the field
abbrev set_field : (old value name : String) → (Source → Source) → Draft → Draft
set_field old value name set d =
    if old == value
    then d
    else record { source = set d.source; changed_fields = d.changed_fields ++ name ∷ [] }

set_display_name : Option String → Draft → Result Draft
set_display_name none d = ok d
set_display_name (some value) d = ok (
    set_field d.source.display_name value "display_name"
      (λ (s : Source). record s { display_name = value }) d)

set_currency : Library → Option String → Draft → Result Draft
set_currency library none d = ok d
set_currency library (some value) d = ok (
    set_field d.source.currency (library.upper value) "currency"
      (λ (s : Source). record s { currency = library.upper value }) d)

set_timezone : Library → SourceSettings → Option String → Draft → Result Draft
set_timezone library settings none d = ok d
set_timezone library settings (some value) d =
    bind_result (validate_timezone library settings value) λ zone. ok (
      set_field d.source.business_timezone zone "business_timezone"
        (λ (s : Source). record s { business_timezone = zone }) d)

set_base_url : Option String → Draft → Draft
set_base_url base_url d = if same_value d.source.base_url base_url then d else record {
  source = record d.source { base_url = base_url; last_test_status = none };
  changed_fields = d.changed_fields ++ "base_url" ∷ [];
}

-- a new base URL, which an update may leave out
pub url_step : Library → SourceSettings → Attributes → Draft → Result Draft
unfolding set_base_url
url_step library settings request d =
    if request.is_upsert || is_some request.base_url
    then (do url ← normalize_base_url library settings request.base_url; ok (set_base_url url d))
    else ok d

-- `except SecurityValidationError as exc: raise SourceValidationError`
unfoldable pub as_undecryptable : {A : Type 0} → Result A → Result A
as_undecryptable (err security_validation_error) = err source_validation_error
as_undecryptable r = r

-- `source.credential_version`, which is `None` in a new row until the flush sets the column's default
abbrev pub version_of : (creating : Bool) → Source → Option ℕ
version_of true source = none
version_of false source = some source.credential_version

-- `version + 1`
abbrev pub incremented : Option ℕ → Result ℕ
incremented none = err type_error
incremented (some version) = ok (version + 1)

module _ (cipher : Cipher) (secrets : SecretSettings) where
  -- the credentials that are stored, none of them where there is no ciphertext
  existing_credentials : Source → Option String → Result Fields
  unfolding as_undecryptable
  existing_credentials source none = ok end
  existing_credentials source (some encrypted) =
      if is_empty encrypted
      then ok end
      else as_undecryptable
          (decrypt_credentials cipher secrets encrypted source.source_id source.credential_version)

  store_credentials :
      (creating : Bool) → (nonce : Bytes) → (now : ℕ) → Fields → Draft → Result Draft
  unfolding existing_credentials update_fields has_required
  store_credentials creating nonce now given d = do
    existing ← existing_credentials d.source d.source.encrypted_credentials
    let merged = update_fields existing given
    raise_if (not (has_required merged)) source_validation_error
    version ← incremented (version_of creating d.source)
    encrypted ← encrypt_credentials cipher secrets nonce merged d.source.source_id version
    ok (record {
      source = record d.source {
        credential_version = version;
        encrypted_credentials = some encrypted;
        credential_updated_at = some now;
        last_test_status = none;
      };
      changed_fields = d.changed_fields ++ "credentials" ∷ [];
    })

  pub credentials_step :
      (creating : Bool) → (nonce : Bytes) → (now : ℕ) → Fields → Draft → Result Draft
  unfolding store_credentials
  credentials_step creating nonce now end d = ok d
  credentials_step creating nonce now (field key value rest) d =
      store_credentials creating nonce now (field key value rest) d

abbrev set_enabled : Bool → Source → Source
set_enabled value s = record s { enabled = value }

abbrev same_bool : Bool → Bool → Bool
same_bool true b = b
same_bool false b = not b

-- `requested_enabled`; `enabled` of a new row is `None` until the flush and differs from both values
pub enabled_step : (creating : Bool) → Option Bool → Draft → Result Draft
enabled_step creating none d = ok d
enabled_step creating (some requested) d = do
  raise_if
      (requested
        && (not (is_given d.source.base_url) || not (is_given d.source.encrypted_credentials)))
      source_validation_error
  raise_if (requested && not (same_value d.source.last_test_status (some "passed")))
      source_validation_error
  ok (
      if not creating && same_bool d.source.enabled requested then d else record {
        source = set_enabled requested d.source;
        changed_fields = d.changed_fields ++ "enabled" ∷ [];
      })

abbrev is_empty_list : List String → Bool
is_empty_list [] = true
is_empty_list (_ ∷ _) = false

-- the last columns: new access data end the use of the source, and an update counts as a version
pub closed : (credentials_changed creating : Bool) → (actor : ℕ) → Draft → Source
closed credentials_changed creating actor d =
    let source =
      if credentials_changed || contains "base_url" d.changed_fields
      then set_enabled false d.source
      else d.source in
    record source {
      config_version =
          if not (is_empty_list d.changed_fields) && not creating
          then source.config_version + 1
          else source.config_version;
      updated_by = some actor;
    }

-- what `upsert_source` takes from outside: the `str` of a list, the nonce and the clock
pub record UpdateInputs : Type 0 where
  pub shown : Items → String
  pub nonce : Bytes
  pub now : ℕ

source_audit :
    UpdateInputs → (creating : Bool) → (actor : ℕ) → (source_id : String) → List String → AuditLog
source_audit inputs creating actor source_id names = record {
  actor_user_id = some actor;
  action = if creating then "source.create" else "source.update";
  target_type = some "source";
  target_id = some source_id;
  result = "success";
  metadata_json =
      field "changed_fields" (list (inputs.shown (sorted_fields names)) (sorted_fields names)) end;
}

-- the rows after the commit
abbrev pub stored_rows : (creating : Bool) → Source → List Source → List Source
stored_rows creating row sources =
    if creating then sources ++ row ∷ [] else update_source row sources

module _ (library : Library) (settings : SourceSettings) where
  -- the row of the source, or the one that a full request starts, with the defaults of the flush
  unfoldable pub started :
      SourceRequest → (source_id : String) → (actor : ℕ) → Option Source → Result Source
  started request source_id actor (some source) = ok source
  started (patch _ _ _ _ _ _) source_id actor none = err source_validation_error
  started (upsert name _ _ _ _ _) source_id actor none = ok (record {
    source_id = source_id;
    display_name = name;
    enabled = false;
    base_url = none;
    encrypted_credentials = none;
    credential_version = 0;
    config_version = 1;
    business_timezone = settings.default_business_timezone;
    currency = settings.default_currency;
    credential_updated_at = none;
    last_tested_at = none;
    last_test_status = none;
    last_test_request_id = none;
    created_by = some actor;
    updated_by = some actor;
  })

  -- the three fields of the loop
  pub field_steps : Attributes → Draft → Result Draft
  unfolding set_display_name set_timezone set_currency
  field_steps a d = do
    d₁ ← set_display_name a.display_name d
    d₂ ← set_timezone library settings a.business_timezone d₁
    set_currency library a.currency d₂

  module _ (cipher : Cipher) (secrets : SecretSettings) where
    -- every change of the columns in the order of the code
    pub all_steps : (creating : Bool) → Attributes → UpdateInputs → Draft → Result Draft
    unfolding field_steps url_step credentials_step enabled_step
    all_steps creating a inputs d = do
      d₁ ← field_steps a d
      d₂ ← url_step library settings a d₁
      d₃ ←
          credentials_step cipher secrets creating inputs.nonce inputs.now (provided a.credentials)
            d₂
      enabled_step creating a.enabled d₃

    -- `upsert_source`
    unfoldable pub upsert_source :
        (source_id : String)
        → SourceRequest
        → (actor : ℕ) → UpdateInputs
        → SourceStore
        → Result (Source × SourceStore)
    unfolding all_steps closed source_audit
    upsert_source source_id request actor inputs s = do
      id ← validate_source_id source_id
      let stored = find_source id s.sources
      let creating = not (is_some stored)
      source ← started request id actor stored
      d ←
          all_steps creating (attributes request) inputs
            (record { source = source; changed_fields = [] })
      let row =
          closed (not (no_fields (provided (attributes request).credentials))) creating actor d
      ok (
        row,
        audited (source_audit inputs creating actor id d.changed_fields)
            (record s { sources = stored_rows creating row s.sources }),
      )

    -- `create_source`; another session may have committed a source with this id in between, which
    -- the commit then refuses
    unfoldable pub create_source :
        (taken_meanwhile : Bool)
        → (source_id : String) → SourceRequest
        → (actor : ℕ) → UpdateInputs
        → SourceStore
        → Result (Source × SourceStore)
    create_source taken_meanwhile source_id request actor inputs s = do
      id ← validate_source_id source_id
      raise_if (is_some (find_source id s.sources)) source_conflict_error
      raise_if (is_true (attributes request).enabled) source_validation_error
      created ← upsert_source id request actor inputs s
      raise_if taken_meanwhile source_conflict_error
      ok created
