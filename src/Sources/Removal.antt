-- ===== src/Sources/Removal.antt =====
-- source_service.py: `delete_source` and `clear_credentials`.
pub mod Gone
use raj_data_handle.Base.{
  ℕ, ◌+◌, ◌≡◌, ◌≢◌, refl, sym, ap, ◌∙◌, String, Bool, true, false, not, Option, none, some, List,
  [], ◌∷◌, keep, any_of, Result, ok, err, raise_if, ◌>>=◌, ◌>>◌, >>=-eq-ok, ok-injective,
  source_conflict_error, source_not_found_error, ◌==◌, if◌then◌else◌, Bool-cases, inl, inr, arith,
  eq_iff,
}
use raj_data_handle.Value.{text, end, field}
use raj_data_handle.Batch.{Batch, Source, find_source}
use raj_data_handle.Account.{AuditLog}
use raj_data_handle.Sources.{SourceStore, Binding, get_source, update_source, audited}

-- the rows without that of the source
abbrev without : String → List Source → List Source
without source_id sources = keep (λ (a : Source). not (a.source_id == source_id)) sources

abbrev source_entry : (action : String) → (actor : ℕ) → (source_id : String) → AuditLog
source_entry action actor source_id = record {
  actor_user_id = some actor;
  action = action;
  target_type = some "source";
  target_id = some source_id;
  result = "success";
  metadata_json = end;
}

-- `delete_source`; another session may have referred to the source in between, which the commit then
-- refuses
unfoldable pub delete_source :
    (referred_meanwhile : Bool)
    → (source_id : String) → (actor : ℕ) → SourceStore
    → Result SourceStore
delete_source referred_meanwhile source_id actor s = do
  source ← get_source source_id s
  raise_if source.enabled source_conflict_error
  raise_if (any_of (λ (b : Batch). b.source_id == source.source_id) s.batches) source_conflict_error
  raise_if referred_meanwhile source_conflict_error
  let entry = record (source_entry "source.delete" actor source.source_id) {
    metadata_json = field "display_name" (text source.display_name) end;
  }
  ok (
      audited entry (record s {
        sources = without source.source_id s.sources;
        bindings = keep (λ (b : Binding). not (b.source_id == source.source_id)) s.bindings;
      }))

unfoldable pub cleared : (actor now : ℕ) → Source → Source
cleared actor now source = record source {
  encrypted_credentials = none;
  credential_version = source.credential_version + 1;
  credential_updated_at = some now;
  last_test_status = none;
  enabled = false;
  config_version = source.config_version + 1;
  updated_by = some actor;
}

-- `clear_credentials`
unfoldable pub clear_credentials :
    (source_id : String) → (actor now : ℕ) → SourceStore → Result (Source × SourceStore)
clear_credentials source_id actor now s = do
  source ← get_source source_id s
  let row = cleared actor now source
  ok (
    row,
    audited (source_entry "source.credentials.clear" actor source_id)
        (record s { sources = update_source row s.sources }),
  )
