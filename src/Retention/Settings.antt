-- ===== src/Retention/Settings.antt =====
-- packages/domain/services/system_setting_service.py: the one row of the retention settings.
use raj_data_handle.Base.{ℕ, ◌+◌, Option, none, some, List, [], ◌∷◌, ◌++◌}
use raj_data_handle.Base.Int.{pos}
use raj_data_handle.Value.{Fields, int, dict, end, field}
use raj_data_handle.Account.{AuditLog}
use Prim.Native.String.{String}

-- `SystemRetentionSetting`
pub record RetentionSetting : Type 0 where
  pub uploaded_file_retention_days : ℕ
  pub result_retention_days : ℕ
  pub remote_cache_retention_days : ℕ
  pub config_version : ℕ
  pub updated_by : Option ℕ

-- the days of `Settings`, or of a `RetentionSettingsUpdateRequest`
pub record RetentionDays : Type 0 where
  pub uploaded_file_retention_days : ℕ
  pub result_retention_days : ℕ
  pub remote_cache_retention_days : ℕ

pub record SettingStore : Type 0 where
  pub row : Option RetentionSetting
  pub audit : List AuditLog

default_row : RetentionDays → RetentionSetting
default_row defaults = record {
  uploaded_file_retention_days = defaults.uploaded_file_retention_days;
  result_retention_days = defaults.result_retention_days;
  remote_cache_retention_days = defaults.remote_cache_retention_days;
  config_version = 1;
  updated_by = none;
}

found_row : RetentionDays → Option RetentionSetting → RetentionSetting
unfolding default_row
found_row defaults (some row) = row
found_row defaults none = default_row defaults

-- `get_retention_settings`: a row that is not there is created and committed
unfoldable pub get_retention_settings :
    RetentionDays → SettingStore → RetentionSetting × SettingStore
unfolding found_row
get_retention_settings defaults s =
    (found_row defaults s.row, record s { row = some (found_row defaults s.row) })

days_json : RetentionDays → Fields
days_json days = field "uploadedFileRetentionDays" (int (pos days.uploaded_file_retention_days)) (
    field "resultRetentionDays" (int (pos days.result_retention_days))
      (field "remoteCacheRetentionDays" (int (pos days.remote_cache_retention_days)) end))

abbrev days_of : RetentionSetting → RetentionDays
days_of row = record {
  uploaded_file_retention_days = row.uploaded_file_retention_days;
  result_retention_days = row.result_retention_days;
  remote_cache_retention_days = row.remote_cache_retention_days;
}

changed_row : RetentionDays → (actor : ℕ) → RetentionSetting → RetentionSetting
changed_row days actor row = record {
  uploaded_file_retention_days = days.uploaded_file_retention_days;
  result_retention_days = days.result_retention_days;
  remote_cache_retention_days = days.remote_cache_retention_days;
  config_version = row.config_version + 1;
  updated_by = some actor;
}

-- the entry about a change; the texts are those that `str` would give for the dicts
update_audit : (Fields → String) → (actor : ℕ) → (previous current : RetentionSetting) → AuditLog
unfolding days_json
update_audit shown actor previous current = record {
  actor_user_id = some actor;
  action = "system.retention.update";
  target_type = some "system_retention_settings";
  target_id = some "1";
  result = "success";
  metadata_json =
      field "previous" (dict (shown (days_json (days_of previous))) (days_json (days_of previous)))
        (field "current" (dict (shown (days_json (days_of current))) (days_json (days_of current)))
          (field "configVersion" (int (pos current.config_version)) end));
}

-- `update_retention_settings`
unfoldable pub update_retention_settings :
    (Fields → String)
    → (defaults : RetentionDays) → RetentionDays
    → (actor : ℕ) → SettingStore
    → RetentionSetting × SettingStore
unfolding get_retention_settings changed_row update_audit
update_retention_settings shown defaults days actor s =
    let (row, t) = get_retention_settings defaults s in
    let changed = changed_row days actor row in
    (
      changed,
      record t { row = some changed; audit = t.audit ++ update_audit shown actor row changed ∷ [] },
    )
