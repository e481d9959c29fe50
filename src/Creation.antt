-- ===== src/Creation.antt =====
-- packages/domain/services/batch_service.py: `create_batch_from_upload`, which brings together the
-- retention settings, the detection of the template, the storage and the rows of a batch. The
-- digest of the identity, the snapshot of a detection and the order in which the database gives rows
-- of one version are arguments.
pub mod Outcome
mod Tests
use raj_data_handle.Base.{
  ℕ, zero, suc, ◌+◌, ◌*◌, String, Bool, true, false, not, ◌&&◌, ◌||◌, Option, none, some, List, [],
  ◌∷◌, ◌++◌, map, Result, ok, err, Exception, bind_result, raise_if, ◌>>=◌, ◌>>◌,
  batch_validation_error, template_detection_error, is_some, eqb, keep, ◌==◌, if◌then◌else◌,
}
use raj_data_handle.Text.{strip, lower_codes, codes, same_codes}
use raj_data_handle.Value.{Value, dict, text, Fields, end, field, put}
use raj_data_handle.BatchState.{Status, awaiting_confirmation, failed, cancelled, is_in}
use raj_data_handle.Batch.{Batch, Source, FileObject, FileReference, Store, find_source}
use raj_data_handle.Batch.Service.{NewBatch, progress_at, day, enabled_source, creation, add_batch}
use raj_data_handle.Templates.{Upload}
use raj_data_handle.Templates.Detection.{Template, Detection, detect_payment_template}
use raj_data_handle.Storage.{
  FilePath, Disk, System, LocalFileStorage, StoredUpload, UploadFile, store_upload,
}
use raj_data_handle.Retention.Settings.{
  RetentionSetting, RetentionDays, SettingStore, get_retention_settings,
}

-- the state that a creation reads and writes
pub record Desk : Type 0 where
  pub store : Store
  pub settings : SettingStore
  pub disk : Disk

-- what the libraries and the database do
pub record Surroundings : Type 0 where
  pub system : System
  pub storage : LocalFileStorage
  -- `re.search(pattern, sheet_name) is not None`
  pub search : (pattern sheet_name : String) → Result Bool
  -- `detection_snapshot`
  pub snapshot : Detection → Value
  -- the SHA-256 of the JSON text with sorted keys
  pub digest : Fields → String
  -- the first of the rows in the descending order of `run_version`
  pub latest : List Batch → Option Batch

-- the arguments of one call, with the ids and the time that it takes from outside
pub record Creation : Type 0 where
  pub upload : Upload
  pub file : UploadFile
  pub source_id : String
  pub business_type : String
  pub header_row : Option ℕ
  pub parameters : Fields
  pub actor_user_id : ℕ
  pub templates : List Template
  pub defaults : RetentionDays
  pub temporary : FilePath
  pub now : ℕ
  pub batch_id : String
  pub series_id : String
  pub file_id : String

-- what stands after the last dot
after_dot : List ℕ → Option (List ℕ)
after_dot [] = none
after_dot (c ∷ name) = elim (after_dot name) [
  | some suffix ↦ some suffix
  | none ↦ if eqb c b'.' then some name else none
]

is_suffix : Option (List ℕ) → Bool
is_suffix none = false
is_suffix (some suffix) = same_codes suffix (codes "xlsx") || same_codes suffix (codes "csv")

unfoldable pub is_supported : String → Bool
unfolding after_dot is_suffix codes
is_supported uploaded_name = is_suffix (after_dot (lower_codes uploaded_name))

unfoldable pub uploaded_name : Creation → String
uploaded_name c = strip c.upload.file_name

-- `except TemplateDetectionError as exc: raise BatchValidationError`
as_validation_error : Result Detection → Result Detection
as_validation_error (err template_detection_error) = err batch_validation_error
as_validation_error r = r

is_other_type : String → Option Template → Bool
is_other_type business_type none = false
is_other_type business_type (some t) = not (t.business_type == business_type)

module _ (w : Surroundings) where
  -- everything before the upload is stored
  unfoldable pub checked : Creation → Store → Result (Source × Detection)
  unfolding is_supported uploaded_name as_validation_error is_other_type
  checked c s = do
    raise_if (not (c.business_type == "payin" || c.business_type == "payout"))
        batch_validation_error
    raise_if (not (is_supported (uploaded_name c))) batch_validation_error
    source ← enabled_source (find_source c.source_id s.sources)
    detection ←
        as_validation_error (detect_payment_template w.search c.header_row c.templates c.upload)
    raise_if (is_other_type c.business_type detection.template) batch_validation_error
    ok (source, detection)

  unfoldable pub with_detection : Creation → Detection → Fields
  with_detection c detection = put "templateDetection" (w.snapshot detection) c.parameters

  -- `_identity_key`
  unfoldable pub identity_key : (file_sha256 source_id business_type : String) → Value → String
  identity_key file_sha256 source_id business_type parameters = w.digest (
      field "file" (text file_sha256) (
        field "source" (text source_id)
          (field "businessType" (text business_type) (field "parameters" parameters end))))

abbrev has_identity : String → Batch → Bool
has_identity identity b = elim b.comparison_identity_key [ none ↦ false | some k ↦ k == identity ]

-- `session.scalar` on the digest of the content, which is unique
abbrev pub find_content : String → List FileObject → Option FileObject
find_content digest [] = none
find_content digest (f ∷ files) =
    if f.content_sha256 == digest then some f else find_content digest files

-- a file that was deleted is there again
unfoldable pub revived : StoredUpload → FileObject → FileObject
revived stored f =
    if is_some f.deleted_at
    then record f {
      storage_key = stored.storage_key;
      byte_size = stored.byte_size;
      content_type = stored.content_type;
      deleted_at = none;
    }
    else f

abbrev pub update_file : String → (FileObject → FileObject) → List FileObject → List FileObject
update_file digest g [] = []
update_file digest g (f ∷ files) =
    if f.content_sha256 == digest then g f ∷ files else f ∷ update_file digest g files

new_file : String → StoredUpload → FileObject
new_file id stored = record {
  id = id;
  content_sha256 = stored.content_sha256;
  storage_key = stored.storage_key;
  byte_size = stored.byte_size;
  content_type = stored.content_type;
  deleted_at = none;
}

-- the file object of the content, and the rows with it
unfoldable pub with_file :
    String → StoredUpload → Option FileObject → List FileObject → FileObject × List FileObject
unfolding revived new_file
with_file id stored none files = (new_file id stored, files ++ new_file id stored ∷ [])
with_file id stored (some f) files =
    (revived stored f, update_file stored.content_sha256 (revived stored) files)

unfoldable pub new_batch :
    Creation → Source → Fields → (identity : String) → NewBatch → StoredUpload → Batch
unfolding uploaded_name
new_batch c source parameters identity new stored = record {
  id = new.id;
  comparison_series_id = new.series_id;
  comparison_identity_key = some identity;
  run_version = 1;
  rerun_of_batch_id = none;
  source_id = source.source_id;
  source_display_name = source.display_name;
  source_config_version = source.config_version;
  source_business_timezone = source.business_timezone;
  source_currency = source.currency;
  business_type = c.business_type;
  status = awaiting_confirmation;
  is_final = false;
  uploaded_file_name = uploaded_name c;
  uploaded_file_sha256 = stored.content_sha256;
  parameters_json = parameters;
  progress_json = progress_at "awaiting_confirmation";
  execution_requested_by = c.actor_user_id;
  created_by = c.actor_user_id;
  error_category = none;
  cancellation_requested_at = none;
  cancelled_at = none;
  cancelled_by = none;
  cancellation_reason = none;
  created_at = new.now;
  started_at = none;
  completed_at = none;
  result_expires_at = new.now + new.result_retention_days * day;
}

-- the ids and the time of a new batch with the retention settings
abbrev new_of : Creation → RetentionSetting → NewBatch
new_of c days = record {
  now = c.now;
  id = c.batch_id;
  series_id = c.series_id;
  uploaded_file_retention_days = days.uploaded_file_retention_days;
  result_retention_days = days.result_retention_days;
}

-- the rows that the last commit writes
unfoldable pub created :
    Creation
    → RetentionSetting
    → Source
    → Fields
    → (identity : String) → StoredUpload
    → Store
    → Batch × Store
unfolding with_file new_batch
created c days source parameters identity stored s =
    let (f, files) =
      with_file c.file_id stored (find_content stored.content_sha256 s.files) s.files in
    let new = new_of c days in
    let b = new_batch c source parameters identity new stored in
    (
      b,
      add_batch new b f.id
          (creation b "batch.create" c.actor_user_id
            (field "fileSha256" (text stored.content_sha256) end))
          (record s { files = files }),
    )

-- `existing is not None and existing.status not in {"failed", "cancelled"}`
unfoldable pub reusable : Option Batch → Option Batch
reusable none = none
reusable (some b) = if is_in b.status (failed ∷ cancelled ∷ []) then none else some b

unfoldable pub answered : Option Batch → Batch × Store → Store → (Batch × Bool) × Store
answered (some b) new s = ((b, true), s)
answered none (b, t) s = ((b, false), t)

module _ (w : Surroundings) (shown : Fields → String) where
  -- what follows the storing
  unfoldable pub registered :
      Creation
      → RetentionSetting
      → Source × Detection
      → Result StoredUpload × Disk
      → Desk
      → Result (Batch × Bool) × Desk
  unfolding reusable answered
  registered c days (source, detection) (err e, disk) d = (err e, record d { disk = disk })
  registered c days (source, detection) (ok stored, disk) d =
      let parameters = with_detection w c detection in
      let identity =
        identity_key w stored.content_sha256 c.source_id c.business_type
          (dict (shown parameters) parameters) in
      let (returned, s) =
        answered (reusable (w.latest (keep (has_identity identity) d.store.batches)))
          (created c days source parameters identity stored d.store) d.store in
      (ok returned, record d { store = s; disk = disk })

  unfoldable pub after_checks :
      Creation
      → RetentionSetting
      → Result (Source × Detection)
      → Desk
      → Result (Batch × Bool) × Desk
  unfolding registered
  after_checks c days (err e) d = (err e, d)
  after_checks c days (ok found) d =
      registered c days found (store_upload w.system w.storage c.temporary c.file d.disk) d

  -- `create_batch_from_upload`: the batch, and whether it was there. The retention settings are
  -- committed first, and what is on the disk stays there.
  unfoldable pub create_batch_from_upload : Creation → Desk → Result (Batch × Bool) × Desk
  unfolding after_checks get_retention_settings
  create_batch_from_upload c d =
      let (days, settings) = get_retention_settings c.defaults d.settings in
      after_checks c days (checked w c d.store) (record d { settings = settings })
