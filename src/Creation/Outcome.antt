-- ===== src/Creation/Outcome.antt =====
-- batch_service.py: what `create_batch_from_upload` returns and leaves, in every case.
use raj_data_handle.Base.{
  ◌+◌, ◌*◌, ◌≡◌, String, Bool, true, false, none, some, List, [], ◌∷◌, ◌++◌, Result, ok, err,
  is_some, Member,
}
use raj_data_handle.Value.{dict, Fields}
use raj_data_handle.BatchState.{awaiting_confirmation, failed, cancelled, is_in}
use raj_data_handle.Batch.{Batch, Source, FileObject}
use raj_data_handle.Batch.Service.{day}
use raj_data_handle.Templates.Detection.{Detection}
use raj_data_handle.Storage.{FilePath, Disk, find, relative_key, resolve_path}
use raj_data_handle.Retention.Settings.{RetentionSetting, get_retention_settings}
use raj_data_handle.Creation.{Desk, Surroundings, Creation, checked, with_detection, identity_key}

-- an undeleted file object of the content
pub record IsStored (digest : String) (f : FileObject) (files : List FileObject) : Type 0 where
  pub among : Member f files
  pub live : f.deleted_at ≡ none
  pub same_content : f.content_sha256 ≡ digest

module _ (w : Surroundings) (shown : Fields → String) (c : Creation) where
  abbrev pub content_digest : String
  content_digest = w.system.sha256 c.file.content

  -- the identity under which the batch of a detection is known
  abbrev pub identity_of : Detection → String
  identity_of detection =
      identity_key w content_digest c.source_id c.business_type
        (dict (shown (with_detection w c detection)) (with_detection w c detection))

  -- the upload is on the disk under its digest
  abbrev pub IsOnDisk : Disk → Type 0
  IsOnDisk disk =
      (p : FilePath) × (resolve_path w.system w.storage (relative_key content_digest) ≡ ok p)
      × (is_some (find p disk) ≡ true)

  -- a batch that was there is returned
  pub record IsReused (d d' : Desk) (b : Batch) : Type 0 where
    pub source : Source
    pub detection : Detection
    pub passed : checked w c d.store ≡ ok (source, detection)
    pub among : Member b d.store.batches
    pub same_identity : b.comparison_identity_key ≡ some (identity_of detection)
    pub live : is_in b.status (failed ∷ cancelled ∷ []) ≡ false
    pub unchanged : d'.store ≡ d.store
    pub on_disk : IsOnDisk d'.disk

  -- a batch is added, with a reference to the file of its content
  pub record IsCreated (d d' : Desk) (b : Batch) : Type 0 where
    pub source : Source
    pub detection : Detection
    pub passed : checked w c d.store ≡ ok (source, detection)
    pub added : d'.store.batches ≡ d.store.batches ++ b ∷ []
    pub waiting : b.status ≡ awaiting_confirmation
    pub own_identity : b.comparison_identity_key ≡ some (identity_of detection)
    pub file : FileObject
    pub is_stored : IsStored content_digest file d'.store.files
    pub referenced :
        d'.store.references
        ≡ d.store.references
          ++ record {
            file_object_id = file.id;
            batch_id = b.id;
            expires_at =
                c.now
                + (get_retention_settings c.defaults d.settings).0.uploaded_file_retention_days
                  * day;
          }
            ∷ []
    pub on_disk : IsOnDisk d'.disk

  -- the three ends of a creation
  abbrev pub IsAnswered : Desk → Result (Batch × Bool) × Desk → Type 0
  IsAnswered d (err e, d') = d'.store ≡ d.store
  IsAnswered d (ok (b, true), d') = IsReused d d' b
  IsAnswered d (ok (b, false), d') = IsCreated d d' b

  module _ (d : Desk) (source : Source) (detection : Detection)
      (passed : checked w c d.store ≡ ok (source, detection))
      (member : (batches : List Batch) (b : Batch)
        → w.latest batches ≡ some b
        → Member b batches) where
    abbrev days : RetentionSetting
    days = (get_retention_settings c.defaults d.settings).0
