-- ===== src/Retention/Clean.antt =====
-- retention_cleanup_service.py: what is there after a cleanup that returns.
use raj_data_handle.Base.{ℕ, ◌<◌, ◌≡◌, ◌⊎◌, true, none, Member}
use raj_data_handle.Batch.{Batch, FileObject, FileReference}
use raj_data_handle.Storage.{find, System, LocalFileStorage}
use raj_data_handle.Retention.{Archive, reference_expired, is_gone}
use raj_data_handle.Retention.Cleanup.{path_of}

-- no reference keeps the file: each one of it has expired, or its batch has
abbrev pub IsUnneeded : ℕ → Archive → FileObject → Type 0
IsUnneeded now a f =
    (r : FileReference)
    → Member r a.store.references
    → r.file_object_id ≡ f.id
    → (reference_expired now r ≡ true) ⊎ (is_gone now a.store.batches r.batch_id ≡ true)

-- an archive after a cleanup
pub record IsClean (system : System) (storage : LocalFileStorage) (now : ℕ) (a a' : Archive)
    : Type 0 where
  -- what is left has not expired
  pub references_last : (r : FileReference) → Member r a'.store.references → now < r.expires_at
  pub batches_last : (b : Batch) → Member b a'.store.batches → now < b.result_expires_at
  -- a file that is not deleted has such a reference
  pub files_referenced :
      (f : FileObject)
      → Member f a'.store.files
      → f.deleted_at ≡ none
      → (r : FileReference) × Member r a'.store.references × (r.file_object_id ≡ f.id)
  -- the content of a file that nothing needs is gone
  pub unneeded_gone :
      (f : FileObject)
      → Member f a.store.files
      → f.deleted_at ≡ none
      → IsUnneeded now a f
      → find (path_of system storage f) a'.disk ≡ none
