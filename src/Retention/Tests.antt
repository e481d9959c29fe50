-- ===== src/Retention/Tests.antt =====
-- A cleanup at time 10 of one file with a reference that lasts and one without.
use raj_data_handle.Base.{
  ◌≡◌, ◌≢◌, ◌∙◌, refl, inl, inr, sym, ap, String, none, [], ◌∷◌, ◌++◌, Member,
}
use raj_data_handle.Batch.{FileObject, FileReference}
use raj_data_handle.Storage.{
  System, LocalFileStorage, find, unlink, same_path, resolve_path, delete,
}
use raj_data_handle.Storage.Upload.{same_path_iff}
use raj_data_handle.Retention.{
  Archive, Counts, reference_expired, is_gone, delete_files, cleanup_expired_data,
}
use raj_data_handle.Retention.Cleanup.{path_of}
use raj_data_handle.Retention.Kept.{Keeps, ArePathsUnique, cleanup-keeps}

abbrev system : System
system = record { sha256 = λ content. "d1"; resolve = λ root key. root ++ key ∷ [] }

abbrev storage : LocalFileStorage
storage = record { root = "srv" ∷ []; max_bytes = 3 }

abbrev file : String → String → FileObject
file id key = record {
  id = id;
  content_sha256 = key;
  storage_key = key;
  byte_size = 1;
  content_type = none;
  deleted_at = none;
}

abbrev reference : FileReference
reference = record { file_object_id = "f1"; batch_id = "b1"; expires_at = 20 }

abbrev archive : Archive
archive = record {
  store = record {
    batches = [];
    sources = [];
    files = file "f1" "k1" ∷ file "f2" "k2" ∷ [];
    references =
        reference ∷ record { file_object_id = "f2"; batch_id = "b1"; expires_at = 10 } ∷ [];
    activities = [];
    notifications = [];
  };
  results = [];
  audit = [];
  disk = ("srv" ∷ "k1" ∷ [], 1 ∷ []) ∷ ("srv" ∷ "k2" ∷ [], 2 ∷ []) ∷ [];
}

abbrev counted : Counts
counted = record { expired_file_references = 1; deleted_file_objects = 1; deleted_batches = 0 }

disk_after :
    (cleanup_expired_data system storage 10 archive).1.disk ≡ ("srv" ∷ "k1" ∷ [], 1 ∷ []) ∷ []
unfolding cleanup_expired_data delete_files delete resolve_path unlink same_path
disk_after = refl

paths_differ : path_of system storage (file "f1" "k1") ≢ path_of system storage (file "f2" "k2")
unfolding same_path
paths_differ e = cc ((same_path_iff ("srv" ∷ "k1" ∷ []) ("srv" ∷ "k2" ∷ [])).1 e)

unique : ArePathsUnique system storage archive.store.files
unique f g (inl e) (inl k) same = e ∙ sym k
unique f g (inl e) (inr (inl k)) same =
    absurd
      (paths_differ (sym (ap (path_of system storage) e) ∙ same ∙ ap (path_of system storage) k))
unique f g (inr (inl e)) (inl k) same =
    absurd (
      paths_differ (sym (ap (path_of system storage) k) ∙ sym same ∙ ap (path_of system storage) e))
unique f g (inr (inl e)) (inr (inl k)) same = e ∙ sym k
unique f g (inl e) (inr (inr m)) same = elim m [ ]
unique f g (inr (inl e)) (inr (inr m)) same = elim m [ ]
unique f g (inr (inr m)) _ same = elim m [ ]

kept : Keeps 10 archive (file "f1" "k1") reference
unfolding reference_expired is_gone
kept = record { there = inl refl; names = refl; lasts = refl; batch_lasts = refl }

cleanup-keeps_example :
    Member (file "f1" "k1") (cleanup_expired_data system storage 10 archive).1.store.files
    × Member reference (cleanup_expired_data system storage 10 archive).1.store.references
    × (find ("srv" ∷ "k1" ∷ []) (cleanup_expired_data system storage 10 archive).1.disk
        ≡ find ("srv" ∷ "k1" ∷ []) archive.disk)
cleanup-keeps_example =
    cleanup-keeps system storage 10 archive (file "f1" "k1") reference unique (inl refl) kept
