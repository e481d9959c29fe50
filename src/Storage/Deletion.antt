-- ===== src/Storage/Deletion.antt =====
-- packages/storage/local.py: `delete` and the other files.
use raj_data_handle.Base.{◌≡◌, ◌≢◌, refl, sym, ◌∙◌, String, none, Result, ok, err, arith}
use raj_data_handle.Storage.{
  FilePath, Disk, find, System, LocalFileStorage, resolve_path, delete, removed,
}
use raj_data_handle.Storage.Upload.{same_path_iff, find-unlink, resolve_path-resolve}

module _ (system : System) (storage : LocalFileStorage) where
  removed-find :
      (r : Result FilePath) (p : FilePath) (disk : Disk)
      → ((q : FilePath) → r ≡ ok q → q ≢ p)
      → find p (removed system storage r disk).1 ≡ find p disk
  unfolding removed
  removed-find (err e) p disk h = refl
  removed-find (ok q) p disk h = ground (arith, find-unlink q p disk, same_path_iff q p, h q refl)

  -- another file stays
  pub delete-find :
      (key : String) (p : FilePath) (disk : Disk)
      → system.resolve storage.root key ≢ p
      → find p (delete system storage key disk).1 ≡ find p disk
  unfolding delete
  delete-find key p disk h =
      removed-find (resolve_path system storage key) p disk
        λ q e same. h (resolve_path-resolve system storage key q e ∙ same)

  removed-none :
      (r : Result FilePath) (p : FilePath) (disk : Disk)
      → find p disk ≡ none
      → find p (removed system storage r disk).1 ≡ none
  unfolding removed
  removed-none (err e) p disk h = h
  removed-none (ok q) p disk h = ground (arith, find-unlink q p disk)

  removed-gone :
      (r : Result FilePath) (p : FilePath) (disk : Disk)
      → ((q : FilePath) → r ≡ ok q → q ≡ p)
      → (removed system storage r disk).0 ≡ ok tt
      → find p (removed system storage r disk).1 ≡ none
  unfolding removed
  removed-gone (err e) p disk h k = absurd (cc k)
  removed-gone (ok q) p disk h k = ground (arith, find-unlink q p disk, same_path_iff q p, h q refl)

  -- what was not there before is not there afterwards
  pub delete-none :
      (key : String) (p : FilePath) (disk : Disk)
      → find p disk ≡ none
      → find p (delete system storage key disk).1 ≡ none
  unfolding delete
  delete-none key p disk h = removed-none (resolve_path system storage key) p disk h

  -- the file is gone after a deletion that returns
  pub delete-gone :
      (key : String) (disk : Disk)
      → (delete system storage key disk).0 ≡ ok tt
      → find (system.resolve storage.root key) (delete system storage key disk).1 ≡ none
  unfolding delete
  delete-gone key disk h =
      removed-gone (resolve_path system storage key) (system.resolve storage.root key) disk
        (λ q e. sym (resolve_path-resolve system storage key q e)) h
