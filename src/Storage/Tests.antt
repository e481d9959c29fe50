-- ===== src/Storage/Tests.antt =====
-- Uploads to a storage of three bytes.
use mathlib.Core.Path.{Path}
use raj_data_handle.Base.{
  ◌≡◌, ◌≢◌, refl, none, some, [], ◌∷◌, ◌++◌, Result, err, upload_too_large_error,
}
use raj_data_handle.Text
use raj_data_handle.Storage.{
  FilePath, same_path, Disk, find, write, unlink, System, LocalFileStorage, UploadFile,
  relative_key, chunk_size, resolve_path, copy_chunks, settle, store_upload,
}
use raj_data_handle.Storage.Upload.{
  same_path_iff, seen, files_of, accept_upload, store_upload-accept_upload,
}

abbrev system : System
system = record { sha256 = λ content. "d1"; resolve = λ root key. root ++ key ∷ [] }

abbrev storage : LocalFileStorage
storage = record { root = "srv" ∷ []; max_bytes = 3 }

abbrev temporary : FilePath
temporary = "srv" ∷ "upload-1" ∷ []

abbrev small : UploadFile
small = record { content = 1 ∷ 2 ∷ []; content_type = some "text/csv" }

abbrev large : UploadFile
large = record { content = 1 ∷ 2 ∷ 3 ∷ 4 ∷ []; content_type = none }

stored_small :
    (store_upload system storage temporary small []).1 ≡ ("srv" ∷ "d1/d1" ∷ [], 1 ∷ 2 ∷ []) ∷ []
unfolding store_upload copy_chunks chunk_size write unlink settle find same_path resolve_path
    relative_key Text.take
stored_small = refl

refused_large :
    Path
      (Result _ × Disk)
      (store_upload system storage temporary large [])
      (err upload_too_large_error, [])
unfolding store_upload copy_chunks chunk_size write unlink settle find same_path resolve_path
    relative_key Text.take
refused_large = refl

free : find temporary [] ≡ none
unfolding find
free = refl

apart : system.resolve storage.root (relative_key "d1") ≢ temporary
unfolding relative_key Text.take same_path
apart e = cc ((same_path_iff (system.resolve storage.root (relative_key "d1")) temporary).1 e)

store_upload-accept_upload_example :
    Path
      (Result _ × _)
      (seen system storage (store_upload system storage temporary small []))
      (accept_upload system storage small (files_of []))
store_upload-accept_upload_example =
    store_upload-accept_upload system storage temporary small [] free apart
