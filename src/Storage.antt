-- ===== src/Storage.antt =====
-- packages/storage/local.py: `LocalFileStorage`, which keeps each upload under the digest of its
-- content. The disk is a list of files under their resolved paths. SHA-256, the resolution of
-- a path and the names of temporary files come from the libraries and are arguments; calls of the
-- file system succeed.
pub mod Upload
pub mod Deletion
mod Tests
use Prim.Native.String
use raj_data_handle.Base.{
  ℕ, zero, suc, ◌+◌, String, Bool, true, false, not, ◌&&◌, Option, none, some, List, [], ◌∷◌, ◌++◌,
  Result, ok, err, bind_result, ◌>>=◌, ◌>>◌, raise_if, value_error, out_of_fuel,
  upload_too_large_error, ltb, eqb, is_some, length, take, drop, ◌==◌, if◌then◌else◌,
}
use raj_data_handle.Text

-- the parts of an absolute path
abbrev pub FilePath : Type 0
FilePath = List String

unfoldable pub same_path : FilePath → FilePath → Bool
same_path [] [] = true
same_path (a ∷ p) (b ∷ q) = a == b && same_path p q
same_path _ _ = false

abbrev pub Content : Type 0
Content = List ℕ

abbrev pub Disk : Type 0
Disk = List (FilePath × Content)

-- `path.exists()` and what the file holds
unfoldable pub find : FilePath → Disk → Option Content
find p [] = none
find p ((q, content) ∷ disk) = if same_path q p then some content else find p disk

unfoldable pub write : FilePath → Content → Disk → Disk
write p content [] = (p, content) ∷ []
write p content ((q, old) ∷ disk) =
    if same_path q p then (q, content) ∷ disk else (q, old) ∷ write p content disk

-- `path.unlink(missing_ok=True)`
unfoldable pub unlink : FilePath → Disk → Disk
unlink p [] = []
unlink p ((q, content) ∷ disk) =
    if same_path q p then unlink p disk else (q, content) ∷ unlink p disk

-- what the libraries do for the storage
pub record System : Type 0 where
  -- `hashlib.sha256(content).hexdigest()`
  pub sha256 : Content → String
  -- `(root / storage_key).resolve()`
  pub resolve : FilePath → String → FilePath

-- `LocalFileStorage`
pub record LocalFileStorage : Type 0 where
  pub root : FilePath
  pub max_bytes : ℕ

-- `StoredUpload`
pub record StoredUpload : Type 0 where
  pub content_sha256 : String
  pub storage_key : String
  pub byte_size : ℕ
  pub content_type : Option String

-- an `UploadFile`, read from its start
pub record UploadFile : Type 0 where
  pub content : Content
  pub content_type : Option String

-- `root in candidate.parents`
unfoldable pub is_within : FilePath → FilePath → Bool
is_within [] [] = false
is_within [] (_ ∷ _) = true
is_within (a ∷ root) (b ∷ candidate) = a == b && is_within root candidate
is_within (_ ∷ _) [] = false

-- f"{content_sha256[:2]}/{content_sha256}"
unfoldable pub relative_key : String → String
relative_key digest = String.◌++◌ (Text.take 2 digest) (String.◌++◌ "/" digest)

unfoldable pub chunk_size : ℕ
chunk_size = 1048576

module _ (system : System) (storage : LocalFileStorage) where
  -- `_resolve`
  unfoldable pub resolve_path : String → Result FilePath
  unfolding is_within
  resolve_path key =
      let candidate = system.resolve storage.root key in
      if is_within storage.root candidate then ok candidate else err value_error

  -- the `while` over the chunks that are left: the bytes counted and those written to the
  -- temporary file. The fuel counts the rounds; each but the last takes a byte at least.
  unfoldable pub copy_chunks :
      (fuel : ℕ) (temporary : FilePath) (left : Content) (total : ℕ)
      → (written : Content) → Disk
      → Result (ℕ × Content) × Disk
  copy_chunks zero temporary left total written disk = (err out_of_fuel, disk)
  copy_chunks (suc fuel) temporary left total written disk =
      let chunk = take chunk_size left in
      let counted = total + length chunk in
      let longer = written ++ chunk in
      let rest =
        copy_chunks fuel temporary (drop chunk_size left) counted longer
          (write temporary longer disk) in
      if eqb (length chunk) 0
      then (ok (total, written), disk)
      else if ltb storage.max_bytes counted
      then (err upload_too_large_error, disk)
      else rest

  -- `os.replace`, or the removal of the copy where the content is there already
  unfoldable pub settle : (temporary final : FilePath) → Content → Disk → Disk
  settle temporary final content disk =
      if is_some (find final disk)
      then unlink temporary disk
      else write final content (unlink temporary disk)

  placed :
      UploadFile
      → (temporary : FilePath) → ℕ
      → Content
      → Disk
      → Result FilePath
      → Result StoredUpload × Disk
  placed upload temporary total content disk (err e) = (err e, unlink temporary disk)
  placed upload temporary total content disk (ok final) = (
    ok (record {
      content_sha256 = system.sha256 content;
      storage_key = relative_key (system.sha256 content);
      byte_size = total;
      content_type = upload.content_type;
    }),
    settle temporary final content disk,
  )

  copied :
      UploadFile → (temporary : FilePath) → Result (ℕ × Content) × Disk → Result StoredUpload × Disk
  unfolding placed
  copied upload temporary (err e, disk) = (err e, unlink temporary disk)
  copied upload temporary (ok (total, content), disk) =
      placed upload temporary total content disk
        (resolve_path (relative_key (system.sha256 content)))

  -- `store_upload` with the name that `mkstemp` gives
  unfoldable pub store_upload :
      (temporary : FilePath) → UploadFile → Disk → Result StoredUpload × Disk
  unfolding copied
  store_upload temporary upload disk = copied upload temporary (
      copy_chunks (suc (length upload.content)) temporary upload.content 0 []
        (write temporary [] disk))

  removed : Result FilePath → Disk → Result (Unit {0}) × Disk
  removed (err e) disk = (err e, disk)
  removed (ok path) disk = (ok tt, unlink path disk)

  -- `delete`
  unfoldable pub delete : String → Disk → Result (Unit {0}) × Disk
  unfolding removed
  delete key disk = removed (resolve_path key) disk
