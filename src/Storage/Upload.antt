-- ===== src/Storage/Upload.antt =====
-- packages/storage/local.py: uploads against a map from paths to contents.
use mathlib.Core.Path.{Path, subst, fun_ext}
use mathlib.Core.List.{append-nil, append_assoc}
use native.Mathlib.Nat.{add_assoc, zero-add}
use raj_data_handle.Base.{
  ℕ, zero, suc, ◌+◌, ◌≤◌, ◌<◌, ◌≡◌, ◌≢◌, refl, sym, ap, ◌∙◌, ◌↔◌, inl, inr, String, true, false,
  Option, none, some, [], ◌∷◌, ◌++◌, Result, ok, err, upload_too_large_error, arith, ltb, eqb,
  is_some, length, length-append, take, drop, eq_iff, Bool-cases, if◌then◌else◌,
}
use raj_data_handle.Storage.{
  FilePath, same_path, Content, Disk, find, write, unlink, System, LocalFileStorage, StoredUpload,
  UploadFile, relative_key, chunk_size, resolve_path, copy_chunks, settle, placed, copied,
  store_upload,
}

pub same_path_iff : (p q : FilePath) → (same_path p q ≡ true) ↔ (p ≡ q)
unfolding same_path
same_path_iff [] [] = ground arith
same_path_iff [] (b ∷ q) = ground arith
same_path_iff (a ∷ p) [] = ground arith
same_path_iff (a ∷ p) (b ∷ q) = ground (arith, eq_iff a b, same_path_iff p q)

pub find-write :
    (p q : FilePath) (content : Content) (disk : Disk)
    → find q (write p content disk) ≡ (if same_path p q then some content else find q disk)
unfolding find write
find-write p q content [] = refl
find-write p q content ((r, old) ∷ disk) =
    ground
      (arith, same_path_iff r p, same_path_iff r q, same_path_iff p q, find-write p q content disk)

pub find-unlink :
    (p q : FilePath) (disk : Disk)
    → find q (unlink p disk) ≡ (if same_path p q then none else find q disk)
unfolding find unlink
find-unlink p q [] = ground arith
find-unlink p q ((r, old) ∷ disk) =
    ground (arith, same_path_iff r p, same_path_iff r q, same_path_iff p q, find-unlink p q disk)

length-take-drop : (n : ℕ) (xs : Content) → length (take n xs) + length (drop n xs) ≡ length xs
length-take-drop zero xs = omega arith
length-take-drop (suc n) [] = omega arith
length-take-drop (suc n) (x ∷ xs) = omega (arith, length-take-drop n xs)

take-append-drop : (n : ℕ) (xs : Content) → take n xs ++ drop n xs ≡ xs
take-append-drop zero xs = refl
take-append-drop (suc n) [] = refl
take-append-drop (suc n) (x ∷ xs) = ap (λ ys. x ∷ ys) (take-append-drop n xs)

chunk_size-eq : chunk_size ≡ suc 1048575
unfolding chunk_size
chunk_size-eq = refl

-- an empty chunk is the end
empty_take : (n m : ℕ) (xs : Content) → m ≡ suc n → eqb (length (take m xs)) 0 ≡ true → xs ≡ []
empty_take n zero xs e h = absurd (omega arith)
empty_take n (suc m) [] e h = refl
empty_take n (suc m) (x ∷ xs) e h = absurd (ground arith)

empty_chunk : (xs : Content) → eqb (length (take chunk_size xs)) 0 ≡ true → xs ≡ []
empty_chunk xs h = empty_take 1048575 chunk_size xs chunk_size-eq h

-- what the copy comes to
abbrev whole : (max_bytes total : ℕ) → (written left : Content) → Result (ℕ × Content)
whole max_bytes total written left =
    if ltb max_bytes (total + length left)
    then err upload_too_large_error
    else ok (total + length left, written ++ left)

whole-append :
    (max_bytes total : ℕ) (written chunk left : Content)
    → whole max_bytes (total + length chunk) (written ++ chunk) left
      ≡ whole max_bytes total written (chunk ++ left)
whole-append max_bytes total written chunk left =
    rw (length-append chunk left, add_assoc, append_assoc) refl

whole_big :
    (max_bytes : ℕ) (content : Content)
    → ltb max_bytes (length content) ≡ true
    → whole max_bytes 0 [] content ≡ err upload_too_large_error
whole_big max_bytes content h = rw (zero-add, h) refl

whole_fits :
    (max_bytes : ℕ) (content : Content)
    → ltb max_bytes (length content) ≡ false
    → whole max_bytes 0 [] content ≡ ok (length content, content)
whole_fits max_bytes content h = rw (zero-add, h) refl

pub resolve_path-resolve :
    (system : System) (storage : LocalFileStorage) (key : String) (p : FilePath)
    → resolve_path system storage key ≡ ok p
    → system.resolve storage.root key ≡ p
unfolding resolve_path
resolve_path-resolve system storage key p h = ground arith

module _ (system : System) (storage : LocalFileStorage) where
  copy_chunks-whole :
      (fuel : ℕ) (temporary : FilePath) (left : Content) (total : ℕ) (written : Content)
      (disk : Disk)
      → length left < fuel
      → total ≤ storage.max_bytes
      → (copy_chunks system storage fuel temporary left total written disk).0
        ≡ whole storage.max_bytes total written left
  unfolding copy_chunks
  copy_chunks-whole zero temporary left total written disk h k = absurd (omega arith)
  copy_chunks-whole (suc fuel) temporary left total written disk h k =
      let counted = length-take-drop chunk_size left in
      elim (Bool-cases (eqb (length (take chunk_size left)) 0)) [
        | inl e ↦ rw e (rw (empty_chunk left e) (rw append-nil (ground arith)))
        | inr e ↦
            elim (Bool-cases (ltb storage.max_bytes (total + length (take chunk_size left)))) [
              | inl big ↦ rw e (rw big (ground arith))
              | inr fits ↦ rw e (
                  rw fits (
                    copy_chunks-whole fuel temporary (drop chunk_size left)
                      (total + length (take chunk_size left)) (written ++ take chunk_size left)
                      (write temporary (written ++ take chunk_size left) disk) (ground arith)
                      (ground arith)
                    ∙ whole-append storage.max_bytes total written (take chunk_size left)
                        (drop chunk_size left)
                    ∙ ap (whole storage.max_bytes total written)
                        (take-append-drop chunk_size left)))
            ]
      ]

  copy_chunks-find :
      (fuel : ℕ) (temporary p : FilePath) (left : Content) (total : ℕ) (written : Content)
      (disk : Disk)
      → same_path temporary p ≡ false
      → find p (copy_chunks system storage fuel temporary left total written disk).1 ≡ find p disk
  unfolding copy_chunks
  copy_chunks-find zero temporary p left total written disk h = refl
  copy_chunks-find (suc fuel) temporary p left total written disk h =
      elim (Bool-cases (eqb (length (take chunk_size left)) 0)) [
        | inl e ↦ rw e refl
        | inr e ↦
            elim (Bool-cases (ltb storage.max_bytes (total + length (take chunk_size left)))) [
              | inl big ↦ rw e (rw big refl)
              | inr fits ↦ rw e (
                  rw fits (
                    copy_chunks-find fuel temporary p (drop chunk_size left)
                      (total + length (take chunk_size left)) (written ++ take chunk_size left)
                      (write temporary (written ++ take chunk_size left) disk) h
                    ∙ find-write temporary p (written ++ take chunk_size left) disk
                    ∙ (rw h refl)))
            ]
      ]

-- what the storage promises: a map from paths to contents
abbrev pub Files : Type 0
Files = FilePath → Option Content

abbrev pub files_of : Disk → Files
files_of disk p = find p disk

abbrev pub put_absent : FilePath → Content → Files → Files
put_absent p content files q =
    if is_some (files p) then files q else if same_path p q then some content else files q

module _ (system : System) (storage : LocalFileStorage) where
  filed : UploadFile → Files → Result FilePath → Result StoredUpload × Files
  filed upload files (err e) = (err e, files)
  filed upload files (ok path) = (
    ok (record {
      content_sha256 = system.sha256 upload.content;
      storage_key = relative_key (system.sha256 upload.content);
      byte_size = length upload.content;
      content_type = upload.content_type;
    }),
    put_absent path upload.content files,
  )

  -- An upload that is too large changes nothing; any other is there under its digest, and what was
  -- there before stays.
  unfoldable pub accept_upload : UploadFile → Files → Result StoredUpload × Files
  unfolding filed
  accept_upload upload files =
      if ltb storage.max_bytes (length upload.content)
      then (err upload_too_large_error, files)
      else filed upload files
          (resolve_path system storage (relative_key (system.sha256 upload.content)))

  unlink-find :
      (temporary p : FilePath) (disk disk' : Disk)
      → find temporary disk ≡ none
      → (same_path temporary p ≡ false → find p disk' ≡ find p disk)
      → find p (unlink temporary disk') ≡ find p disk
  unlink-find temporary p disk disk' fresh same =
      ground (arith, find-unlink temporary p disk', same_path_iff temporary p)

  settle-find :
      (temporary final p : FilePath) (content : Content) (disk disk' : Disk)
      → find temporary disk ≡ none
      → final ≢ temporary
      → ((q : FilePath) → same_path temporary q ≡ false → find q disk' ≡ find q disk)
      → find p (settle system storage temporary final content disk')
        ≡ put_absent final content (files_of disk) p
  unfolding settle
  settle-find temporary final p content disk disk' fresh apart same =
      let at_final = unlink-find temporary final disk disk' fresh (same final) in
      let at_p = unlink-find temporary p disk disk' fresh (same p) in
      ground (
        arith,
        same final,
        same_path_iff temporary final,
        same_path_iff final temporary,
        find-write final p content (unlink temporary disk'),
      )

  -- an outcome with the files that it leaves
  abbrev pub seen : Result StoredUpload × Disk → Result StoredUpload × Files
  seen (r, disk) = (r, files_of disk)

  beside :
      (r : Result StoredUpload) (disk' : Disk) (files : Files)
      → ((p : FilePath) → find p disk' ≡ files p)
      → Path (Result StoredUpload × Files) (r, files_of disk') (r, files)
  beside r disk' files h = ap (λ (g : Files). (r, g)) (fun_ext h)

  placed-filed :
      (upload : UploadFile) (temporary : FilePath) (disk disk' : Disk) (r : Result FilePath)
      → find temporary disk ≡ none
      → ((final : FilePath) → r ≡ ok final → final ≢ temporary)
      → ((q : FilePath) → same_path temporary q ≡ false → find q disk' ≡ find q disk)
      → Path
          (Result StoredUpload × Files)
          (seen
            (placed system storage upload temporary (length upload.content) upload.content disk' r))
          (filed upload (files_of disk) r)
  unfolding placed filed
  placed-filed upload temporary disk disk' (err e) fresh apart same =
      beside (err e) (unlink temporary disk') (files_of disk)
        λ p. unlink-find temporary p disk disk' fresh (same p)
  placed-filed upload temporary disk disk' (ok final) fresh apart same =
      beside _ (settle system storage temporary final upload.content disk') _
        λ p. settle-find temporary final p upload.content disk disk' fresh (apart final refl) same

  -- An upload by chunks through a temporary file is one step on the map from paths to contents: it
  -- refuses what is longer than the limit and changes nothing, and any other content is there under
  -- its digest, where a file that was there before stays, as do all others. The temporary file
  -- is gone. The condition is that its name was free and is not that of the content.
  pub store_upload-accept_upload :
      (temporary : FilePath) (upload : UploadFile) (disk : Disk)
      → find temporary disk ≡ none
      → system.resolve storage.root (relative_key (system.sha256 upload.content)) ≢ temporary
      → Path
          (Result StoredUpload × Files)
          (seen (store_upload system storage temporary upload disk))
          (accept_upload upload (files_of disk))
  unfolding store_upload copied accept_upload
  store_upload-accept_upload temporary upload disk fresh apart =
      let fuel = suc (length upload.content) in
      let start = write temporary [] disk in
      let disk' = (copy_chunks system storage fuel temporary upload.content 0 [] start).1 in
      let key = relative_key (system.sha256 upload.content) in
      let same = λ (q : FilePath) (h : same_path temporary q ≡ false).
        copy_chunks-find system storage fuel temporary q upload.content 0 [] start h
        ∙ find-write temporary q [] disk
        ∙ (rw h refl) in
      let read =
        copy_chunks-whole system storage fuel temporary upload.content 0 [] start (omega arith)
          (omega arith) in
      let put =
        λ (r : Result (ℕ × Content)). seen (copied system storage upload temporary (r, disk')) in
      elim (Bool-cases (ltb storage.max_bytes (length upload.content))) [
        | inl big ↦ rw big (
            ap put (read ∙ whole_big storage.max_bytes upload.content big)
            ∙ beside (err upload_too_large_error) (unlink temporary disk') (files_of disk)
                λ p. unlink-find temporary p disk disk' fresh (same p))
        | inr fits ↦ rw fits (
            ap put (read ∙ whole_fits storage.max_bytes upload.content fits)
            ∙ placed-filed upload temporary disk disk' (resolve_path system storage key) fresh
                (λ final e.
                  λ same_name. apart (resolve_path-resolve system storage key final e ∙ same_name))
                same)
      ]

module _ (system : System) (storage : LocalFileStorage) (upload : UploadFile) where
  -- what is placed of an accepted upload
  abbrev pub IsKept : Result StoredUpload × Files → Type 0
  IsKept (err e, files) = Unit
  IsKept (ok stored, files) =
      (stored.content_sha256 ≡ system.sha256 upload.content)
      × ((p : FilePath) × (resolve_path system storage (relative_key (system.sha256 upload.content))
            ≡ ok p)
          × (is_some (files p) ≡ true))

  put_absent-there :
      (p : FilePath) (content : Content) (files : Files)
      → is_some (put_absent p content files p) ≡ true
  put_absent-there p content files = ground (arith, same_path_iff p p)

  filed-IsKept :
      (files : Files) (r : Result FilePath)
      → r ≡ resolve_path system storage (relative_key (system.sha256 upload.content))
      → IsKept (filed system storage upload files r)
  unfolding filed
  filed-IsKept files (err e) h = tt
  filed-IsKept files (ok p) h = (refl, (p, sym h, put_absent-there p upload.content files))

  accept_upload-IsKept : (files : Files) → IsKept (accept_upload system storage upload files)
  unfolding accept_upload
  accept_upload-IsKept files = elim (Bool-cases (ltb storage.max_bytes (length upload.content))) [
    | inl big ↦ rw big tt
    | inr fits ↦ rw fits (
        filed-IsKept files
          (resolve_path system storage (relative_key (system.sha256 upload.content))) refl)
  ]

  pub store_upload-IsKept :
      (temporary : FilePath) (disk : Disk)
      → find temporary disk ≡ none
      → system.resolve storage.root (relative_key (system.sha256 upload.content)) ≢ temporary
      → IsKept (seen system storage (store_upload system storage temporary upload disk))
  store_upload-IsKept temporary disk fresh apart =
      subst IsKept
        (sym (store_upload-accept_upload system storage temporary upload disk fresh apart))
        (accept_upload-IsKept (files_of disk))
