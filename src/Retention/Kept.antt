-- ===== src/Retention/Kept.antt =====
-- retention_cleanup_service.py: a cleanup removes the files that nothing needs any more, and those
-- alone.
use mathlib.Core.Path.{subst}
use raj_data_handle.Base.{
  ℕ, ◌≡◌, refl, sym, ap, ◌∙◌, inl, inr, Bool, true, false, not, List, [], ◌∷◌, map, Result, ok, err,
  arith, keep, any_of, Member, Member-keep, Bool-cases, ◌==◌, eq_iff,
}
use raj_data_handle.Batch.{FileObject, FileReference, Store}
use raj_data_handle.Storage.{Disk, find, System, LocalFileStorage}
use raj_data_handle.Retention.{
  Archive, reference_expired, is_gone, without_references, without_batches, is_orphan, mark_orphan,
  delete_files, finished, cleanup_expired_data,
}
use raj_data_handle.Retention.Cleanup.{
  keep-Member, Member-any_of, map-Member, path_of, delete_files-find,
}

pub any_of-none :
    {A : Type 0} (p : A → Bool) (xs : List A)
    → ((a : A) → Member a xs → p a ≡ false)
    → any_of p xs ≡ false
any_of-none p [] h = refl
any_of-none p (x ∷ xs) h = rw (h x (inl refl)) (any_of-none p xs λ a m. h a (inr m))

pub any_of-some :
    {A : Type 0} (p : A → Bool) (xs : List A)
    → any_of p xs ≡ true
    → (a : A) × Member a xs × (p a ≡ true)
any_of-some p [] h = cc
any_of-some p (x ∷ xs) h = elim (Bool-cases (p x)) [
  | inl e ↦ (x, inl refl, e)
  | inr e ↦ let (a, m, k) = any_of-some p xs (rw e at h) in (a, inr m, k)
]

-- the reference keeps its file and the batch that it belongs to
pub record Keeps (now : ℕ) (a : Archive) (f : FileObject) (r : FileReference) : Type 0 where
  pub there : Member r a.store.references
  pub names : r.file_object_id ≡ f.id
  pub lasts : reference_expired now r ≡ false
  pub batch_lasts : is_gone now a.store.batches r.batch_id ≡ false

-- the rows after the two deletions
abbrev pub remaining : ℕ → Archive → Store
remaining now a = without_batches now (without_references now a.store)

pub remaining-files : (now : ℕ) (a : Archive) → (remaining now a).files ≡ a.store.files
unfolding without_batches without_references
remaining-files now a = refl

Keeps-Member :
    (now : ℕ) (a : Archive) (f : FileObject) (r : FileReference)
    → Keeps now a f r
    → Member r (remaining now a).references
unfolding without_batches without_references
Keeps-Member now a f r h =
    keep-Member (λ (r : FileReference). not (is_gone now a.store.batches r.batch_id)) r _
      (keep-Member (λ r. not (reference_expired now r)) r a.store.references h.there
        (rw h.lasts refl))
      (rw h.batch_lasts refl)

Keeps-orphan :
    (now : ℕ) (a : Archive) (f : FileObject) (r : FileReference)
    → Keeps now a f r
    → is_orphan (remaining now a).references f ≡ false
unfolding is_orphan
Keeps-orphan now a f r h =
    let named =
      Member-any_of (λ (r : FileReference). r.file_object_id == f.id) r (remaining now a).references
        (Keeps-Member now a f r h) ((eq_iff r.file_object_id f.id).1 h.names) in
    ground arith

-- two files never share a path
abbrev pub ArePathsUnique : System → LocalFileStorage → List FileObject → Type 0
ArePathsUnique system storage files =
    (f g : FileObject)
    → Member f files
    → Member g files
    → path_of system storage f ≡ path_of system storage g
    → f ≡ g

-- a reference that remains was there before and has not expired
pub remaining-Member :
    (now : ℕ) (a : Archive) (r : FileReference)
    → Member r (remaining now a).references
    → Member r a.store.references
      × (reference_expired now r ≡ false)
      × (is_gone now a.store.batches r.batch_id ≡ false)
unfolding without_batches without_references
remaining-Member now a r m =
    let (n, batch) =
      Member-keep (λ (r : FileReference). not (is_gone now a.store.batches r.batch_id)) r
        (keep (λ r. not (reference_expired now r)) a.store.references) m in
    let (o, own) = Member-keep (λ r. not (reference_expired now r)) r a.store.references n in
    (o, ground arith, ground arith)

module _ (system : System) (storage : LocalFileStorage) where
  -- the deletions of a cleanup
  abbrev pub deletions : ℕ → Archive → Result ℕ × Disk
  deletions now a =
      delete_files system storage
        (keep (is_orphan (remaining now a).references) (remaining now a).files) a.disk

  finished-keeps :
      (now : ℕ) (a : Archive) (f : FileObject) (r : FileReference) (done : Result ℕ × Disk)
      → Keeps now a f r
      → Member f a.store.files
      → Member f (finished system storage now a (remaining now a) done).1.store.files
        × Member r (finished system storage now a (remaining now a) done).1.store.references
        × ((finished system storage now a (remaining now a) done).1.disk ≡ done.1)
  unfolding finished mark_orphan
  finished-keeps now a f r (err e, disk) h m = (m, h.there, refl)
  finished-keeps now a f r (ok n, disk) h m =
      let stays : mark_orphan now (remaining now a).references f ≡ f =
        rw (Keeps-orphan now a f r h) refl in
      (
        subst
            (λ x.
              Member x (map (mark_orphan now (remaining now a).references) (remaining now a).files))
            stays
            (map-Member (mark_orphan now (remaining now a).references) f (remaining now a).files
              (subst (λ (l : List FileObject). Member f l) (sym (remaining-files now a)) m)),
        Keeps-Member now a f r h,
        refl,
      )

  -- Whatever a cleanup meets, also where it raises: a file with a reference that has not expired, of
  -- a batch that has not expired, is left as it is, with its reference and its content on the disk,
  -- if no two files share a path.
  pub cleanup-keeps :
      (now : ℕ) (a : Archive) (f : FileObject) (r : FileReference)
      → ArePathsUnique system storage a.store.files
      → Member f a.store.files
      → Keeps now a f r
      → Member f (cleanup_expired_data system storage now a).1.store.files
        × Member r (cleanup_expired_data system storage now a).1.store.references
        × (find (path_of system storage f) (cleanup_expired_data system storage now a).1.disk
            ≡ find (path_of system storage f) a.disk)
  unfolding cleanup_expired_data
  cleanup-keeps now a f r unique m h =
      let (file, reference, disk) = finished-keeps now a f r (deletions now a) h m in
      let orphans = keep (is_orphan (remaining now a).references) (remaining now a).files in
      (
        file,
        reference,
        ap (find (path_of system storage f)) disk
            ∙ delete_files-find system storage orphans (path_of system storage f) a.disk
                λ g there same.
                  let (n, lost) =
                    Member-keep (is_orphan (remaining now a).references) g (remaining now a).files
                      there in
                  let twin =
                    unique g f
                      (subst (λ (l : List FileObject). Member g l) (remaining-files now a) n) m
                      same in
                  let orphan =
                    subst (λ x. is_orphan (remaining now a).references x ≡ true) twin lost in
                  cc (Keeps-orphan now a f r h),
      )
