-- ===== src/Retention/Cleanup.antt =====
-- retention_cleanup_service.py: which files a cleanup keeps and which it removes.
use mathlib.Core.Path.{subst}
use raj_data_handle.Base.{
  ℕ, ◌≡◌, ◌≢◌, refl, sym, ap, ◌∙◌, inl, inr, Bool, true, none, List, [], ◌∷◌, map, Result, ok, err,
  arith, keep, any_of, Member,
}
use raj_data_handle.Batch.{FileObject}
use raj_data_handle.Storage.{FilePath, Disk, find, System, LocalFileStorage, delete}
use raj_data_handle.Storage.Deletion.{delete-find, delete-none, delete-gone}
use raj_data_handle.Retention.{go_on, delete_files}

pub keep-Member :
    {A : Type 0} (p : A → Bool) (a : A) (xs : List A)
    → Member a xs
    → p a ≡ true
    → Member a (keep p xs)
keep-Member p a [] h e = elim h [ ]
keep-Member p a (x ∷ xs) h e = ground (arith, keep-Member p a xs)

pub Member-any_of :
    {A : Type 0} (p : A → Bool) (a : A) (xs : List A)
    → Member a xs
    → p a ≡ true
    → any_of p xs ≡ true
Member-any_of p a [] h e = elim h [ ]
Member-any_of p a (x ∷ xs) h e = ground (arith, Member-any_of p a xs)

pub map-Member :
    {A : Type 0} (f : A → A) (a : A) (xs : List A) → Member a xs → Member (f a) (map f xs)
map-Member f a [] h = elim h [ ]
map-Member f a (x ∷ xs) h = elim h [
  | inl e ↦ inl (ap f e)
  | inr there ↦ inr (map-Member f a xs there)
]

-- a member of the image comes from a member
pub Member-map :
    {A : Type 0} (f : A → A) (b : A) (xs : List A)
    → Member b (map f xs)
    → (a : A) × Member a xs × (b ≡ f a)
Member-map f b [] h = elim h [ ]
Member-map f b (x ∷ xs) h = elim h [
  | inl e ↦ (x, inl refl, e)
  | inr there ↦ let (a, m, e) = Member-map f b xs there in (a, inr m, e)
]

module _ (system : System) (storage : LocalFileStorage) where
  -- where the content of a file is
  abbrev pub path_of : FileObject → FilePath
  path_of f = system.resolve storage.root f.storage_key

  go_on-find :
      (p : FilePath) (disk disk' : Disk) (r : Result (Unit {0})) (rest : Result ℕ × Disk)
      → find p disk' ≡ find p disk
      → find p rest.1 ≡ find p disk'
      → find p (go_on r disk' rest).1 ≡ find p disk
  unfolding go_on
  go_on-find p disk disk' (err e) rest h k = h
  go_on-find p disk disk' (ok _) rest h k = k ∙ h

  -- a path that no file in the list has keeps its content, also if the loop raises
  pub delete_files-find :
      (files : List FileObject) (p : FilePath) (disk : Disk)
      → ((g : FileObject) → Member g files → path_of g ≢ p)
      → find p (delete_files system storage files disk).1 ≡ find p disk
  unfolding delete_files
  delete_files-find [] p disk h = refl
  delete_files-find (f ∷ files) p disk h =
      let disk' = (delete system storage f.storage_key disk).1 in
      go_on-find p disk disk' (delete system storage f.storage_key disk).0
        (delete_files system storage files disk')
        (delete-find system storage f.storage_key p disk (h f (inl refl)))
        (delete_files-find files p disk' λ g m. h g (inr m))

  go_on-none :
      (p : FilePath) (disk' : Disk) (r : Result (Unit {0})) (rest : Result ℕ × Disk)
      → find p disk' ≡ none
      → find p rest.1 ≡ none
      → find p (go_on r disk' rest).1 ≡ none
  unfolding go_on
  go_on-none p disk' (err e) rest h k = h
  go_on-none p disk' (ok _) rest h k = k

  delete_files-none :
      (files : List FileObject) (p : FilePath) (disk : Disk)
      → find p disk ≡ none
      → find p (delete_files system storage files disk).1 ≡ none
  unfolding delete_files
  delete_files-none [] p disk h = h
  delete_files-none (f ∷ files) p disk h =
      let disk' = (delete system storage f.storage_key disk).1 in
      let gone = delete-none system storage f.storage_key p disk h in
      go_on-none p disk' (delete system storage f.storage_key disk).0
        (delete_files system storage files disk') gone (delete_files-none files p disk' gone)

  -- a deletion that goes on was one that returned
  go_on-ok :
      (r : Result (Unit {0})) (disk' : Disk) (rest : Result ℕ × Disk) {n : ℕ}
      → (go_on r disk' rest).0 ≡ ok n
      → (r ≡ ok tt) × ((go_on r disk' rest).1 ≡ rest.1) × ((m : ℕ) × (rest.0 ≡ ok m))
  unfolding go_on
  go_on-ok (err e) disk' rest h = absurd (cc h)
  go_on-ok (ok _) disk' (err e, d) h = absurd (cc h)
  go_on-ok (ok _) disk' (ok m, d) h = (refl, refl, (m, refl))

  -- if the loop returns, no file of the list has a content any more
  pub delete_files-gone :
      (files : List FileObject) (f : FileObject) (disk : Disk) {n : ℕ}
      → (delete_files system storage files disk).0 ≡ ok n
      → Member f files
      → find (path_of f) (delete_files system storage files disk).1 ≡ none
  unfolding delete_files
  delete_files-gone [] f disk h m = elim m [ ]
  delete_files-gone (g ∷ files) f disk h m =
      let disk' = (delete system storage g.storage_key disk).1 in
      let (deleted, same, rest) =
        go_on-ok (delete system storage g.storage_key disk).0 disk'
          (delete_files system storage files disk') h in
      ap (λ d. find (path_of f) d) same ∙ elim m [
        | inl e ↦ delete_files-none files (path_of f) disk' (
            subst (λ (x : FileObject). find (path_of x) disk' ≡ none) (sym e)
              (delete-gone system storage g.storage_key disk deleted))
        | inr there ↦ delete_files-gone files f disk' rest.1 there
      ]
