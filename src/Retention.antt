-- ===== src/Retention.antt =====
-- packages/domain/services/retention_cleanup_service.py and system_setting_service.py: what expires
-- and is removed, and for how long things are kept.
pub mod Cleanup
pub mod Kept
pub mod Clean
pub mod Settings
mod Tests
use raj_data_handle.Base.{
  ℕ, zero, suc, ◌+◌, String, Bool, true, false, not, ◌&&◌, ◌||◌, Option, none, some, List, [], ◌∷◌,
  ◌++◌, map, Result, ok, err, bind_result, leb, eqb, is_some, length, keep, any_of, ◌==◌,
  if◌then◌else◌,
}
use raj_data_handle.Base.Int.{pos}
use raj_data_handle.Value.{int, end, field}
use raj_data_handle.Account.{AuditLog}
use raj_data_handle.Batch.{Batch, FileObject, FileReference, Activity, UserNotification, Store}
use raj_data_handle.Execution.Steps.{OrderResult}
use raj_data_handle.Storage.{Disk, System, LocalFileStorage, delete}

-- the rows that a cleanup reads and writes, and the disk of the uploads
pub record Archive : Type 0 where
  pub store : Store
  pub results : List OrderResult
  pub audit : List AuditLog
  pub disk : Disk

unfoldable pub reference_expired : ℕ → FileReference → Bool
reference_expired now r = leb r.expires_at now

unfoldable pub batch_expired : ℕ → Batch → Bool
batch_expired now b = leb b.result_expires_at now

-- `id in expired_batch_ids`
unfoldable pub is_gone : ℕ → List Batch → String → Bool
unfolding batch_expired
is_gone now batches id = any_of (λ (b : Batch). batch_expired now b && b.id == id) batches

unfoldable pub without_references : ℕ → Store → Store
unfolding reference_expired
without_references now s = record s {
  references = keep (λ r. not (reference_expired now r)) s.references;
}

-- ON DELETE SET NULL of the rows that stay
abbrev pub detached : (String → Bool) → Option String → Option String
detached gone none = none
detached gone (some id) = if gone id then none else some id

-- the deletion of the expired batches with what the foreign keys do: ON DELETE CASCADE for
-- references, activities, notifications and results
unfoldable pub without_batches : ℕ → Store → Store
unfolding batch_expired
without_batches now s =
    let gone = is_gone now s.batches in
    record s {
      batches =
          map (λ (b : Batch). record b { rerun_of_batch_id = detached gone b.rerun_of_batch_id })
            (keep (λ b. not (batch_expired now b)) s.batches);
      references = keep (λ (r : FileReference). not (gone r.batch_id)) s.references;
      activities = keep (λ (a : Activity). not (gone a.batch_id)) s.activities;
      notifications = keep (λ (n : UserNotification). not (gone n.batch_id)) s.notifications;
    }

-- a file that is not deleted and that no reference names
unfoldable pub is_orphan : List FileReference → FileObject → Bool
is_orphan references f =
    not (is_some f.deleted_at)
    && not (any_of (λ (r : FileReference). r.file_object_id == f.id) references)

unfoldable pub mark_orphan : ℕ → List FileReference → FileObject → FileObject
mark_orphan now references f =
    if is_orphan references f then record f { deleted_at = some now } else f

-- `counts`
pub record Counts : Type 0 where
  pub expired_file_references : ℕ
  pub deleted_file_objects : ℕ
  pub deleted_batches : ℕ

-- the entry, where anything was removed
unfoldable pub with_cleanup_entry : Counts → List AuditLog → List AuditLog
with_cleanup_entry counts audit =
    if eqb (counts.expired_file_references + counts.deleted_file_objects + counts.deleted_batches) 0
    then audit
    else audit
      ++ record {
        actor_user_id = none;
        action = "retention.cleanup";
        target_type = none;
        target_id = none;
        result = "success";
        metadata_json = field "expiredFileReferences" (int (pos counts.expired_file_references)) (
            field "deletedFileObjects" (int (pos counts.deleted_file_objects))
              (field "deletedBatches" (int (pos counts.deleted_batches)) end));
      }
        ∷ []

-- a deletion in the loop; an exception leaves it
go_on : Result (Unit {0}) → Disk → Result ℕ × Disk → Result ℕ × Disk
go_on (err e) disk rest = (err e, disk)
go_on (ok _) disk (rest, disk') = (bind_result rest λ n. ok (suc n), disk')

module _ (system : System) (storage : LocalFileStorage) where
  -- the loop over the orphaned files, which counts them
  unfoldable pub delete_files : List FileObject → Disk → Result ℕ × Disk
  unfolding go_on
  delete_files [] disk = (ok 0, disk)
  delete_files (f ∷ files) disk =
      let (deleted, disk') = delete system storage f.storage_key disk in
      go_on deleted disk' (delete_files files disk')

  finished : ℕ → Archive → Store → Result ℕ × Disk → Result Counts × Archive
  unfolding mark_orphan with_cleanup_entry
  finished now a s (err e, disk) = (err e, record a { disk = disk })
  finished now a s (ok deleted, disk) =
      let counts : Counts = record {
        expired_file_references = length (keep (reference_expired now) a.store.references);
        deleted_file_objects = deleted;
        deleted_batches = length (keep (batch_expired now) a.store.batches);
      } in
      (
        ok counts,
        record {
          store = record s { files = map (mark_orphan now s.references) s.files };
          results =
              keep (λ (row : OrderResult). not (is_gone now a.store.batches row.batch_id))
                a.results;
          audit = with_cleanup_entry counts a.audit;
          disk = disk;
        },
      )

  -- `cleanup_expired_data`: one commit at the end; what was removed from the disk before an exception
  -- stays removed
  unfoldable pub cleanup_expired_data : (now : ℕ) → Archive → Result Counts × Archive
  unfolding finished without_references without_batches is_gone is_orphan
  cleanup_expired_data now a =
      let s = without_batches now (without_references now a.store) in
      finished now a s (delete_files (keep (is_orphan s.references) s.files) a.disk)
