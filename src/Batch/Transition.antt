-- ===== src/Batch/Transition.antt =====
-- packages/domain/services/batch_service.py: `transition_batch`, through which every change of
-- a batch's status goes.
pub mod Rows
use raj_data_handle.Base.{
  ℕ, String, Bool, true, false, not, ◌&&◌, Option, none, some, List, [], ◌∷◌, ◌++◌, Result, ok, err,
  is_some, ◌>>=◌, if◌then◌else◌,
}
use raj_data_handle.Value.{Fields}
use raj_data_handle.BatchState.{
  Status, uploaded, awaiting_confirmation, queued, validating, fetching_remote, comparing,
  rechecking, cancelling, completed, failed, comparison_incomplete, cancelled,
  terminal_batch_statuses, same_status, is_in, ensure_transition,
}
use raj_data_handle.Batch.{Batch, Activity, UserNotification, Store, update_batch}

-- the columns that a transition sets
unfoldable pub moved : Status → (now : ℕ) → Batch → Batch
moved to_status now b =
    let terminal = is_in to_status terminal_batch_statuses in
    record b {
      status = to_status;
      started_at =
          if same_status to_status validating && not (is_some b.started_at)
          then some now
          else b.started_at;
      completed_at = if terminal then some now else b.completed_at;
      is_final = if terminal then same_status to_status completed else b.is_final;
    }

-- the two dictionaries, on the terminal statuses
event_type : Status → String
event_type completed = "batch_completed"
event_type failed = "batch_failed"
event_type comparison_incomplete = "batch_incomplete"
event_type _ = "batch_cancelled"

title : Status → String
title completed = "比对批次已完成"
title failed = "比对批次执行失败"
title comparison_incomplete = "比对批次数据不完整"
title _ = "比对批次已取消"

unfoldable pub notification : Status → Batch → UserNotification
unfolding event_type title
notification to_status b = record {
  user_id = b.execution_requested_by;
  event_type = event_type to_status;
  batch_id = b.id;
  run_version = b.run_version;
  title = title to_status;
  source_name = b.source_display_name;
  business_type = b.business_type;
  summary_status = to_status;
}

unfoldable pub transition_activity : Status → Option ℕ → Fields → Batch → Activity
transition_activity to_status actor metadata b = record {
  batch_id = b.id;
  actor_user_id = actor;
  action = "batch.transition";
  from_status = some b.status;
  to_status = some to_status;
  metadata_json = metadata;
}

-- everything that the commit of a transition writes
unfoldable pub record_transition : Status → Option ℕ → Fields → ℕ → Batch → Store → Store
unfolding moved notification transition_activity
record_transition to_status actor metadata now b s = record s {
  batches = update_batch b.id (moved to_status now) s.batches;
  activities = s.activities ++ transition_activity to_status actor metadata b ∷ [];
  notifications =
      if is_in to_status terminal_batch_statuses
      then s.notifications ++ notification to_status b ∷ []
      else s.notifications;
}

-- `transition_batch`: the batch as the caller then holds it, and the store after the commit
unfoldable pub transition_batch :
    Batch → Status → (actor : Option ℕ) → Fields → (now : ℕ) → Store → Result (Batch × Store)
transition_batch b to_status actor metadata now s = do
  _ ← ensure_transition b.status to_status
  ok (moved to_status now b, record_transition to_status actor metadata now b s)
