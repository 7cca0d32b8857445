-- ===== src/Transaction/Orphans.antt =====
-- EngineUnitOfWork.claim_orphaned_run of src/harness/storage/transaction.py.
use md_harness.Storage.Tasks
use md_harness.Storage.Tasks.{lease_free}
use md_harness.Storage.Checkpoints.{get_active}
use md_harness.Prelude.{
  ltb, is_some, ◌==◌, contains, ℕ, ◌+◌, String, Bool, false, not, ◌&&◌, ◌||◌, Option, none, some,
  List, [], ◌∷◌, nat_eq, string_eq,
}
use md_harness.Effects.{Action, pure, gets, ◌>>=◌, ◌>>◌}
use md_harness.Schema.{TaskStatus, Clock, TaskRow, Value, text, number, Db, task_status_eq}
use md_harness.Storage.Events.{record_event}
use md_harness.Storage.Invocations.{has_for_task}
use md_harness.Transaction.{ExecutionOwner, Session, unfenced}
use md_harness.Transaction.Resume.{
  return_if, return_if_none, status_name, claim_live, fail_attempts, at_epoch, take_over, new_owner,
  set_owner,
}

abbrev pub is_working : TaskStatus → Bool
is_working = contains (TaskStatus.planning ∷ TaskStatus.executing ∷ TaskStatus.validating ∷ [])

-- `claim_token IS NULL OR claim_expires_at IS NULL OR claim_expires_at < ?`
abbrev pub unclaimed : Clock → TaskRow → Bool
unclaimed c t = not (is_some t.claim_token) || lease_free c t.claim_expires_at

-- The WHERE clause of the takeover.
unfoldable pub orphaned : Clock → ℕ → ℕ → TaskRow → Bool
orphaned c task_id epoch t = at_epoch task_id epoch t && is_working t.status && unclaimed c t

abbrev pub claimed_payload : TaskStatus → ℕ → List (String × Value)
claimed_payload status interrupted =
    ("previous_status", text (status_name status))
    ∷ ("interrupted_attempts", number interrupted)
    ∷ []

-- The block behind the guards.
unfoldable pub adopt : Clock → ℕ → String → ℕ → TaskRow → Action Db (Option (Option ExecutionOwner))
unfolding orphaned take_over fail_attempts record_event status_name
adopt c task_id token lease_seconds t = do
  rows ← take_over c task_id token lease_seconds (orphaned c task_id t.execution_epoch)
  return_if (not (rows == 1)) none do
    interrupted ← fail_attempts c task_id "process interrupted before checkpoint"
    record_event task_id "task.recovery.claimed" (claimed_payload t.status interrupted)
    pure (some (some (new_owner task_id token (t.execution_epoch + 1) lease_seconds none)))

unfoldable pub try_adopt : Clock → ℕ → String → ℕ → Action Db (Option (Option ExecutionOwner))
unfolding adopt Tasks.get get_active has_for_task
try_adopt c task_id token lease_seconds = do
  task ← gets (Tasks.get task_id)
  return_if_none task none λ t. return_if (not (is_working t.status)) none do
    checkpoint ← gets (get_active task_id)
    journal ← gets (has_for_task task_id)
    return_if (is_some checkpoint || journal || claim_live c t) none
        (adopt c task_id token lease_seconds t)

unfoldable pub claim_orphaned_run : Clock → ℕ → String → ℕ → Action Session Bool
unfolding unfenced try_adopt
claim_orphaned_run c task_id token lease_seconds =
    return_if (ltb lease_seconds 1) false
      (unfenced (try_adopt c task_id token lease_seconds) >>= set_owner)
