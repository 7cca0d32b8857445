-- ===== src/Transaction/External.antt =====
-- EngineUnitOfWork.resolve_external_wait of src/harness/storage/transaction.py: an answer from
-- outside, with its audit event, for a session that has a checkpoint store.
pub mod Repeats
use md_harness.Storage.Tasks
use md_harness.Prelude.{
  is_some, sql_eq, ℕ, String, Bool, true, false, not, ◌||◌, Option, List, [], ◌∷◌, nat_eq,
  string_eq,
}
use md_harness.Effects.{value_error, Action, pure, gets, ◌>>=◌, ◌>>◌, require, require_some}
use md_harness.Schema.{
  TaskStatus, WaitReason, Clock, TaskRow, CheckpointRow, Value, text, Db, task_status_eq,
  wait_reason_eq,
}
use md_harness.Text.{is_blank}
use md_harness.Storage.Checkpoints.{get_active, resolve_external_wait}
use md_harness.Storage.Events.{record_event}
use md_harness.Transaction.{Session, phase}
use md_harness.Transaction.Tools.{has_status}

abbrev pub resolution_payload : String → String → String → List (String × Value)
resolution_payload wait_token actor information_ref =
    ("wait_token", text wait_token)
    ∷ ("actor", text actor)
    ∷ ("information_ref", text information_ref)
    ∷ []

-- Behind a call of the store that resolved nothing: a repeat, or an error.
unfoldable pub explain_unresolved :
    String → String → Option TaskRow → Option CheckpointRow → Action Db Bool
explain_unresolved wait_token information_ref task checkpoint = do
  require (has_status TaskStatus.waiting task) (value_error "task has no active waiting checkpoint")
  k ← require_some checkpoint (value_error "task has no active waiting checkpoint")
  require (sql_eq k.wait_token wait_token) (value_error "stale wait token")
  require (sql_eq k.waiting_reason_code WaitReason.external_information)
      (value_error "checkpoint is not waiting for external information")
  require (is_some k.external_resolved_at) (value_error "external wait could not be resolved")
  require (sql_eq k.information_ref information_ref)
      (value_error "external wait was resolved with another reference")
  pure false

abbrev pub after_store : ℕ → String → String → String → Bool → Action Db Bool
after_store task_id wait_token actor information_ref true = do
  record_event task_id "task.external_wait.resolved"
      (resolution_payload wait_token actor information_ref)
  pure true
after_store task_id wait_token actor information_ref false = do
  task ← gets (Tasks.get task_id)
  checkpoint ← gets (get_active task_id)
  explain_unresolved wait_token information_ref task checkpoint

unfoldable pub resolve_wait : Clock → ℕ → String → String → String → Action Db Bool
unfolding resolve_external_wait record_event Tasks.get get_active explain_unresolved
resolve_wait c task_id wait_token actor information_ref = do
  resolved ← resolve_external_wait c task_id wait_token actor information_ref
  after_store task_id wait_token actor information_ref resolved

unfoldable pub resolve_external_wait_phase :
    Clock → ℕ → String → String → String → Action Session Bool
unfolding phase resolve_wait
resolve_external_wait_phase c task_id wait_token actor information_ref = do
  require (not (is_blank actor || is_blank information_ref || is_blank wait_token))
      (value_error "wait_token, actor and information_ref must be non-empty")
  phase c (resolve_wait c task_id wait_token actor information_ref)
