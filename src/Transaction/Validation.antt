-- ===== src/Transaction/Validation.antt =====
-- EngineUnitOfWork.validation_decision and apply_validation_decision of
-- src/harness/storage/transaction.py: one outcome of the validator, with all that it writes.
use md_harness.Storage.Tasks
use md_harness.Prelude.{◌==◌, ℕ, String, not, ◌||◌, Option, none, some, [], ◌∷◌, nat_eq, string_eq}
use md_harness.Effects.{
  transaction_error, integrity_error, Action, pure, gets, ◌>>=◌, ◌>>◌, require, require_some,
}
use md_harness.Schema.{
  TaskStatus, AttemptStatus, Clock, text, Db, task_status_eq, attempt_status_eq,
}
use md_harness.Storage.Tasks.{transition}
use md_harness.Storage.Attempts.{complete_attempt, record_replan}
use md_harness.Storage.Checkpoints.{Checkpoint, save, invalidate}
use md_harness.Storage.Events.{record_event}
use md_harness.Transaction.{Session, phase}
use md_harness.Transaction.Tools.{has_status}
use md_harness.Transaction.Decisions.{if_some, if_set, Payload, attempt_runs}

-- `write.outcome`: the three texts that are asked for, and every other one.
pub data Outcome : Type 0 where
  done wait failed again : Outcome

pub record ValidationWrite : Type 0 where
  pub task_id : ℕ
  pub attempt_id : Option ℕ
  pub validation : Payload
  pub outcome : Outcome
  pub message : String
  pub checkpoint : Option Checkpoint
  pub event_type : Option String
  pub event_payload : Payload
  pub replan : Option (ℕ × ℕ)

unfoldable pub outcome_attempt : Outcome → AttemptStatus
outcome_attempt Outcome.done = AttemptStatus.completed
outcome_attempt Outcome.wait = AttemptStatus.waiting
outcome_attempt Outcome.failed = AttemptStatus.failed
outcome_attempt Outcome.again = AttemptStatus.failed

abbrev pub outcome_error : Outcome → String → Option String
outcome_error Outcome.done message = none
outcome_error Outcome.wait message = some message
outcome_error Outcome.failed message = some message
outcome_error Outcome.again message = some message

-- `if write.event_type and write.event_type != "task.validation.failed": record(…)`
unfoldable pub extra_event : ValidationWrite → Action Db (Unit {0})
unfolding record_event
extra_event w = if_some w.event_type λ event_type.
    if_set (not (event_type == "" || event_type == "task.validation.failed"))
      (record_event w.task_id event_type w.event_payload)

-- An event without a type breaks NOT NULL.
unfoldable pub next_event : ValidationWrite → Action Db (Unit {0})
unfolding record_event
next_event w = do
  event_type ← require_some w.event_type (integrity_error "task_events")
  record_event w.task_id event_type w.event_payload

unfoldable pub invalidate_if_over : Clock → ValidationWrite → Action Db (Unit {0})
unfolding invalidate
invalidate_if_over c w = do invalidate c w.task_id none; pure tt

-- What the outcome alone writes, behind the attempt.
unfoldable pub apply_outcome : Clock → ValidationWrite → Outcome → Action Db (Unit {0})
unfolding transition record_event extra_event next_event invalidate_if_over record_replan
apply_outcome c w Outcome.done = do
  transition c w.task_id TaskStatus.done
  record_event w.task_id "task.done" []
  invalidate_if_over c w
apply_outcome c w Outcome.wait = do
  transition c w.task_id TaskStatus.waiting
  record_event w.task_id "task.waiting" (("reason", text w.message) ∷ [])
apply_outcome c w Outcome.failed = do
  record_event w.task_id "task.validation.failed" (("error", text w.message) ∷ [])
  transition c w.task_id TaskStatus.failed
  extra_event w
  record_event w.task_id "task.failed" (("error", text w.message) ∷ [])
  invalidate_if_over c w
apply_outcome c w Outcome.again = do
  record_event w.task_id "task.validation.failed" (("error", text w.message) ∷ [])
  if_some w.replan
      λ r. record_replan w.task_id "validation_failed" r.1 (some r.0) w.attempt_id none none
  next_event w

unfoldable pub apply_validation_decision : Clock → ValidationWrite → String → Action Db (Unit {0})
unfolding record_event save complete_attempt outcome_attempt apply_outcome
apply_validation_decision c w fresh = do
  record_event w.task_id "task.validation.completed" w.validation
  if_some w.checkpoint λ k. save w.task_id k fresh
  if_some w.attempt_id λ id.
      complete_attempt c id (outcome_attempt w.outcome) (outcome_error w.outcome w.message) none
  apply_outcome c w w.outcome

unfoldable pub check_validating : ValidationWrite → Action Db (Unit {0})
unfolding Tasks.get attempt_runs
check_validating w = do
  task ← gets (Tasks.get w.task_id)
  require (has_status TaskStatus.validating task)
      (transaction_error "validation task is not validating")
  active ← gets (attempt_runs w.task_id w.attempt_id)
  require active (transaction_error "validation attempt is not active")

unfoldable pub validation_decision : Clock → ValidationWrite → String → Action Session (Unit {0})
unfolding phase check_validating apply_validation_decision
validation_decision c w fresh = phase c (check_validating w >> apply_validation_decision c w fresh)
