-- ===== src/Transaction/Decisions.antt =====
-- The methods of EngineUnitOfWork, in src/harness/storage/transaction.py, that persist a whole
-- decision of the engine. The payloads that the engine gives are parameters, and so is the list
-- `sorted(set(result.artifacts))` of `execution_result`.
use md_harness.Storage.Tasks
use md_harness.Prelude.{
  ◌==◌, ℕ, String, Bool, true, false, ◌&&◌, Option, none, some, List, [], ◌∷◌, nat_eq, string_eq,
}
use md_harness.Effects.{
  Error, type_error, transaction_error, Action, pure, gets, ◌>>=◌, ◌>>◌, modify, require,
  require_some,
}
use md_harness.Sql.{fetchone, update}
use md_harness.Schema.{
  TaskStatus, AttemptStatus, InteractionStatus, Clock, Value, text, number, InteractionRow, Db,
  task_status_eq, attempt_status_eq, interaction_status_eq,
}
use md_harness.Storage.Tasks.{transition, cancel}
use md_harness.Storage.Attempts.{
  has_attempt_id, of_task, record_attempt, complete_attempt, record_replan,
}
use md_harness.Storage.Checkpoints.{Checkpoint, get_active, save, invalidate}
use md_harness.Storage.Approvals.{ApprovalRequest, create, holds}
use md_harness.Storage.Artifacts.{register_all}
use md_harness.Storage.Events.{of_option, record_event, record_events}
use md_harness.Transaction.{Session, phase, unfenced}
use md_harness.Transaction.Tools.{has_status}

-- A method that is called if its argument is not None.
abbrev pub if_some {ℓ} : {A : Type ℓ} → Option A → (A → Action Db (Unit {0})) → Action Db (Unit {0})
if_some none f = pure tt
if_some (some a) f = f a

abbrev pub if_set : Bool → Action Db (Unit {0}) → Action Db (Unit {0})
if_set true block = block
if_set false block = pure tt

abbrev pub Payload : Type 0
Payload = List (String × Value)

unfoldable pub start_cycle : Clock → ℕ → TaskStatus → String → Action Session ℕ
unfolding phase transition record_attempt record_event
start_cycle c task_id status event_type = phase c do
  transition c task_id status
  attempt_id ← record_attempt c task_id AttemptStatus.running none none none none 300
  record_event task_id event_type []
  pure attempt_id

unfoldable pub execution_result :
    (String → Option (String × ℕ))
    → Clock
    → ℕ
    → ℕ
    → Payload
    → List String
    → Action Session (Unit {0})
unfolding phase record_event register_all complete_attempt
execution_result file_at c task_id attempt_id result artifacts = phase c do
  record_event task_id "task.execution.completed" result
  register_all file_at task_id artifacts
  complete_attempt c attempt_id AttemptStatus.completed none none

unfoldable pub decision : Clock → ℕ → TaskStatus → String → Payload → Action Session (Unit {0})
unfolding phase transition record_event
decision c task_id status event_type payload =
    phase c do transition c task_id status; record_event task_id event_type payload

unfoldable pub finish_decision :
    Clock → ℕ → ℕ → AttemptStatus → TaskStatus → String → Payload → Action Session (Unit {0})
unfolding phase complete_attempt transition record_event
finish_decision c task_id attempt_id attempt_status status event_type payload = phase c do
  complete_attempt c attempt_id attempt_status none none
  transition c task_id status
  record_event task_id event_type payload

unfoldable pub complete_done : Clock → ℕ → Option ℕ → Action Session (Unit {0})
unfolding phase complete_attempt transition record_event invalidate
complete_done c task_id attempt_id = phase c do
  if_some attempt_id λ id. complete_attempt c id AttemptStatus.completed none none
  transition c task_id TaskStatus.done
  record_event task_id "task.done" []
  invalidate c task_id none
  pure tt

-- The JSON object that `approval_request` is.
abbrev pub request_payload : ApprovalRequest → Payload
request_payload r =
    ("plan_version", number r.plan_version)
    ∷ ("plan_fingerprint", text r.plan_fingerprint)
    ∷ ("step_id", text r.step_id)
    ∷ ("tool", text r.tool)
    ∷ ("arguments_fingerprint", text r.arguments_fingerprint)
    ∷ ("permission_scope", text r.permission_scope)
    ∷ []

abbrev pub no_checkpoint : Error
no_checkpoint = type_error "'NoneType' object is not subscriptable"

-- `current = get_active(task_id); approval_store.create(task_id, current["wait_token"], request)`
unfoldable pub request_approval : ℕ → ApprovalRequest → Action Db (Unit {0})
unfolding get_active create
request_approval task_id r = do
  found ← gets (get_active task_id)
  current ← require_some found no_checkpoint
  create task_id current.wait_token r

unfoldable pub execution_wait :
    Clock
    → ℕ
    → ℕ
    → Checkpoint
    → String
    → Option ApprovalRequest
    → String
    → Action Session (Unit {0})
unfolding phase save request_approval record_event complete_attempt transition
execution_wait c task_id attempt_id checkpoint next_action approval_request fresh = phase c do
  save task_id checkpoint fresh
  if_some approval_request λ r. do
    request_approval task_id r
    record_event task_id "task.approval.requested" (request_payload r)
  record_event task_id "task.execution.next_action" (("next_action", text next_action) ∷ [])
  complete_attempt c attempt_id AttemptStatus.waiting checkpoint.reason none
  transition c task_id TaskStatus.waiting
  record_event task_id "task.waiting" (("reason", of_option checkpoint.reason) ∷ [])

pub record PhaseDecision : Type 0 where
  pub task_id : ℕ
  pub attempt_id : Option ℕ
  pub expected_status : TaskStatus
  pub events : List (String × Payload)
  pub checkpoint : Option Checkpoint
  pub attempt_status : Option AttemptStatus
  pub attempt_error : Option String
  pub task_status : Option TaskStatus
  pub artifacts : List String
  pub replan : Option (String × ℕ × ℕ)
  pub approval_request : Option ApprovalRequest
  pub invalidate_checkpoint : Bool

-- The attempt is the task's and runs; without one there is nothing to check.
unfoldable pub attempt_runs : ℕ → Option ℕ → Db → Bool
attempt_runs task_id none db = true
attempt_runs task_id (some id) db =
    holds (λ a. of_task task_id a && a.status == AttemptStatus.running)
      (fetchone (has_attempt_id id) db.attempts)

unfoldable pub save_decided : PhaseDecision → String → Action Db (Unit {0})
unfolding save request_approval
save_decided d fresh =
    if_some d.checkpoint
      λ k. do save d.task_id k fresh; if_some d.approval_request (request_approval d.task_id)

unfoldable pub end_attempt : Clock → PhaseDecision → Action Db (Unit {0})
unfolding complete_attempt
end_attempt c d =
    if_some d.attempt_status
      λ status. if_some d.attempt_id λ id. complete_attempt c id status d.attempt_error none

unfoldable pub write_replan : PhaseDecision → Action Db (Unit {0})
unfolding record_replan
write_replan d =
    if_some d.replan λ r. record_replan d.task_id r.0 r.2 (some r.1) d.attempt_id none none

-- The block of `commit_decision`.
unfoldable pub apply_decision :
    (String → Option (String × ℕ)) → Clock → PhaseDecision → String → Action Db (Unit {0})
unfolding Tasks.get attempt_runs save_decided register_all end_attempt write_replan transition
    record_events invalidate
apply_decision file_at c d fresh = do
  task ← gets (Tasks.get d.task_id)
  require (has_status d.expected_status task) (transaction_error "decision task state changed")
  active ← gets (attempt_runs d.task_id d.attempt_id)
  require active (transaction_error "decision attempt is not active")
  save_decided d fresh
  register_all file_at d.task_id d.artifacts
  end_attempt c d
  write_replan d
  if_some d.task_status (transition c d.task_id)
  record_events d.task_id d.events
  if_set d.invalidate_checkpoint (invalidate c d.task_id none >> pure tt)

unfoldable pub commit_decision :
    (String → Option (String × ℕ)) → Clock → PhaseDecision → String → Action Session (Unit {0})
unfolding phase apply_decision
commit_decision file_at c d fresh = phase c (apply_decision file_at c d fresh)

-- The UPDATE of `cancel` on the table of interactions.
unfoldable pub cancel_interactions : Clock → ℕ → Action Db (Unit {0})
cancel_interactions c task_id = modify λ db. record db {
  interactions =
      update (λ (i : InteractionRow). i.task_id == task_id && i.status == InteractionStatus.pending)
        (λ i. record i {
          status = InteractionStatus.cancelled;
          decided_at = some c.current_timestamp;
        })
        db.interactions;
}

unfoldable pub cancel_all : Clock → ℕ → String → Action Db (Unit {0})
unfolding cancel invalidate cancel_interactions record_event
cancel_all c task_id reason = do
  cancel c task_id reason
  invalidate c task_id (some reason)
  cancel_interactions c task_id
  record_event task_id "task.cancelled" (("reason", text reason) ∷ [])

unfoldable pub cancel_task : Clock → ℕ → String → Action Session (Unit {0})
unfolding unfenced cancel_all
cancel_task c task_id reason = unfenced (cancel_all c task_id reason)
