-- ===== src/Transaction/Tools.antt =====
-- The methods of EngineUnitOfWork, in src/harness/storage/transaction.py, about tool calls and
-- approvals. `fingerprint` of src/harness/security/approval.py, a SHA-256 of the JSON text, is a
-- parameter: one function of plans, one of arguments.
use md_harness.Storage.Tasks
use md_harness.Storage.Checkpoints
use md_harness.Storage.Invocations
use md_harness.Storage.Checkpoints.{get_active}
use md_harness.Storage.Invocations.{new, completed, uncertain, reserve, complete, resolve}
use md_harness.Prelude.{
  if◌then◌else◌, ◌==◌, sql_eq, ℕ, String, Bool, true, false, not, ◌&&◌, ◌||◌, Option, none, some,
  [], ◌∷◌, nat_eq, string_eq,
}
use md_harness.Effects.{
  value_error, transaction_error, Action, pure, gets, ◌>>=◌, ◌>>◌, require, require_some,
}
use md_harness.Sql.{fetchone}
use md_harness.Json.{Members}
use md_harness.Plan.{PlanStep, ExecutionPlan}
use md_harness.Schema.{
  TaskStatus, ApprovalStatus, WaitReason, InvocationStatus, Clock, TaskRow, ContextData, StepResult,
  InvocationRow, text, Db, task_status_eq, invocation_status_eq, wait_reason_eq,
}
use md_harness.Text.{is_blank}
use md_harness.Storage.Events.{record_event}
use md_harness.Storage.Approvals.{ApprovalRequest, holds, decide}
use md_harness.Transaction.{Session, phase, unfenced}
use md_harness.Transaction.Resume.{return_if}

-- What the code takes from `hashlib` and `json`.
pub record Fingerprints : Type 0 where
  pub of_plan : ExecutionPlan → String
  pub of_arguments : Members → String

-- The tool of a step that is to be called is a text.
unfoldable pub request_for_step :
    Fingerprints → ExecutionPlan → PlanStep → String → String → ApprovalRequest
request_for_step h plan step tool scope = record {
  plan_version = plan.version;
  plan_fingerprint = h.of_plan plan;
  step_id = step.id;
  tool = tool;
  arguments_fingerprint = h.of_arguments step.arguments;
  permission_scope = scope;
}

-- `binding["tool_name"] = binding.pop("tool")`
abbrev pub as_binding : ApprovalRequest → Invocations.Binding
as_binding r = record {
  plan_fingerprint = r.plan_fingerprint;
  plan_version = r.plan_version;
  step_id = r.step_id;
  tool_name = r.tool;
  arguments_fingerprint = r.arguments_fingerprint;
  permission_scope = r.permission_scope;
}

-- `task is None or task["status"] != status`, negated
abbrev pub has_status : TaskStatus → Option TaskRow → Bool
has_status status = holds (λ t. t.status == status)

abbrev pub record_started : ℕ → PlanStep → String → Invocations.Reservation → Action Db (Unit {0})
record_started task_id step tool (new invocation_id) =
    record_event task_id "task.tool.started"
      (("invocation_id", text invocation_id) ∷ ("step_id", text step.id) ∷ ("tool", text tool) ∷ [])
record_started task_id step tool (completed result) = pure tt
record_started task_id step tool (uncertain invocation_id) = pure tt

unfoldable pub begin_tool_invocation :
    Fingerprints
    → Clock
    → ℕ
    → ExecutionPlan
    → PlanStep
    → String
    → String
    → String
    → Action Session Invocations.Reservation
unfolding phase Tasks.get request_for_step reserve record_event
begin_tool_invocation h c task_id plan step tool permission_scope fresh = phase c do
  task ← gets (Tasks.get task_id)
  require (has_status TaskStatus.executing task)
      (transaction_error "tool invocation task is not executing")
  reservation ←
      reserve task_id (as_binding (request_for_step h plan step tool permission_scope)) fresh
  record_started task_id step tool reservation
  pure reservation

unfoldable pub complete_tool_invocation :
    Clock → ℕ → String → StepResult → Action Session (Unit {0})
unfolding phase complete record_event
complete_tool_invocation c task_id invocation_id result = phase c do
  ok ← complete c task_id invocation_id result
  require ok (transaction_error "tool invocation completion lost ownership")
  record_event task_id "task.tool.completed"
      (("invocation_id", text invocation_id) ∷ ("step_id", text result.step_id) ∷ [])

abbrev pub context_call : Option ContextData → Option String
context_call none = none
context_call (some payload) = payload.tool_invocation_id

abbrev pub context_plan : Option ContextData → Option ExecutionPlan
context_plan none = none
context_plan (some payload) = payload.plan

unfoldable pub reconciled_result : InvocationRow → PlanStep → InvocationStatus → Option StepResult
reconciled_result row step outcome =
    if outcome == InvocationStatus.completed
    then some (record {
      step_id = row.step_id;
      status = "success";
      tool = row.tool_name;
      artifacts = [];
      changed_files = [];
      acceptance_criteria = step.acceptance_criteria;
      test_criteria = step.test_criteria;
    })
    else none

unfoldable pub outcome_name : InvocationStatus → String
outcome_name InvocationStatus.started = "started"
outcome_name InvocationStatus.completed = "completed"
outcome_name InvocationStatus.no_effect = "no_effect"

-- The checks that bind the row to the checkpoint's plan, and the resolution.
unfoldable pub reconcile :
    Fingerprints
    → Clock
    → ℕ
    → String
    → InvocationStatus
    → String
    → InvocationRow
    → Option ExecutionPlan
    → Action Db Bool
unfolding resolve reconciled_result record_event outcome_name
reconcile h c task_id actor outcome evidence_ref row plan = do
  bound ← require_some plan (value_error "tool invocation plan binding is stale")
  require (h.of_plan bound == row.plan_fingerprint)
      (value_error "tool invocation plan binding is stale")
  step ←
      require_some (fetchone (λ (step : PlanStep). step.id == row.step_id) bound.steps)
        (value_error "tool invocation step binding is stale")
  require (sql_eq step.tool row.tool_name) (value_error "tool invocation step binding is stale")
  ok ←
      resolve c task_id row.invocation_id actor outcome evidence_ref
        (reconciled_result row step outcome)
  require ok (transaction_error "tool invocation resolution lost a race")
  record_event task_id "task.tool.reconciled" (
      ("invocation_id", text row.invocation_id)
      ∷ ("outcome", text (outcome_name outcome))
      ∷ ("actor", text actor)
      ∷ ("evidence_ref", text evidence_ref)
      ∷ [])
  pure true

abbrev pub same_resolution : InvocationStatus → String → String → InvocationRow → Bool
same_resolution outcome actor evidence_ref row =
    row.status == outcome && sql_eq row.resolved_by actor && sql_eq row.evidence_ref evidence_ref

-- The block of `resolve_tool_invocation`.
unfoldable pub try_reconcile :
    Fingerprints → Clock → ℕ → String → String → String → InvocationStatus → String → Action Db Bool
unfolding Tasks.get Checkpoints.get_active Invocations.get reconcile
try_reconcile h c task_id wait_token invocation_id actor outcome evidence_ref = do
  task ← gets (Tasks.get task_id)
  found ← gets (get_active task_id)
  require (has_status TaskStatus.waiting task)
      (value_error "task is not waiting for tool reconciliation")
  k ← require_some found (value_error "task is not waiting for tool reconciliation")
  require (sql_eq k.waiting_reason_code WaitReason.tool_outcome_unknown)
      (value_error "checkpoint is not a tool reconciliation wait")
  require (sql_eq k.wait_token wait_token) (value_error "stale tool reconciliation token")
  require (sql_eq (context_call k.context_data) invocation_id) (value_error "stale tool invocation")
  call ← gets (Invocations.get invocation_id)
  row ← require_some call (value_error "tool invocation not found for task")
  require (row.task_id == task_id) (value_error "tool invocation not found for task")
  if row.status == InvocationStatus.started
      then reconcile h c task_id actor outcome evidence_ref row (context_plan k.context_data)
      else do
        require (same_resolution outcome actor evidence_ref row)
            (value_error "tool invocation already has another resolution")
        pure false

unfoldable pub resolve_tool_invocation :
    Fingerprints
    → Clock
    → ℕ
    → String
    → String
    → String
    → InvocationStatus
    → String
    → Action Session Bool
unfolding unfenced try_reconcile
resolve_tool_invocation h c task_id wait_token invocation_id actor outcome evidence_ref = do
  require (not (is_blank wait_token || is_blank actor || is_blank evidence_ref))
      (value_error "wait_token, actor and evidence_ref are required")
  require (not (outcome == InvocationStatus.started))
      (value_error "outcome must be completed or no_effect")
  unfenced (try_reconcile h c task_id wait_token invocation_id actor outcome evidence_ref)

abbrev pub decision_event : ApprovalStatus → String
decision_event ApprovalStatus.pending = "task.approval.pending"
decision_event ApprovalStatus.approved = "task.approval.approved"
decision_event ApprovalStatus.rejected = "task.approval.rejected"
decision_event ApprovalStatus.revoked = "task.approval.revoked"

unfoldable pub decide_approval :
    Clock → ℕ → String → String → String → ApprovalStatus → Action Session Bool
unfolding unfenced decide record_event
decide_approval c task_id wait_token actor scope status = unfenced do
  changed ← decide c task_id wait_token actor scope status
  return_if (not changed) false do
    record_event task_id (decision_event status)
        (("wait_token", text wait_token) ∷ ("actor", text actor) ∷ ("scope", text scope) ∷ [])
    pure true
