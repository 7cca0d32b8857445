-- ===== src/Schema.antt =====
-- The tables that the stores share: src/harness/storage/schema.sql with its migrations, and the
-- enumerated columns of their CHECK constraints. A time is its number of seconds: the text that
-- `strftime("%Y-%m-%d %H:%M:%S")` gives is ordered as the numbers are.
pub mod Statuses
pub use Statuses.*
use md_harness.Plan.{ExecutionPlan}
use md_harness.Json.{Json, Members}
use md_harness.Prelude.{ℕ, String, Option, List}

-- What one call reads of the outside: `self.clock()`, and SQLite's CURRENT_TIMESTAMP.
pub record Clock : Type 0 where
  pub now : ℕ
  pub current_timestamp : ℕ

pub record TaskRow : Type 0 where
  pub id : ℕ
  pub project_id : Option ℕ
  pub title : String
  pub priority : String
  pub status : TaskStatus
  pub approval_status : ApprovalStatus
  pub assigned_agent : Option String
  pub started_at : Option ℕ
  pub planning_started_at : Option ℕ
  pub validation_started_at : Option ℕ
  pub failed_at : Option ℕ
  pub completed_at : Option ℕ
  pub claim_token : Option String
  pub claimed_at : Option ℕ
  pub claim_expires_at : Option ℕ
  pub execution_epoch : ℕ

pub record AttemptRow : Type 0 where
  pub id : ℕ
  pub task_id : ℕ
  pub agent : Option String
  pub status : AttemptStatus
  pub completed_at : Option ℕ
  pub error_message : Option String
  pub run_id : Option String
  pub claim_token : Option String
  pub claim_expires_at : Option ℕ

pub record DependencyRow : Type 0 where
  pub task_id : ℕ
  pub depends_on_task_id : ℕ
  pub dependency_type : String

pub record ApprovalRow : Type 0 where
  pub task_id : ℕ
  pub status : ApprovalStatus
  pub approved_by : String
  pub reason : Option String

-- The JSON object in `context_data`: the keys that a reader in the storage layer asks for.
pub record ContextData : Type 0 where
  pub tool_invocation_id : Option String
  pub plan : Option ExecutionPlan

pub record CheckpointRow : Type 0 where
  pub task_id : ℕ
  pub phase : String
  pub next_action : NextAction
  pub plan_version : Option ℕ
  pub attempt_id : Option ℕ
  pub reason : Option String
  pub context_data : Option ContextData
  pub next_step_id : Option String
  pub completed_step_ids : List String
  pub plan_fingerprint : Option String
  pub execution_result : Option String
  pub validation_result : Option String
  pub resumed_at : Option ℕ
  pub resume_count : ℕ
  pub invalidated_at : Option ℕ
  pub waiting_reason_code : Option WaitReason
  pub resume_claim_token : Option String
  pub resume_claim_expires_at : Option ℕ
  pub wait_token : Option String
  pub external_resolved_at : Option ℕ
  pub resolved_by : Option String
  pub information_ref : Option String
  pub revision : ℕ

pub record StepApprovalRow : Type 0 where
  pub wait_token : String
  pub task_id : ℕ
  pub plan_version : ℕ
  pub plan_fingerprint : String
  pub step_id : String
  pub tool : String
  pub arguments_fingerprint : String
  pub permission_scope : String
  pub status : ApprovalStatus
  pub decided_by : Option String
  pub decided_at : Option ℕ

-- The JSON object that describes a completed step.
pub record StepResult : Type 0 where
  pub step_id : String
  pub status : String
  pub tool : String
  pub artifacts : List String
  pub changed_files : List String
  pub acceptance_criteria : List ℕ
  pub test_criteria : List ℕ

pub record InvocationRow : Type 0 where
  pub invocation_id : String
  pub task_id : ℕ
  pub plan_fingerprint : String
  pub plan_version : ℕ
  pub step_id : String
  pub tool_name : String
  pub arguments_fingerprint : String
  pub permission_scope : String
  pub status : InvocationStatus
  pub run_count : ℕ
  pub step_result : Option StepResult
  pub completed_at : Option ℕ
  pub resolved_at : Option ℕ
  pub resolved_by : Option String
  pub evidence_ref : Option String

-- A value of an event's payload, before `json.dumps` writes it.
pub data Value : Type 0 where
  text : String → Value
  number : ℕ → Value
  null : Value

pub record EventRow : Type 0 where
  pub task_id : ℕ
  pub event_type : String
  pub payload : List (String × Value)

pub record ReplanRow : Type 0 where
  pub task_id : ℕ
  pub attempt_id : Option ℕ
  pub parent_plan_version : Option ℕ
  pub plan_version : ℕ
  pub reason_code : String
  pub reason_fingerprint : String
  pub plan_fingerprint : Option String

-- What `json.loads` reads stands for the JSON texts of a request; an answer is kept as its text.
pub record InteractionRow : Type 0 where
  pub interaction_id : String
  pub task_id : ℕ
  pub wait_token : String
  pub kind : InteractionKind
  pub prompt : String
  pub response_schema : Json
  pub request_data : Members
  pub response_data : Option String
  pub resume_action : NextAction
  pub plan_version : Option ℕ
  pub plan_fingerprint : Option String
  pub status : InteractionStatus
  pub decided_by : Option String
  pub decided_at : Option ℕ

pub record ArtifactRow : Type 0 where
  pub id : ℕ
  pub task_id : ℕ
  pub path : String
  pub artifact_type : Option String
  pub checksum : Option String
  pub size_bytes : Option ℕ

pub record ProjectRow : Type 0 where
  pub id : ℕ
  pub project_key : Option String

-- Of vault_decision_outbox, the columns without a default.
pub record OutboxRow : Type 0 where
  pub interaction_id : String
  pub project_key : String

-- The connection: what its statements read and write.
pub record Db : Type 0 where
  pub tasks : List TaskRow
  pub attempts : List AttemptRow
  pub dependencies : List DependencyRow
  pub approvals : List ApprovalRow
  pub checkpoints : List CheckpointRow
  pub step_approvals : List StepApprovalRow
  pub invocations : List InvocationRow
  pub bindings : List (ℕ × String)
  pub replans : List ReplanRow
  pub events : List EventRow
  pub interactions : List InteractionRow
  pub artifacts : List ArtifactRow
  pub projects : List ProjectRow
  pub outbox : List OutboxRow
