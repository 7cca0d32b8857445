-- ===== src/Engine/Steps.antt =====
-- What the executor reports of a step, and what it reads of a tool's answer: the result classes of
-- src/harness/engine/result.py as far as src/harness/engine/executor.py uses them.
use md_harness.Prelude.{
  if◌then◌else◌, ◌==◌, ℕ, String, Bool, false, not, ◌&&◌, ◌||◌, Option, none, some, List, [],
  nat_eq, string_eq,
}
use md_harness.Plan.{PlanStep}
use md_harness.Schema.{NextAction, WaitReason, StepResult}
use md_harness.Engine.Errors.{
  ExecutionErrorType, no_details, ToolError, ExecutionError, action_for_error, of_tool_error,
  reason_for,
}

pub data ExecutionStatus : Type 0 where
  success failed waiting skipped : ExecutionStatus

pub data ResultStatus : Type 0 where
  success failed waiting : ResultStatus

pub record StepExecution : Type 0 where
  pub step_id : String
  pub status : ExecutionStatus
  pub tool : Option String
  pub artifacts : List String
  pub changed_files : List String
  pub acceptance_criteria : List ℕ
  pub test_criteria : List ℕ

-- The keys of a tool's data that the executor asks for; `succeeded` is `exit_code == 0`.
pub record ToolData : Type 0 where
  pub timed_out : Bool
  pub succeeded : Bool
  pub artifacts : List String
  pub changed_files : List String

-- What a tool returns: a ToolExecutionResult, a dictionary, or anything else.
pub data ToolValue : Type 0 where
  structured mapping : ToolData → ToolValue
  other : ToolValue

-- A tool's return, or its ToolError; it raises any other exception.
pub data ToolAnswer : Type 0 where
  returned : ToolValue → ToolAnswer
  tool_error : ToolError → ToolAnswer

-- What `execute` returns, with the steps that it reports.
pub data EngineResult : Type 0 where
  executed : List StepExecution → EngineResult
  uncertain_result : List StepExecution → String → EngineResult
  failed_step : List StepExecution → ExecutionError → NextAction → Option WaitReason → EngineResult
  failed_test : List StepExecution → EngineResult
  workspace_missing : EngineResult

abbrev pub plain_step : PlanStep → ExecutionStatus → StepExecution
plain_step step status = record {
  step_id = step.id;
  status = status;
  tool = none;
  artifacts = [];
  changed_files = [];
  acceptance_criteria = [];
  test_criteria = [];
}

abbrev pub resumed_step : PlanStep → StepExecution
resumed_step step = record (plain_step step ExecutionStatus.skipped) {
  tool = step.tool;
  acceptance_criteria = step.acceptance_criteria;
  test_criteria = step.test_criteria;
}

-- `ExecutionStatus(value["status"])` of a journaled step is always a success.
abbrev pub journaled_step : StepResult → StepExecution
journaled_step r = record {
  step_id = r.step_id;
  status = ExecutionStatus.success;
  tool = some r.tool;
  artifacts = r.artifacts;
  changed_files = r.changed_files;
  acceptance_criteria = r.acceptance_criteria;
  test_criteria = r.test_criteria;
}

unfoldable pub normalized : String → ToolValue → ToolValue
normalized tool (mapping d) = if tool == "test_runner" then structured d else mapping d
normalized tool (structured d) = structured d
normalized tool other = other

unfoldable pub test_failed : String → ToolValue → Bool
test_failed tool (structured d) = tool == "test_runner" && (d.timed_out || not d.succeeded)
test_failed tool (mapping d) = false
test_failed tool other = false

unfoldable pub artifacts_of : ToolValue → List String
artifacts_of (structured d) = d.artifacts
artifacts_of (mapping d) = []
artifacts_of other = []

unfoldable pub changes_of : ToolValue → List String
changes_of (structured d) = d.changed_files
changes_of (mapping d) = []
changes_of other = []

abbrev pub completed_step : PlanStep → ToolValue → StepExecution
completed_step step value = record {
  step_id = step.id;
  status = ExecutionStatus.success;
  tool = step.tool;
  artifacts = artifacts_of value;
  changed_files = changes_of value;
  acceptance_criteria = step.acceptance_criteria;
  test_criteria = step.test_criteria;
}

abbrev pub failed_test_step : PlanStep → ToolValue → StepExecution
failed_test_step step value = record (plain_step step ExecutionStatus.failed) {
  tool = step.tool;
  changed_files = changes_of value;
  test_criteria = step.test_criteria;
}

-- One round of the loop: a step to append, or a result to return.
pub data Round : Type 0 where
  proceed : StepExecution → Round
  halt : (List StepExecution → EngineResult) → Round

-- The branch for a ToolError.
unfoldable pub refuse : ToolError → List StepExecution → EngineResult
unfolding of_tool_error action_for_error reason_for
refuse e steps =
    let error = of_tool_error e in
    let action = action_for_error error in failed_step steps error action (reason_for error action)

abbrev pub not_registered : ToolError
not_registered = record { error_type = ExecutionErrorType.tool_not_found; details = no_details }
