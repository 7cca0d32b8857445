-- ===== src/Engine/Outcomes.antt =====
-- What the validator of src/harness/engine/validator.py reads, and what it returns.
use md_harness.Prelude.{
  if◌then◌else◌, is_some, ◌==◌, ℕ, String, Bool, true, false, not, ◌&&◌, Option, none, some, List,
  [], ◌∷◌, nat_eq, string_eq,
}
use md_harness.Json.{Json, Members}
use md_harness.Schema.{NextAction, WaitReason}
use md_harness.Engine.Steps.{ExecutionStatus, ResultStatus}

pub record Dependency : Type 0 where
  pub dependency_type : String
  pub resolved : Bool

-- A step's `result`: a ToolExecutionResult with its data, or a plain value.
pub data ToolOutput : Type 0 where
  with_data : Members → ToolOutput
  plain : Json → ToolOutput

-- A StepExecution, with what the validator reads of it.
pub record ExecutedStep : Type 0 where
  pub step_id : String
  pub status : ExecutionStatus
  pub tool : Option String
  pub result : ToolOutput
  pub acceptance_criteria : List ℕ
  pub test_criteria : List ℕ

pub record Execution : Type 0 where
  pub status : ExecutionStatus
  pub steps : List ExecutedStep
  pub changed_files : List String
  pub errors : List String
  pub next_action : Option NextAction
  pub wait_reason : Option WaitReason

pub record TaskContext : Type 0 where
  pub dependencies : List Dependency
  pub acceptance_criteria : List ℕ
  pub test_criteria : List ℕ

-- An error's text, by its form.
pub data ValidationError : Type 0 where
  of_execution step_failed content_mismatch : String → ValidationError
  git_change_missing unexpected_file : String → ValidationError
  missing_diff forbidden_diff : String → ValidationError
  test_not_passed : ℕ → ValidationError
  plan_steps_missing criteria_not_satisfied : ValidationError

pub data Evidence : Type 0 where
  file_content : String → Bool → Evidence
  changed_files : List String → Bool → Evidence

pub record Validation : Type 0 where
  pub acceptance_criteria : List (ℕ × Bool)
  pub test_criteria : List (ℕ × Bool)
  pub missing_steps : List String
  pub errors : List ValidationError
  pub content_checks : List (String × Bool)
  pub diff_checks : List (String × Bool)
  pub test_results : List (ℕ × Bool)
  pub changed_files : List String
  pub evidence : List Evidence
  pub next_action : NextAction

-- `_result`, without its message.
pub record Verdict : Type 0 where
  pub status : ResultStatus
  pub wait_reason : Option WaitReason
  pub validation : Validation

abbrev pub blank : NextAction → Validation
blank action = record {
  acceptance_criteria = [];
  test_criteria = [];
  missing_steps = [];
  errors = [];
  content_checks = [];
  diff_checks = [];
  test_results = [];
  changed_files = [];
  evidence = [];
  next_action = action;
}

abbrev pub blocks : Dependency → Bool
blocks d = d.dependency_type == "blocks" && not d.resolved

abbrev pub is_step : String → ExecutedStep → Bool
is_step id step = step.step_id == id

-- `executed_step[id]`: the last one of the steps with that id.
unfoldable pub executed_step : String → List ExecutedStep → Option ExecutedStep
executed_step id [] = none
executed_step id (step ∷ steps) =
    let later = executed_step id steps in
    if is_some later then later else if is_step id step then some step else none

abbrev pub passed_step : ExecutedStep → Bool
passed_step step = elim step.status [
  | ExecutionStatus.success ↦ true
  | ExecutionStatus.skipped ↦ true
  | ExecutionStatus.failed ↦ false
  | ExecutionStatus.waiting ↦ false
]
