-- ===== src/Engine/Planner.antt =====
-- Planner of src/harness/engine/planner.py.
pub mod Answers
pub mod Changes
pub mod Criteria
pub mod Steps
pub mod Declared
pub mod Returned
pub mod Runs
pub mod Ordered
pub mod Allowed
pub mod Safe
pub mod Tested
use md_harness.Engine.Planner.Answers.{
  ChangeRequest, DeclaredChange, change_request, change_mapping, PlanContext, wait_for, fail_with,
  Planned, given, refused, ◌>>=◌, ◌>>◌, unless,
}
use md_harness.Prelude.{
  if◌then◌else◌, is_some, non_empty, any, ◌==◌, contains, ℕ, ◌+◌, String, not, ◌||◌, Option, none,
  some, List, [], ◌∷◌, nat_eq, string_eq,
}
use md_harness.Json.{no_members}
use md_harness.Plan.{PlanStep, ExecutionPlan}
use md_harness.Text.{is_blank}
use md_harness.Schema.{TaskStatus, ApprovalStatus, approval_status_eq, task_status_eq}
use md_harness.Effects.{return, raise}
use md_harness.Engine.Outcomes.{blocks}
use md_harness.Engine.Planner.Changes.{from_mapping}
use md_harness.Engine.Planner.Steps.{bare_step, ids_of, concrete_file_steps}
use md_harness.Engine.Planner.Declared.{declared_steps}

-- `next((name for name in names if name in available_tools), None)`, for two names
abbrev pub first_tool : PlanContext → String → String → Option String
first_tool context a b =
    if contains context.available_tools a
    then some a
    else if contains context.available_tools b
    then some b
    else none

unfoldable pub validate_context : PlanContext → Planned (Unit {0})
unfolding is_blank
validate_context context = do
  unless (context.approval_status == ApprovalStatus.approved)
      (wait_for "Task approval or required external information is missing.")
  unless (not (is_blank context.task_title || is_blank context.task_description))
      (fail_with "title_or_description_missing")
  unless (non_empty context.acceptance_criteria) (fail_with "acceptance_criteria_missing")
  unless (not (context.task_status == TaskStatus.waiting))
      (wait_for "Task is waiting for an external prerequisite.")
  unless (not (any blocks context.dependencies))
      (wait_for "A blocking task dependency is not resolved.")
  unless (is_some (first_tool context "filesystem" "git")) (fail_with "implementation_tool_missing")
  unless (is_some (first_tool context "sqlite" "filesystem")) (fail_with "validation_tool_missing")

unfoldable pub generic_steps : PlanContext → List PlanStep
generic_steps context =
    let tool = first_tool context "filesystem" "git" in
    record (bare_step "inspect" "Inspect the workspace and relevant project context." "inspect" ""
      no_members) { tool = tool }
    ∷ record (bare_step "implement" context.task_description "implement" "" no_members) {
      tool = tool;
      acceptance_criteria = context.acceptance_criteria;
    }
    ∷ record (bare_step "validate" "Run the defined validation criteria." "validate" ""
        no_members) {
          tool = first_tool context "sqlite" "filesystem";
          test_criteria = ids_of context.test_criteria;
        }
    ∷ []

abbrev pub next_version : Option ℕ → ℕ
next_version none = 1
next_version (some version) = version + 1

-- `message or "Previous validation was not successful."`
abbrev pub replan_reason : Option (Option String) → Option String
replan_reason none = none
replan_reason (some none) = some "Previous validation was not successful."
replan_reason (some (some message)) =
    some (if message == "" then "Previous validation was not successful." else message)

unfoldable pub plan_of : PlanContext → List PlanStep → ExecutionPlan
plan_of context steps = record {
  goal = context.task_title;
  steps = steps;
  assumptions =
      "The target workspace is available to the executor."
      ∷ (if non_empty context.dependencies
          then "Task dependencies are resolved before execution." ∷ []
          else []);
  risks =
      if context.has_attempts
      then "Previous execution attempts exist and should be reviewed." ∷ []
      else [];
  version = next_version context.last_version;
  replanned_from = context.last_version;
  reason = replan_reason context.last_validation;
}

-- An exception of `from_mapping` is a failure.
abbrev pub read_change : DeclaredChange → Planned ChangeRequest
read_change (change_request change) = given change
read_change (change_mapping value) = elim (from_mapping value) [
  | return change ↦ given change
  | raise e ↦ refused (fail_with "change_definition_invalid")
]

-- `concrete_steps or […]`
abbrev pub or_generic : PlanContext → Option (List PlanStep) → List PlanStep
or_generic context none = generic_steps context
or_generic context (some []) = generic_steps context
or_generic context (some (step ∷ steps)) = step ∷ steps

abbrev pub choose_steps :
    PlanContext → Option (List PlanStep) → Option DeclaredChange → Planned (List PlanStep)
choose_steps context concrete none = given (or_generic context concrete)
choose_steps context concrete (some declared) = do
  change ← read_change declared
  declared_steps context change

unfoldable pub build_plan : PlanContext → Planned ExecutionPlan
unfolding concrete_file_steps from_mapping declared_steps generic_steps plan_of
build_plan context = do
  concrete ← concrete_file_steps context
  steps ← choose_steps context concrete context.change
  given (plan_of context steps)

unfoldable pub plan : PlanContext → Planned ExecutionPlan
unfolding validate_context build_plan
plan context = do validate_context context; build_plan context
