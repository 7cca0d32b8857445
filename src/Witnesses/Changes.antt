-- ===== src/Witnesses/Changes.antt =====
-- A declared change with a test, planned.
use md_harness.Prelude.{All, ◌≡◌, refl, false, none, some, [], ◌∷◌, ◌++◌}
use md_harness.Json.{Json, null, integer, string, array}
use md_harness.Schema.{TaskStatus, ApprovalStatus}
use md_harness.Plan.{ExecutionPlan}
use md_harness.Engine.Planner.{plan_of, plan}
use md_harness.Engine.Planner.Answers.{
  FileChange, TestRequest, DeclaredChange, change_request, PlanContext, given,
}
use md_harness.Engine.Planner.Steps.{test_step, inspect_files}
use md_harness.Engine.Planner.Declared.{change_steps, diff_step}
use md_harness.Engine.Planner.Allowed.{as_items}
use md_harness.Engine.Planner.Runs.{Ordered}
use md_harness.Engine.Planner.Ordered.{plan-Ordered}
use md_harness.Engine.Planner.Safe.{RunsPytest, StaysInside}
use md_harness.Engine.Planner.Tested.{plan-Safe}

abbrev pytest_command : Json
pytest_command = array (as_items ("uv" ∷ "run" ∷ "pytest" ∷ "-q" ∷ "tests/test_a.py" ∷ []))

abbrev new_file : FileChange
new_file = record {
  path = string "src/a.py";
  operation = string "create";
  content = some (string "x = 1");
  expected_content = none;
  search = none;
  replacement = none;
  acceptance_criteria = [];
}

abbrev pytest_request : TestRequest
pytest_request = record {
  command = pytest_command;
  timeout_seconds = integer false 60;
  working_directory = null;
  test_criteria = [];
}

abbrev change_context : PlanContext
change_context = record {
  approval_status = ApprovalStatus.approved;
  task_title = "Add a";
  task_description = "Add the module a";
  task_status = TaskStatus.ready;
  acceptance_criteria = 1 ∷ [];
  test_criteria = [];
  dependencies = [];
  available_tools = "filesystem" ∷ "git" ∷ "test_runner" ∷ [];
  has_attempts = false;
  last_version = none;
  last_validation = none;
  change = some (change_request (record { files = new_file ∷ []; tests = pytest_request ∷ [] }));
}

abbrev change_plan : ExecutionPlan
change_plan = plan_of change_context (
    inspect_files "Inspect workspace"
    ∷ (change_steps new_file 1 "inspect" (1 ∷ [])
        ++ (diff_step "verify-1"
            ∷ test_step "test-1" "Run declared tests" pytest_command (integer false 60) null []
                ("git-diff" ∷ [])
            ∷ [])))

change_planned : plan change_context ≡ given change_plan
unfolding plan md_harness.Sql.fetchall
change_planned = refl

plan-Ordered_example : Ordered [] change_plan.steps
plan-Ordered_example = plan-Ordered change_context change_plan change_planned

plan-Safe_example :
    All RunsPytest change_plan.steps
    × ((d : DeclaredChange) → change_context.change ≡ some d → All StaysInside change_plan.steps)
plan-Safe_example = plan-Safe change_context change_plan change_planned
