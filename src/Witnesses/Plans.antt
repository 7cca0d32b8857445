-- ===== src/Witnesses/Plans.antt =====
-- A plan, and its validation.
use md_harness.Prelude.{◌==◌, String, ◌≡◌, refl, ◌↔◌, false, none, some, [], ◌∷◌, nat_eq, string_eq}
use md_harness.Json.{Json, null, string}
use md_harness.Json.Equality.{Floats, equal}
use md_harness.Sql.{fetchone}
use md_harness.Plan.{ExecutionPlan}
use md_harness.Engine.Steps.{ExecutionStatus, ResultStatus}
use md_harness.Engine.Outcomes.{
  ToolOutput, plain, ExecutedStep, Execution, TaskContext, executed_step,
}
use md_harness.Engine.Evidence.{
  put, completed_by, criteria_status, metadata_texts, writes_in, read_back, git_outputs, join_lines,
  insert_sorted, sorted_set, failing, same_content, git_evidence, evidence_errors, evidence_checks,
}
use md_harness.Engine.Validator.{test_results, judge_evidence, judge_steps, judge_status, validate}
use md_harness.Engine.Validator.Accepts.{Validated, validate_iff}
use md_harness.Engine.Planner.Steps.{file_call, write_call, bare_step}

abbrev texts_only : Floats
texts_only = record { equals_integer = λ s n r. false; equals_float = λ r q. r == q }

abbrev nothing_shown : ToolOutput → String
nothing_shown output = ""

abbrev file_plan : ExecutionPlan
file_plan = record {
  goal = "Create file: a.txt";
  steps =
      bare_step "write" "" "implement" "filesystem" (write_call (string "a.txt") (string "hello"))
      ∷ bare_step "read" "" "validate" "filesystem" (file_call "read" (string "a.txt"))
      ∷ [];
  assumptions = [];
  risks = [];
  version = 1;
  replanned_from = none;
  reason = none;
}

abbrev ran : String → Json → ExecutedStep
ran id value = record {
  step_id = id;
  status = ExecutionStatus.success;
  tool = some "filesystem";
  result = plain value;
  acceptance_criteria = 1 ∷ [];
  test_criteria = [];
}

abbrev run : Execution
run = record {
  status = ExecutionStatus.success;
  steps = ran "write" null ∷ ran "read" (string "hello") ∷ [];
  changed_files = "a.txt" ∷ [];
  errors = [];
  next_action = none;
  wait_reason = none;
}

abbrev one_criterion : TaskContext
one_criterion = record { dependencies = []; acceptance_criteria = 1 ∷ []; test_criteria = [] }

run_passes :
    (validate texts_only nothing_shown one_criterion file_plan run).status ≡ ResultStatus.success
unfolding validate judge_status judge_steps judge_evidence failing criteria_status completed_by
    evidence_checks evidence_errors writes_in put metadata_texts read_back executed_step
    same_content equal fetchone git_evidence git_outputs join_lines sorted_set insert_sorted
    test_results
run_passes = refl

validate_iff_example :
    ((validate texts_only nothing_shown one_criterion file_plan run).status ≡ ResultStatus.success)
    ↔ Validated texts_only nothing_shown one_criterion file_plan run
validate_iff_example = validate_iff texts_only nothing_shown one_criterion file_plan run
