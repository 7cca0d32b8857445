-- ===== src/Engine/Validator.antt =====
-- Validator.validate of src/harness/engine/validator.py; a verdict has no message.
pub mod Tests
pub mod Lists
pub mod Findings
pub mod Accepts
use md_harness.Prelude.{
  if◌then◌else◌, non_empty, all, any, sql_eq, ℕ, String, Bool, true, false, not, ◌&&◌, ◌||◌, Option,
  none, some, List, [], ◌∷◌, ◌++◌, map, nat_eq, string_eq,
}
use md_harness.Json.{Json, integer, object, Members, get_member, is_true}
use md_harness.Json.Equality.{Floats, equal}
use md_harness.Plan.{PlanStep, ExecutionPlan}
use md_harness.Schema.{NextAction, WaitReason, next_action_eq}
use md_harness.Engine.Authorization.{is_truthy}
use md_harness.Engine.Steps.{ExecutionStatus, ResultStatus}
use md_harness.Engine.Outcomes.{
  ToolOutput, with_data, plain, ExecutedStep, Execution, TaskContext, ValidationError, of_execution,
  step_failed, unexpected_file, missing_diff, forbidden_diff, test_not_passed, plan_steps_missing,
  criteria_not_satisfied, changed_files, Validation, Verdict, blank, blocks, is_step, passed_step,
}
use md_harness.Engine.Evidence.{put, completed_by, criteria_status, failing, evidence_checks}

abbrev pub verdict : ResultStatus → Validation → Verdict
verdict status validation = record { status = status; wait_reason = none; validation = validation }

-- `execution.next_action is NextAction.REPLAN`
abbrev pub retry_or_replan : Option NextAction → NextAction
retry_or_replan action =
    if sql_eq action NextAction.replan then NextAction.replan else NextAction.retry_execution

abbrev pub is_executed : List ExecutedStep → PlanStep → Bool
is_executed steps step = any (is_step step.id) steps

-- `step.result.data if hasattr(step.result, "data") else step.result`, if that is a dict
abbrev pub data_in : ToolOutput → Option Members
data_in (with_data ms) = some ms
data_in (plain (object ms)) = some ms
data_in (plain _) = none

abbrev pub for_all : Bool → List ℕ → List (ℕ × Bool) → List (ℕ × Bool)
for_all passed [] results = results
for_all passed (id ∷ ids) results = for_all passed ids (put id passed results)

abbrev pub is_structure_error : ValidationError → Bool
is_structure_error (unexpected_file path) = true
is_structure_error (forbidden_diff part) = true
is_structure_error (missing_diff part) = true
is_structure_error _ = false

module _ (f : Floats) (shown : ToolOutput → String) where
  unfoldable pub is_zero : Option Json → Bool
  unfolding equal
  is_zero none = false
  is_zero (some code) = equal f code (integer false 0)

  unfoldable pub test_passed : Members → Bool
  unfolding is_zero is_truthy get_member
  test_passed ms =
      is_zero (get_member "exit_code" ms)
      && is_true (get_member "passed" ms)
      && not (is_truthy (get_member "timed_out" ms))

  abbrev pub with_test : Option Members → List ℕ → List (ℕ × Bool) → List (ℕ × Bool)
  with_test none ids results = results
  with_test (some ms) ids results = for_all (test_passed ms) ids results

  unfoldable pub test_results : List (ℕ × Bool) → List ExecutedStep → List (ℕ × Bool)
  unfolding test_passed put
  test_results results [] = results
  test_results results (step ∷ steps) =
      test_results
        (if sql_eq step.tool "test_runner"
          then with_test (data_in step.result) step.test_criteria results
          else results)
        steps

  -- What is left to check when all steps were executed: criteria, evidence and tests.
  unfoldable pub judge_evidence : TaskContext → ExecutionPlan → Execution → Verdict
  unfolding criteria_status completed_by evidence_checks test_results failing
  judge_evidence context plan execution =
      let acceptance =
        criteria_status context.acceptance_criteria
          (completed_by (λ s. s.acceptance_criteria) execution.steps) in
      let technical =
        criteria_status context.test_criteria
          (completed_by (λ s. s.test_criteria) execution.steps) in
      let checks = evidence_checks f shown plan.steps execution in
      let results = test_results [] execution.steps in
      let judged : Validation = record {
        acceptance_criteria = acceptance;
        test_criteria = technical;
        missing_steps = [];
        errors = [];
        content_checks = checks.content_checks;
        diff_checks = checks.diff_checks;
        test_results = results;
        changed_files = checks.changed_files;
        evidence = checks.evidence;
        next_action = NextAction.stop;
      } in
      if not (all (λ r. r.1) acceptance)
        || not (all (λ r. r.1) technical)
        || non_empty checks.errors
        || not (all (λ r. r.1) results)
      then verdict ResultStatus.failed (record judged {
        errors =
            criteria_not_satisfied
            ∷ (checks.errors ++ failing (λ r. r.1) (λ r. test_not_passed r.0) results);
        next_action =
            if any is_structure_error checks.errors
            then NextAction.replan
            else NextAction.retry_execution;
      })
      else verdict ResultStatus.success judged

  unfoldable pub judge_steps : TaskContext → ExecutionPlan → Execution → Verdict
  unfolding judge_evidence failing
  judge_steps context plan execution =
      let failures = failing passed_step (λ s. step_failed s.step_id) execution.steps in
      let missing = failing (is_executed execution.steps) (λ s. s.id) plan.steps in
      if non_empty failures
      then verdict ResultStatus.failed
          (record (blank NextAction.retry_execution) { errors = failures })
      else if non_empty missing
      then verdict ResultStatus.failed (record (blank NextAction.replan) {
        missing_steps = missing;
        errors = plan_steps_missing ∷ [];
      })
      else judge_evidence context plan execution

  -- `execution.status` is the last argument.
  unfoldable pub judge_status : TaskContext → ExecutionPlan → Execution → ExecutionStatus → Verdict
  unfolding judge_steps
  judge_status context plan execution ExecutionStatus.waiting =
      record (verdict ResultStatus.waiting (blank NextAction.wait)) {
        wait_reason = execution.wait_reason;
      }
  judge_status context plan execution ExecutionStatus.failed =
      verdict ResultStatus.failed (record (blank (retry_or_replan execution.next_action)) {
        errors = map of_execution execution.errors;
      })
  judge_status context plan execution ExecutionStatus.success = judge_steps context plan execution
  judge_status context plan execution ExecutionStatus.skipped = judge_steps context plan execution

  unfoldable pub validate : TaskContext → ExecutionPlan → Execution → Verdict
  unfolding judge_status
  validate context plan execution =
      if any blocks context.dependencies
      then record (verdict ResultStatus.waiting (blank NextAction.wait)) {
        wait_reason = some WaitReason.external_information;
      }
      else judge_status context plan execution execution.status
