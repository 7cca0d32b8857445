-- ===== src/Engine/Validator/Accepts.antt =====
-- When the validator lets an execution pass.
use md_harness.Engine.Validator.Findings.{kept, sorted_iff, clean_iff, diffed_iff}
use md_harness.Engine.Validator.Tests.{last_test, results_iff}
use md_harness.Engine.Validator.Lists.{all_iff, any_iff, non_empty_iff, failing_iff}
use md_harness.Prelude.{
  Bool-cases, and_left, and_right, or_false, not-false, not-true, non_empty, all, any, All, ◌==◌,
  contains, ℕ, String, ◌≡◌, refl, ◌≢◌, ◌↔◌, some, ◌⊎◌, inl, inr, Bool, true, false, not, ◌||◌, List,
  [], ◌∷◌, nat_eq, string_eq,
}
use md_harness.Json.{Json}
use md_harness.Json.Equality.{Floats}
use md_harness.Plan.{PlanStep, ExecutionPlan}
use md_harness.Engine.Steps.{ExecutionStatus, ResultStatus}
use md_harness.Text.{occurs_in}
use md_harness.Engine.Outcomes.{
  Dependency, ToolOutput, ExecutedStep, Execution, TaskContext, ValidationError, step_failed,
  blocks, passed_step,
}
use md_harness.Engine.Evidence.{
  completed_by, criteria_status, metadata_texts, writes_in, failing, content_kept, git_evidence,
  permitted, evidence_errors, evidence_checks,
}
use md_harness.Engine.Validator.{
  is_executed, test_results, judge_evidence, judge_steps, judge_status, validate,
}

abbrev pub Passed : ExecutionStatus → Type 0
Passed status = (status ≡ ExecutionStatus.success) ⊎ (status ≡ ExecutionStatus.skipped)

module _ (f : Floats) (shown : ToolOutput → String) where
  -- The contract of a passed validation. `contents` compares what the first step of the plan that reads
  -- a written path gave, or null if there is none, with the last write of that path; `results` asks of each criterion what the
  -- last run of tests with it in the execution says, if there is one.
  pub record Validated (context : TaskContext) (plan : ExecutionPlan) (execution : Execution)
      : Type 0 where
    pub resolved : All (λ (d : Dependency). blocks d ≡ false) context.dependencies
    pub ended : Passed execution.status
    pub steps_passed : All (λ (s : ExecutedStep). Passed s.status) execution.steps
    pub all_executed : All (λ (s : PlanStep). is_executed execution.steps s ≡ true) plan.steps
    pub accepted :
        All
          (λ id. contains (completed_by (λ s. s.acceptance_criteria) execution.steps) id ≡ true)
          context.acceptance_criteria
    pub tested :
        All
          (λ id. contains (completed_by (λ s. s.test_criteria) execution.steps) id ≡ true)
          context.test_criteria
    pub contents :
        All
          (λ (w : String × Json). content_kept f shown plan.steps execution.steps w ≡ true)
          (writes_in [] plan.steps)
    pub in_diff :
        (git_evidence f shown plan.steps execution.steps == "") ≡ false
        → All
            (λ (w : String × Json).
              occurs_in (git_evidence f shown plan.steps execution.steps) w.0 ≡ true)
            (writes_in [] plan.steps)
    pub only_permitted :
        All (λ path. permitted f shown plan.steps path ≡ true) execution.changed_files
    pub required :
        All
          (λ part. occurs_in (git_evidence f shown plan.steps execution.steps) part ≡ true)
          (metadata_texts "required_in_diff" plan.steps)
    pub forbidden :
        All
          (λ part. occurs_in (git_evidence f shown plan.steps execution.steps) part ≡ false)
          (metadata_texts "forbidden_in_diff" plan.steps)
    pub results : (id : ℕ) → last_test f shown execution.steps id ≢ some false

  Passed-iff : (s : ExecutedStep) → (passed_step s ≡ true) ↔ Passed s.status
  Passed-iff s = by_status s.status
    where
      by_status :
          (status : ExecutionStatus)
          → ((elim status [
            | ExecutionStatus.success ↦ true
            | ExecutionStatus.skipped ↦ true
            | ExecutionStatus.failed ↦ false
            | ExecutionStatus.waiting ↦ false
          ])
              ≡ true)
            ↔ Passed status
      by_status ExecutionStatus.success = (λ _. inl refl, λ _. refl)
      by_status ExecutionStatus.skipped = (λ _. inr refl, λ _. refl)
      by_status ExecutionStatus.failed = (λ e. cc, λ h. elim h [ inl e ↦ cc | inr e ↦ cc ])
      by_status ExecutionStatus.waiting = (λ e. cc, λ h. elim h [ inl e ↦ cc | inr e ↦ cc ])

  steps_iff :
      (xs : List ExecutedStep)
      → All (λ s. passed_step s ≡ true) xs ↔ All (λ (s : ExecutedStep). Passed s.status) xs
  steps_iff [] = (λ _. tt, λ _. tt)
  steps_iff (x ∷ xs) =
      let (into, back) = steps_iff xs in
      let (here, there) = Passed-iff x in (λ h. (here h.0, into h.1), λ h. (there h.0, back h.1))

  not_iff :
      (p : String → Bool) (xs : List String)
      → All (λ x. not (p x) ≡ true) xs ↔ All (λ x. p x ≡ false) xs
  not_iff p [] = (λ _. tt, λ _. tt)
  not_iff p (x ∷ xs) =
      let (into, back) = not_iff p xs in
      (λ h. (not-true (p x) h.0, into h.1), λ h. (rw (h.0) refl, back h.1))

  status_iff :
      (ids done : List ℕ)
      → (all (λ r. r.1) (criteria_status ids done) ≡ true) ↔ All (λ id. contains done id ≡ true) ids
  unfolding criteria_status
  status_iff [] done = (λ _. tt, λ _. refl)
  status_iff (id ∷ ids) done =
      let (into, back) = status_iff ids done in
      (λ h. (and_left _ _ h, into (and_right (contains done id) _ h)), λ h. rw (h.0) (back h.1))

  module _ (context : TaskContext) (plan : ExecutionPlan) (execution : Execution) where
    abbrev accepted_by : List ℕ
    accepted_by = completed_by (λ s. s.acceptance_criteria) execution.steps

    abbrev tested_by : List ℕ
    tested_by = completed_by (λ s. s.test_criteria) execution.steps

    abbrev outcomes : List (ℕ × Bool)
    outcomes = test_results f shown [] execution.steps

    abbrev errors : List ValidationError
    errors = evidence_errors f shown plan.steps execution

    -- The test behind which an execution is rejected for its evidence.
    abbrev rejected : Bool
    rejected =
        not (all (λ r. r.1) (criteria_status context.acceptance_criteria accepted_by))
        || not (all (λ r. r.1) (criteria_status context.test_criteria tested_by))
        || non_empty errors
        || not (all (λ r. r.1) outcomes)

    evidence_iff :
        ((judge_evidence f shown context plan execution).status ≡ ResultStatus.success)
        ↔ (rejected ≡ false)
    unfolding judge_evidence evidence_checks
    evidence_iff = elim (Bool-cases rejected) [
      | inl e ↦ (λ h. cc (rw e at h), λ h. cc (e, h))
      | inr e ↦ (λ _. e, λ _. rw e refl)
    ]

    abbrev failures : List ValidationError
    failures = failing passed_step (λ s. step_failed s.step_id) execution.steps

    abbrev missing : List String
    missing = failing (is_executed execution.steps) (λ s. s.id) plan.steps

    steps_judged :
        ((judge_steps f shown context plan execution).status ≡ ResultStatus.success)
        ↔ ((failures ≡ []) × (missing ≡ []) × (rejected ≡ false))
    unfolding judge_steps
    steps_judged = elim (Bool-cases (non_empty failures)) [
      | inl e ↦ (λ h. cc (rw e at h), λ h. cc (e, (non_empty_iff failures).1 h.0))
      | inr e ↦ elim (Bool-cases (non_empty missing)) [
        | inl e' ↦ (λ h. cc (rw (e, e') at h), λ h. cc (e', (non_empty_iff missing).1 h.1))
        | inr e' ↦ (
          λ h. (
            (non_empty_iff failures).0 e,
            (non_empty_iff missing).0 e',
            evidence_iff.0 (rw (e, e') at h),
          ),
          λ h. rw (e, e') (evidence_iff.1 h.2),
        )
      ]
    ]

    abbrev Met : List ℕ → List ℕ → Type 0
    Met done ids = All (λ id. contains done id ≡ true) ids

    rejected_iff : (rejected ≡ false) ↔ (
        Met accepted_by context.acceptance_criteria
        × Met tested_by context.test_criteria
        × (errors ≡ [])
        × All (λ (r : ℕ × Bool). r.1 ≡ true) outcomes)
    rejected_iff =
        let acceptance = status_iff context.acceptance_criteria accepted_by in
        let technical = status_iff context.test_criteria tested_by in
        (
          λ h.
              let (h1, d) = or_false _ (not (all (λ r. r.1) outcomes)) h in
              let (h2, n) = or_false _ (non_empty errors) h1 in
              let (a, b) =
                or_false
                  (not (all (λ r. r.1) (criteria_status context.acceptance_criteria accepted_by)))
                  (not (all (λ r. r.1) (criteria_status context.test_criteria tested_by))) h2 in
              (
                acceptance.0 (not-false _ a),
                technical.0 (not-false _ b),
                (non_empty_iff errors).0 n,
                (all_iff (λ r. r.1) outcomes).0 (not-false _ d),
              ),
          λ h.
              rw
                (
                  acceptance.1 h.0,
                  technical.1 h.1,
                  (non_empty_iff errors).1 h.2,
                  (all_iff (λ r. r.1) outcomes).1 h.3,
                )
                refl,
        )

    validated :
        All (λ (d : Dependency). blocks d ≡ false) context.dependencies
        → Passed execution.status
        → (judge_steps f shown context plan execution).status ≡ ResultStatus.success
        → Validated context plan execution
    validated resolved ended h =
        let (ok, complete, kept) = steps_judged.0 h in
        let (accepted, tested, clean, results) = rejected_iff.0 kept in
        let findings = (clean_iff f shown plan.steps execution).0 clean in
        record {
          resolved = resolved;
          ended = ended;
          steps_passed = (steps_iff execution.steps).0 ((failing_iff passed_step _ _).0 ok);
          all_executed = (failing_iff (is_executed execution.steps) _ plan.steps).0 complete;
          accepted = accepted;
          tested = tested;
          contents = findings.0;
          in_diff = (diffed_iff f shown plan.steps execution).0 (findings.1.0);
          only_permitted =
              (sorted_iff f shown plan.steps execution _ execution.changed_files).0
                (findings.1.1.0);
          required = findings.1.1.1.0;
          forbidden = (not_iff _ _).0 (findings.1.1.1.1);
          results = (results_iff f shown execution.steps).0 results;
        }

    judged :
        Validated context plan execution
        → (judge_steps f shown context plan execution).status ≡ ResultStatus.success
    judged v =
        let clean = (clean_iff f shown plan.steps execution).1 (
          v.contents,
          (
            (diffed_iff f shown plan.steps execution).1 v.in_diff,
            (
              (sorted_iff f shown plan.steps execution _ execution.changed_files).1
                  v.only_permitted,
              (v.required, (not_iff _ _).1 v.forbidden),
            ),
          ),
        ) in
        steps_judged.1 (
          (failing_iff passed_step _ _).1 ((steps_iff execution.steps).1 v.steps_passed),
          (failing_iff (is_executed execution.steps) _ plan.steps).1 v.all_executed,
          rejected_iff.1
              (v.accepted, v.tested, clean, (results_iff f shown execution.steps).1 v.results),
        )

  status_judged :
      (context : TaskContext) (plan : ExecutionPlan) (execution : Execution)
      (status : ExecutionStatus)
      → ((judge_status f shown context plan execution status).status ≡ ResultStatus.success) ↔ (
          Passed status
          × ((judge_steps f shown context plan execution).status ≡ ResultStatus.success))
  unfolding judge_status
  status_judged context plan execution ExecutionStatus.success = (λ h. (inl refl, h), λ h. h.1)
  status_judged context plan execution ExecutionStatus.skipped = (λ h. (inr refl, h), λ h. h.1)
  status_judged context plan execution ExecutionStatus.waiting =
      (λ h. cc, λ h. elim h.0 [ inl e ↦ cc | inr e ↦ cc ])
  status_judged context plan execution ExecutionStatus.failed =
      (λ h. cc, λ h. elim h.0 [ inl e ↦ cc | inr e ↦ cc ])

  -- The validator reports success exactly for an execution that meets its contract: no blocking
  -- dependency is open, the execution and each of its steps succeeded or was skipped, every step of the
  -- plan was executed, each criterion of the task is among those of the executed steps, the first step
  -- of the plan that reads a written path gave the content of the last write of that path (null stands
  -- for what was not read), each written path stands in the text of the git steps unless that is empty, only permitted files
  -- changed if the plan names some, required texts are in that text and forbidden ones are not, and no criterion failed in the
  -- last run of tests with that criterion (a run without criteria is not asked).
  pub validate_iff :
      (context : TaskContext) (plan : ExecutionPlan) (execution : Execution)
      → ((validate f shown context plan execution).status ≡ ResultStatus.success)
        ↔ Validated context plan execution
  unfolding validate
  validate_iff context plan execution =
      let (into, back) = status_judged context plan execution execution.status in
      elim (Bool-cases (any blocks context.dependencies)) [
        | inl open' ↦ (
          λ h. cc (rw open' at h),
          λ v. cc (open', (any_iff blocks context.dependencies).1 v.resolved),
        )
        | inr closed ↦
            let resolved = (any_iff blocks context.dependencies).0 closed in
            (
              λ h.
                  let (ended, steps) = into (rw closed at h) in
                  validated context plan execution resolved ended steps,
              λ v. rw closed (back (v.ended, judged context plan execution v)),
            )
      ]
