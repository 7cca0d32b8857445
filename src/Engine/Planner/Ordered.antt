-- ===== src/Engine/Planner/Ordered.antt =====
-- Each step of a plan depends on steps that stand before it.
use md_harness.Engine.Planner.Runs.{Ordered, Ordered-append, or_true, declared-Ordered}
use md_harness.Engine.Planner.{
  validate_context, generic_steps, plan_of, read_change, or_generic, choose_steps, build_plan, plan,
}
use md_harness.Engine.Planner.Criteria.{validate_test}
use md_harness.Engine.Planner.Returned.{bound_given, given_injective}
use md_harness.Engine.Planner.Answers.{TestCriterion, DeclaredChange, PlanContext, given}
use md_harness.Prelude.{
  tests, Bool-cases, some_injective, ◌==◌, contains, ℕ, String, ◌≡◌, refl, sym, ◌∙◌, inl, inr, Bool,
  true, false, Option, none, some, List, [], ◌∷◌, ◌++◌, nat_eq, string_eq,
}
use md_harness.Plan.{PlanStep, ExecutionPlan}
use md_harness.Engine.Planner.Steps.{
  path_in_title, test_step, named_step, criterion_steps, if_tool, file_task_steps, git_steps,
  ids_of, file_task, concrete_file_steps,
}
use md_harness.Engine.Planner.Declared.{declared_steps}

criterion-Ordered :
    (tools : List String) (criteria : List TestCriterion) (seen : List String) {r : List PlanStep}
    → contains seen "implement" ≡ true
    → contains seen "validate" ≡ true
    → criterion_steps tools criteria ≡ given r
    → Ordered seen r
unfolding criterion_steps test_step
criterion-Ordered tools [] seen {r} h k e = rw (sym (given_injective [] r e)) tt
criterion-Ordered tools (criterion ∷ rest) seen {r} h k e =
    elim (Bool-cases (criterion.test_type == "automated")) [
      | inr other ↦ criterion-Ordered tools rest seen h k (rw other at e)
      | inl automated ↦
          let (u, _, e1) =
            bound_given
              (validate_test tools criterion.command criterion.timeout_seconds
                criterion.working_directory)
              _ (rw automated at e) in
          let (later, e2, e3) = bound_given (criterion_steps tools rest) _ e1 in
          let test = named_step "test-" criterion.id in
          rw (sym (given_injective _ r e3)) (
            (h, (k, tt)),
            criterion-Ordered tools rest (test ∷ seen) (or_true (test == "implement") _ h)
                (or_true (test == "validate") _ k) e2,
          )
    ]

file_task-Ordered :
    (path content : String) (acceptance tests : List ℕ)
    → Ordered [] (file_task_steps path content acceptance tests)
unfolding file_task_steps
file_task-Ordered path content acceptance tests = (tt, ((refl, tt), ((refl, tt), tt)))

-- The ids that the steps of a file task leave.
task_ids : List String
task_ids = "validate" ∷ "implement" ∷ "inspect" ∷ []

git-Ordered :
    (git : Bool) (tests : List PlanStep)
    → Ordered task_ids tests
    → Ordered ("git-diff" ∷ "git-status" ∷ task_ids) tests
    → Ordered task_ids (if_tool git git_steps ++ tests)
unfolding task_ids
git-Ordered true tests h k = ((refl, tt), ((refl, tt), k))
git-Ordered false tests h k = h

concrete-Ordered :
    (context : PlanContext) (path : Option String) {r : Option (List PlanStep)}
    → file_task context path ≡ given r
    → (steps : List PlanStep) → r ≡ some steps
    → Ordered [] steps
unfolding task_ids file_task_steps
concrete-Ordered context none {r} e steps same = cc (given_injective none r e, same)
concrete-Ordered context (some path) {r} e steps same =
    let (tests, e1, e2) =
      bound_given (criterion_steps context.available_tools context.test_criteria) _ e in
    let git = if_tool (contains context.available_tools "git") git_steps in
    let acceptance = context.acceptance_criteria in
    let ids = ids_of context.test_criteria in
    let front = file_task_steps path context.task_description acceptance ids in
    let here = some_injective (front ++ (git ++ tests)) steps (given_injective _ r e2 ∙ same) in
    rw (sym here) (
      Ordered-append [] front (git ++ tests)
        (file_task-Ordered path context.task_description acceptance ids)
        (git-Ordered (contains context.available_tools "git") tests
          (criterion-Ordered context.available_tools context.test_criteria task_ids refl refl e1)
          (criterion-Ordered context.available_tools context.test_criteria
            ("git-diff" ∷ "git-status" ∷ task_ids) refl refl e1)))

generic-Ordered : (context : PlanContext) → Ordered [] (generic_steps context)
unfolding generic_steps
generic-Ordered context = (tt, (tt, (tt, tt)))

or_generic-Ordered :
    (context : PlanContext) (concrete : Option (List PlanStep))
    → ((steps : List PlanStep) → concrete ≡ some steps → Ordered [] steps)
    → Ordered [] (or_generic context concrete)
or_generic-Ordered context none h = generic-Ordered context
or_generic-Ordered context (some []) h = generic-Ordered context
or_generic-Ordered context (some (step ∷ steps)) h = h (step ∷ steps) refl

concrete_steps-Ordered :
    (context : PlanContext) {r : Option (List PlanStep)}
    → concrete_file_steps context ≡ given r
    → (steps : List PlanStep) → r ≡ some steps
    → Ordered [] steps
unfolding concrete_file_steps
concrete_steps-Ordered context {r} e steps same =
    elim (Bool-cases (contains context.available_tools "filesystem")) [
      | inl able ↦
          concrete-Ordered context (path_in_title context.task_title) (rw able at e) steps same
      | inr unable ↦ cc (given_injective none r (rw unable at e), same)
    ]

chosen-Ordered :
    (context : PlanContext) (concrete : Option (List PlanStep)) (o : Option DeclaredChange)
    {r : List PlanStep}
    → Ordered [] (or_generic context concrete)
    → choose_steps context concrete o ≡ given r
    → Ordered [] r
chosen-Ordered context concrete none {r} h e = rw (sym (given_injective _ r e)) h
chosen-Ordered context concrete (some declared) {r} h e =
    let (change, _, e1) = bound_given (read_change declared) (declared_steps context) e in
    declared-Ordered context change e1

-- A plan that the planner returns runs in its order: whatever a step depends on is the id of a step
-- that stands before it.
pub plan-Ordered :
    (context : PlanContext) (p : ExecutionPlan) → plan context ≡ given p → Ordered [] p.steps
unfolding plan build_plan plan_of
plan-Ordered context p e =
    let (u, _, e1) = bound_given (validate_context context) (λ _. build_plan context) e in
    let (concrete, e2, e3) = bound_given (concrete_file_steps context) _ e1 in
    let (steps, e4, e5) = bound_given (choose_steps context concrete context.change) _ e3 in
    let ordered =
      chosen-Ordered context concrete context.change
        (or_generic-Ordered context concrete (concrete_steps-Ordered context e2)) e4 in
    rw (sym (given_injective (plan_of context steps) p e5)) ordered
