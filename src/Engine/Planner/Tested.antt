-- ===== src/Engine/Planner/Tested.antt =====
-- The plans that the planner returns.
use md_harness.Engine.Planner.Returned.{bound_given, given_injective}
use md_harness.Engine.Planner.Answers.{TestCriterion, DeclaredChange, PlanContext, given}
use md_harness.Engine.Planner.Criteria.{validate_test}
use md_harness.Engine.Planner.Declared.{declared_steps}
use md_harness.Engine.Planner.Steps.{
  path_in_title, named_step, automated_test, criterion_steps, if_tool, file_task_steps, git_steps,
  ids_of, file_task, concrete_file_steps,
}
use md_harness.Engine.Planner.Safe.{
  RunsPytest, StaysInside, Safe, All-append, test-Safe, declared-Safe,
}
use md_harness.Engine.Planner.{
  first_tool, validate_context, generic_steps, plan_of, read_change, or_generic, choose_steps,
  build_plan, plan,
}
use md_harness.Prelude.{
  tests, Bool-cases, some_injective, All, ◌==◌, contains, sql_eq, ℕ, String, ◌≡◌, refl, sym, ◌∙◌,
  inl, inr, Bool, true, false, Option, none, some, List, [], ◌∷◌, ◌++◌, string_eq,
}
use md_harness.Plan.{PlanStep, ExecutionPlan}

criterion-RunsPytest :
    (tools : List String) (criteria : List TestCriterion) {r : List PlanStep}
    → criterion_steps tools criteria ≡ given r
    → All RunsPytest r
unfolding criterion_steps Safe
criterion-RunsPytest tools [] {r} e = rw (sym (given_injective [] r e)) tt
criterion-RunsPytest tools (criterion ∷ rest) {r} e =
    elim (Bool-cases (criterion.test_type == "automated")) [
      | inr other ↦ criterion-RunsPytest tools rest (rw other at e)
      | inl automated ↦
          let (u, e0, e1) =
            bound_given
              (validate_test tools criterion.command criterion.timeout_seconds
                criterion.working_directory)
              _ (rw automated at e) in
          let (later, e2, e3) = bound_given (criterion_steps tools rest) _ e1 in
          let safe : Safe (automated_test criterion) =
            test-Safe (named_step "test-" criterion.id) criterion.criterion criterion.command
              criterion.timeout_seconds criterion.working_directory (criterion.id ∷ [])
              ("implement" ∷ "validate" ∷ []) tools e0 in
          rw (sym (given_injective _ r e3)) (safe.0, criterion-RunsPytest tools rest e2)
    ]

task-RunsPytest :
    (path content : String) (acceptance tests : List ℕ)
    → All RunsPytest (file_task_steps path content acceptance tests)
unfolding file_task_steps
task-RunsPytest path content acceptance tests = (λ h. cc, (λ h. cc, (λ h. cc, tt)))

git-RunsPytest : (git : Bool) → All RunsPytest (if_tool git git_steps)
git-RunsPytest true = (λ h. cc, (λ h. cc, tt))
git-RunsPytest false = tt

concrete-RunsPytest :
    (context : PlanContext) (path : Option String) {r : Option (List PlanStep)}
    → file_task context path ≡ given r
    → (steps : List PlanStep) → r ≡ some steps
    → All RunsPytest steps
concrete-RunsPytest context none {r} e steps same = cc (given_injective none r e, same)
concrete-RunsPytest context (some path) {r} e steps same =
    let (tests, e1, e2) =
      bound_given (criterion_steps context.available_tools context.test_criteria) _ e in
    let git = if_tool (contains context.available_tools "git") git_steps in
    let acceptance = context.acceptance_criteria in
    let ids = ids_of context.test_criteria in
    let front = file_task_steps path context.task_description acceptance ids in
    let here = some_injective (front ++ (git ++ tests)) steps (given_injective _ r e2 ∙ same) in
    rw (sym here) (
      All-append RunsPytest front (git ++ tests)
        (task-RunsPytest path context.task_description acceptance ids)
        (All-append RunsPytest git tests (git-RunsPytest (contains context.available_tools "git"))
          (criterion-RunsPytest context.available_tools context.test_criteria e1)))

-- No tool of a generic step runs tests.
no_runner :
    (context : PlanContext) (a b : String)
    → (a == "test_runner") ≡ false
    → (b == "test_runner") ≡ false
    → sql_eq (first_tool context a b) "test_runner" ≡ true
    → true ≡ false
no_runner context a b h k e = elim (Bool-cases (contains context.available_tools a)) [
  | inl here ↦ sym (rw here at e) ∙ h
  | inr gone ↦ elim (Bool-cases (contains context.available_tools b)) [
    | inl there ↦ sym (rw (gone, there) at e) ∙ k
    | inr none_here ↦ sym (rw (gone, none_here) at e)
  ]
]

generic-RunsPytest : (context : PlanContext) → All RunsPytest (generic_steps context)
unfolding generic_steps
generic-RunsPytest context = (
  λ h. cc (no_runner context "filesystem" "git" refl refl h),
  (
    λ h. cc (no_runner context "filesystem" "git" refl refl h),
    (λ h. cc (no_runner context "sqlite" "filesystem" refl refl h), tt),
  ),
)

or_generic-RunsPytest :
    (context : PlanContext) (concrete : Option (List PlanStep))
    → ((steps : List PlanStep) → concrete ≡ some steps → All RunsPytest steps)
    → All RunsPytest (or_generic context concrete)
or_generic-RunsPytest context none h = generic-RunsPytest context
or_generic-RunsPytest context (some []) h = generic-RunsPytest context
or_generic-RunsPytest context (some (step ∷ steps)) h = h (step ∷ steps) refl

concrete_steps-RunsPytest :
    (context : PlanContext) {r : Option (List PlanStep)}
    → concrete_file_steps context ≡ given r
    → (steps : List PlanStep) → r ≡ some steps
    → All RunsPytest steps
unfolding concrete_file_steps
concrete_steps-RunsPytest context {r} e steps same =
    elim (Bool-cases (contains context.available_tools "filesystem")) [
      | inl able ↦
          concrete-RunsPytest context (path_in_title context.task_title) (rw able at e) steps same
      | inr unable ↦ cc (given_injective none r (rw unable at e), same)
    ]

Safe-parts : (steps : List PlanStep) → All Safe steps → All RunsPytest steps × All StaysInside steps
unfolding Safe
Safe-parts [] h = (tt, tt)
Safe-parts (step ∷ steps) h =
    let (runs, stay) = Safe-parts steps h.1 in ((h.0.0, runs), (h.0.1, stay))

chosen-RunsPytest :
    (context : PlanContext) (concrete : Option (List PlanStep)) (o : Option DeclaredChange)
    {r : List PlanStep}
    → All RunsPytest (or_generic context concrete)
    → choose_steps context concrete o ≡ given r
    → All RunsPytest r × ((d : DeclaredChange) → o ≡ some d → All StaysInside r)
chosen-RunsPytest context concrete none {r} h e = (rw (sym (given_injective _ r e)) h, λ d k. cc)
chosen-RunsPytest context concrete (some declared) {r} h e =
    let (change, _, e1) = bound_given (read_change declared) (declared_steps context) e in
    let (runs, stay) = Safe-parts r (declared-Safe context change e1) in (runs, λ _ _. stay)

-- In a plan that the planner returns, a step for the test runner starts pytest with options and
-- paths that stay inside the workspace. When the context declares a change, a step for the
-- filesystem names a path inside the workspace as well.
pub plan-Safe :
    (context : PlanContext) (p : ExecutionPlan)
    → plan context ≡ given p
    → All RunsPytest p.steps
      × ((d : DeclaredChange) → context.change ≡ some d → All StaysInside p.steps)
unfolding plan build_plan plan_of
plan-Safe context p e =
    let (u, _, e1) = bound_given (validate_context context) (λ _. build_plan context) e in
    let (concrete, e2, e3) = bound_given (concrete_file_steps context) _ e1 in
    let (steps, e4, e5) = bound_given (choose_steps context concrete context.change) _ e3 in
    let safe =
      chosen-RunsPytest context concrete context.change
        (or_generic-RunsPytest context concrete (concrete_steps-RunsPytest context e2)) e4 in
    rw (sym (given_injective (plan_of context steps) p e5)) safe
