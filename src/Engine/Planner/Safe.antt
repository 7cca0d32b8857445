-- ===== src/Engine/Planner/Safe.antt =====
-- The tests and the files of a plan's steps.
use md_harness.Engine.Planner.Declared.{
  change_steps, file_steps, diff_step, request_steps, tests_behind, declared_steps,
}
use md_harness.Engine.Planner.Steps.{test_step, named_step, inspect_files, ids_of}
use md_harness.Engine.Planner.Answers.{
  FileChange, TestRequest, ChangeRequest, PlanContext, given, unless,
}
use md_harness.Engine.Planner.Allowed.{Inside, Pytest, test-Pytest, change-Inside}
use md_harness.Engine.Planner.Returned.{bound_given, given_injective}
use md_harness.Prelude.{
  tests, non_empty, All, contains, sql_eq, ℕ, ◌+◌, String, ◌≡◌, refl, sym, ap, Bool, true, false,
  ◌||◌, some, List, [], ◌∷◌, ◌++◌, nat_eq, string_eq,
}
use md_harness.Json.{Json, string, Items, no_items, item, get_member}
use md_harness.Plan.{PlanStep}
use md_harness.Text.{parts, is_absolute}
use md_harness.Engine.Planner.Criteria.{validate_test, validate_file_change}

abbrev pub as_items : List String → Items
as_items [] = no_items
as_items (s ∷ ss) = item (string s) (as_items ss)

abbrev pub RunsPytest : PlanStep → Type 0
RunsPytest step =
    sql_eq step.tool "test_runner" ≡ true → Pytest (get_member "command" step.arguments)

abbrev pub StaysInside : PlanStep → Type 0
StaysInside step =
    sql_eq step.tool "filesystem" ≡ true
    → (path : String) × (get_member "path" step.arguments ≡ some (string path)) × Inside path

unfoldable pub Safe : PlanStep → Type 0
Safe step = RunsPytest step × StaysInside step

pub All-append :
    (P : PlanStep → Type 0) (xs ys : List PlanStep) → All P xs → All P ys → All P (xs ++ ys)
All-append P [] ys h k = k
All-append P (x ∷ xs) ys h k = (h.0, All-append P xs ys h.1 k)

file-Safe :
    (ids : List ℕ) (index : ℕ) (previous : String) (changes : List FileChange)
    {r : List PlanStep × String}
    → file_steps ids index previous changes ≡ given r
    → All Safe r.0
unfolding file_steps change_steps Safe get_member
file-Safe ids index previous [] {r} e = rw (sym (given_injective ([], previous) r e)) tt
file-Safe ids index previous (change ∷ rest) {r} e =
    let (u, e0, e1) = bound_given (validate_file_change change) _ e in
    let (later, e2, e3) =
      bound_given (file_steps ids (index + 1) (named_step "verify-" index) rest) _ e1 in
    let (path, same, inside) = change-Inside change e0 in
    rw (sym (given_injective _ r e3)) (
      All-append Safe (change_steps change index previous ids) later.0
        (
          (λ h. cc, λ h. (path, ap some same, inside)),
          (
            (λ h. cc, λ h. (path, ap some same, inside)),
            ((λ h. cc, λ h. (path, ap some same, inside)), tt),
          ),
        )
        (file-Safe ids (index + 1) (named_step "verify-" index) rest e2))

pub test-Safe :
    (id description : String) (command timeout directory : Json) (ids : List ℕ)
    (before tools : List String)
    → validate_test tools command timeout directory ≡ given tt
    → Safe (test_step id description command timeout directory ids before)
unfolding test_step Safe get_member
test-Safe id description command timeout directory ids before tools h =
    (λ _. test-Pytest tools command timeout directory h, λ e. cc)

request-Safe :
    (tools : List String) (ids : List ℕ) (index : ℕ) (previous : String)
    (requests : List TestRequest) {r : List PlanStep}
    → request_steps tools ids index previous requests ≡ given r
    → All Safe r
unfolding request_steps
request-Safe tools ids index previous [] {r} e = rw (sym (given_injective [] r e)) tt
request-Safe tools ids index previous (asked ∷ rest) {r} e =
    let (u, e0, e1) =
      bound_given (validate_test tools asked.command asked.timeout_seconds asked.working_directory)
        _ e in
    let (later, e2, e3) =
      bound_given (request_steps tools ids (index + 1) (named_step "test-" index) rest) _ e1 in
    rw (sym (given_injective _ r e3)) (
      test-Safe _ _ asked.command asked.timeout_seconds asked.working_directory _ _ tools e0,
      request-Safe tools ids (index + 1) (named_step "test-" index) rest e2,
    )

tests-Safe :
    (git : Bool) (tools : List String) (ids : List ℕ) (previous : String)
    (requests : List TestRequest) {r : List PlanStep}
    → tests_behind git tools ids previous requests ≡ given r
    → All Safe r
unfolding Safe
tests-Safe true tools ids previous requests {r} e =
    let (tests, e1, e2) = bound_given (request_steps tools ids 1 "git-diff" requests) _ e in
    rw (sym (given_injective (diff_step previous ∷ tests) r e2))
      ((λ h. cc, λ h. cc), request-Safe tools ids 1 "git-diff" requests e1)
tests-Safe false tools ids previous requests {r} e = request-Safe tools ids 1 previous requests e

inspect-Safe : (description : String) → Safe (inspect_files description)
unfolding Safe get_member is_absolute parts md_harness.Sql.fetchall
inspect-Safe description = (λ h. cc, λ h. (".", refl, (refl, refl)))

pub declared-Safe :
    (context : PlanContext) (change : ChangeRequest) {r : List PlanStep}
    → declared_steps context change ≡ given r
    → All Safe r
unfolding declared_steps
declared-Safe context change {r} e =
    let (u, _, e1) = bound_given (unless (contains context.available_tools "filesystem") _) _ e in
    let (files, e2, e3) =
      bound_given (file_steps context.acceptance_criteria 1 "inspect" change.files) _ e1 in
    let (tests, e4, e5) =
      bound_given
        (tests_behind (contains context.available_tools "git") context.available_tools
          (ids_of context.test_criteria) files.1 change.tests)
        _ e3 in
    let (w, _, e6) =
      bound_given (unless (non_empty change.files || non_empty change.tests) _) _ e5 in
    rw (sym (given_injective _ r e6)) (
      inspect-Safe "Inspect workspace",
      All-append Safe files.0 tests
          (file-Safe context.acceptance_criteria 1 "inspect" change.files e2)
          (tests-Safe (contains context.available_tools "git") context.available_tools
            (ids_of context.test_criteria) files.1 change.tests e4),
    )
