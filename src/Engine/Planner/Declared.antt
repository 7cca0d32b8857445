-- ===== src/Engine/Planner/Declared.antt =====
-- Planner._declared_steps of src/harness/engine/planner.py.
use Prim.Native.String
use md_harness.Engine.Planner.Answers.{
  FileChange, TestRequest, ChangeRequest, PlanContext, fail_with, Planned, given, ◌>>=◌, ◌>>◌,
  unless,
}
use md_harness.Prelude.{
  tests, non_empty, contains, ℕ, ◌+◌, String, Bool, true, false, ◌||◌, Option, none, some, List, [],
  ◌∷◌, ◌++◌, nat_eq, string_eq,
}
use md_harness.Json.{Json, string, array, no_items, item, Members, no_members, member}
use md_harness.Plan.{PlanStep}
use md_harness.Text.Decimal.{decimal_text}
use md_harness.Engine.Planner.Criteria.{or_default, validate_test, validate_file_change}
use md_harness.Engine.Planner.Steps.{
  file_call, write_call, git_call, evidence_of, bare_step, test_step, named_step, inspect_files,
  ids_of,
}
use md_harness.Engine.Authorization.{truthy}

abbrev pub given_member : String → Option Json → Members → Members
given_member key none rest = rest
given_member key (some value) rest = member key value rest

unfoldable pub change_metadata : FileChange → Members
change_metadata change = member "change_type" change.operation (
    member "allowed_files" (array (item change.path no_items)) (
      member "evidence" (string "content_readback") (
        given_member "search" change.search (
          given_member "replacement" change.replacement
            (given_member "expected_content" change.content no_members)))))

-- `item.content or ""`
abbrev pub content_or_empty : Option Json → Json
content_or_empty none = string ""
content_or_empty (some value) = or_default value (string "")

abbrev pub or_ids : List ℕ → List ℕ → List ℕ
or_ids [] default = default
or_ids (n ∷ ns) default = n ∷ ns

-- A path or an operation that passed the checks is a text.
abbrev pub shown : Json → String
shown (string s) = s
shown _ = ""

abbrev pub describe : String → Json → String
describe verb path = String.◌++◌ verb (shown path)

unfoldable pub change_steps : FileChange → ℕ → String → List ℕ → List PlanStep
unfolding change_metadata decimal_text truthy
change_steps change index previous acceptance_ids =
    record (bare_step (named_step "read-" index) (describe "Read " change.path) "inspect"
      "filesystem" (file_call "read" change.path)) { depends_on = previous ∷ [] }
    ∷ record (bare_step (named_step "write-" index)
        (describe (String.◌++◌ (describe "Apply " change.operation) " to ") change.path) "implement"
        "filesystem" (write_call change.path (content_or_empty change.content))) {
          acceptance_criteria = or_ids change.acceptance_criteria acceptance_ids;
          depends_on = named_step "read-" index ∷ [];
          metadata = change_metadata change;
        }
    ∷ record (bare_step (named_step "verify-" index) (describe "Verify " change.path) "validate"
        "filesystem" (file_call "read" change.path)) {
          depends_on = named_step "write-" index ∷ [];
          metadata = change_metadata change;
        }
    ∷ []

-- `for index, item in enumerate(change.files, 1)`, with the id of the last step.
unfoldable pub file_steps : List ℕ → ℕ → String → List FileChange → Planned (List PlanStep × String)
unfolding validate_file_change change_steps
file_steps acceptance_ids index previous [] = given ([], previous)
file_steps acceptance_ids index previous (change ∷ rest) = do
  validate_file_change change
  later ← file_steps acceptance_ids (index + 1) (named_step "verify-" index) rest
  given (change_steps change index previous acceptance_ids ++ later.0, later.1)

abbrev pub diff_step : String → PlanStep
diff_step previous =
    record (bare_step "git-diff" "Inspect declared changes" "git_diff" "git" (git_call "diff")) {
      depends_on = previous ∷ [];
      metadata = evidence_of "git_diff";
    }

-- `for index, request in enumerate(change.tests, 1)`
unfoldable pub request_steps :
    List String → List ℕ → ℕ → String → List TestRequest → Planned (List PlanStep)
unfolding validate_test test_step decimal_text
request_steps tools test_ids index previous [] = given []
request_steps tools test_ids index previous (request ∷ rest) = do
  validate_test tools request.command request.timeout_seconds request.working_directory
  later ← request_steps tools test_ids (index + 1) (named_step "test-" index) rest
  given (
      test_step (named_step "test-" index) "Run declared tests" request.command
        request.timeout_seconds request.working_directory (or_ids request.test_criteria test_ids)
        (previous ∷ [])
      ∷ later)

abbrev pub tests_behind :
    Bool → List String → List ℕ → String → List TestRequest → Planned (List PlanStep)
tests_behind true tools test_ids previous requests = do
  tests ← request_steps tools test_ids 1 "git-diff" requests
  given (diff_step previous ∷ tests)
tests_behind false tools test_ids previous requests =
    request_steps tools test_ids 1 previous requests

unfoldable pub declared_steps : PlanContext → ChangeRequest → Planned (List PlanStep)
unfolding file_steps request_steps
declared_steps context change = do
  unless (contains context.available_tools "filesystem") (fail_with "change_tool_missing")
  files ← file_steps context.acceptance_criteria 1 "inspect" change.files
  tests ←
      tests_behind (contains context.available_tools "git") context.available_tools
        (ids_of context.test_criteria) files.1 change.tests
  unless (non_empty change.files || non_empty change.tests) (fail_with "change_empty")
  given (inspect_files "Inspect workspace" ∷ (files.0 ++ tests))
