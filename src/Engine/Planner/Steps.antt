-- ===== src/Engine/Planner/Steps.antt =====
-- Planner._concrete_file_steps and _declared_steps of src/harness/engine/planner.py.
use Prim.Native.Char.{code}
use Prim.Native.String
use Prim.Native.String.{[], ◌∷◌}
use mathlib.Core.List.{[], ◌∷◌}
use md_harness.Engine.Planner.Answers.{TestCriterion, PlanContext, Planned, given, ◌>>=◌, ◌>>◌}
use md_harness.Prelude.{
  if◌then◌else◌, tests, ◌==◌, contains, ℕ, String, Bool, true, false, ◌||◌, Option, none, some,
  List, ◌++◌, map, nat_eq, string_eq,
}
use md_harness.Json.{Json, string, Members, no_members, member}
use md_harness.Plan.{PlanStep}
use md_harness.Text.{is_space}
use md_harness.Text.Decimal.{decimal_text}
use md_harness.Engine.Authorization.{truthy, operation}
use md_harness.Engine.Planner.Criteria.{validate_test}

-- What follows a prefix.
unfoldable pub after_prefix : String → String → Option String
after_prefix [] text = some text
after_prefix (p ∷ prefix) [] = none
after_prefix (p ∷ prefix) (c ∷ text) =
    let rest = after_prefix prefix text in if code p == code c then rest else none

unfoldable pub drop_spaces : String → String
drop_spaces [] = ""
drop_spaces (c ∷ text) =
    let rest = drop_spaces text in if is_space (code c) then rest else (c ∷ text)

unfoldable pub has_space : String → Bool
has_space [] = false
has_space (c ∷ text) = is_space (code c) || has_space text

abbrev pub as_path : Option String → Option String
as_path none = none
as_path (some rest) =
    let path = drop_spaces rest in if path == "" || has_space path then none else some path

-- `re.fullmatch(r"(?:Create|Update) file:\s*(\S+)", title)`
unfoldable pub path_in_title : String → Option String
unfolding after_prefix drop_spaces has_space
path_in_title title = elim (as_path (after_prefix "Create file:" title)) [
  | some path ↦ some path
  | none ↦ as_path (after_prefix "Update file:" title)
]

abbrev pub file_call : String → Json → Members
file_call operation path = member "operation" (string operation) (member "path" path no_members)

abbrev pub write_call : Json → Json → Members
write_call path content =
    member "operation" (string "write") (member "path" path (member "content" content no_members))

abbrev pub git_call : String → Members
git_call operation = member "operation" (string operation) no_members

abbrev pub evidence_of : String → Members
evidence_of kind = member "evidence" (string kind) no_members

-- A PlanStep with the fields' defaults.
abbrev pub bare_step : String → String → String → String → Members → PlanStep
bare_step id description action tool arguments = record {
  id = id;
  description = description;
  action = action;
  tool = some tool;
  arguments = arguments;
  acceptance_criteria = [];
  test_criteria = [];
  depends_on = [];
  metadata = no_members;
}

abbrev pub with_directory : Json → Members → Members
with_directory directory rest =
    if truthy directory then member "working_directory" directory rest else rest

unfoldable pub test_step : String → String → Json → Json → Json → List ℕ → List String → PlanStep
unfolding truthy
test_step id description command timeout directory criteria before =
    record (bare_step id description "run_tests" "test_runner"
      (member "command" command (member "timeout" timeout (with_directory directory no_members)))) {
        test_criteria = criteria;
        depends_on = before;
      }

abbrev pub named_step : String → ℕ → String
named_step name n = String.◌++◌ name (decimal_text n)

abbrev pub inspect_files : String → PlanStep
inspect_files description =
    bare_step "inspect" description "inspect" "filesystem" (file_call "list" (string "."))

abbrev pub automated_test : TestCriterion → PlanStep
automated_test criterion =
    test_step (named_step "test-" criterion.id) criterion.criterion criterion.command
      criterion.timeout_seconds criterion.working_directory (criterion.id ∷ [])
      ("implement" ∷ "validate" ∷ [])

unfoldable pub criterion_steps : List String → List TestCriterion → Planned (List PlanStep)
unfolding validate_test test_step decimal_text
criterion_steps tools [] = given []
criterion_steps tools (criterion ∷ rest) =
    let later = criterion_steps tools rest in
    if criterion.test_type == "automated"
    then (do
      validate_test tools criterion.command criterion.timeout_seconds criterion.working_directory
      steps ← later
      given (automated_test criterion ∷ steps))
    else later

abbrev pub if_tool : Bool → List PlanStep → List PlanStep
if_tool true steps = steps
if_tool false steps = []

unfoldable pub file_task_steps : String → String → List ℕ → List ℕ → List PlanStep
file_task_steps path content acceptance_ids test_ids =
    inspect_files "Inspect the target workspace."
    ∷ record (bare_step "implement" content "implement" "filesystem"
        (write_call (string path) (string content))) {
          acceptance_criteria = acceptance_ids;
          depends_on = "inspect" ∷ [];
          metadata = member "change_type" (string "create_or_update") no_members;
        }
    ∷ record (bare_step "validate" "Read back the created file." "validate" "filesystem"
        (file_call "read" (string path))) {
          test_criteria = test_ids;
          depends_on = "implement" ∷ [];
          metadata = evidence_of "content_readback";
        }
    ∷ []

abbrev pub git_steps : List PlanStep
git_steps =
    record (bare_step "git-status" "Inspect the Git working tree after the change." "git_status"
      "git" (git_call "status")) {
        depends_on = "validate" ∷ [];
        metadata = evidence_of "git_status";
      }
    ∷ record (bare_step "git-diff" "Inspect the Git diff for the change." "git_diff" "git"
        (git_call "diff")) { depends_on = "git-status" ∷ []; metadata = evidence_of "git_diff" }
    ∷ []

abbrev pub ids_of : List TestCriterion → List ℕ
ids_of criteria = map (λ (c : TestCriterion). c.id) criteria

abbrev pub file_task : PlanContext → Option String → Planned (Option (List PlanStep))
file_task context none = given none
file_task context (some path) = do
  tests ← criterion_steps context.available_tools context.test_criteria
  given (
      some (
        file_task_steps path context.task_description context.acceptance_criteria
          (ids_of context.test_criteria)
        ++ (if_tool (contains context.available_tools "git") git_steps ++ tests)))

unfoldable pub concrete_file_steps : PlanContext → Planned (Option (List PlanStep))
unfolding path_in_title criterion_steps file_task_steps
concrete_file_steps context =
    if contains context.available_tools "filesystem"
    then file_task context (path_in_title context.task_title)
    else given none
