-- ===== src/Engine/Planner/Criteria.antt =====
-- Planner._validate_test_criterion and _validate_file_change of src/harness/engine/planner.py.
use md_harness.Engine.Planner.Answers.{
  FileChange, Refusal, fail_with, Planned, given, refused, raised, ◌>>=◌, ◌>>◌, unless,
}
use md_harness.Prelude.{
  if◌then◌else◌, is_some, all, ◌==◌, contains, String, Bool, true, false, not, ◌&&◌, ◌||◌, Option,
  none, some, List, [], ◌∷◌, nat_eq, string_eq,
}
use md_harness.Json.{
  Json, boolean, integer, decimal, string, array, object, no_items, item, elements,
}
use md_harness.Text.{starts_with, parts}
use md_harness.Effects.{Error, type_error}
use md_harness.Engine.Registry.{leaves_workspace}
use md_harness.Engine.Authorization.{truthy, outside}

abbrev pub with_part : String → Option (List String) → Option (List String)
with_part s none = none
with_part s (some ss) = if s == "" then none else some (s ∷ ss)

unfoldable pub parts_of : List Json → Option (List String)
parts_of [] = some []
parts_of (string s ∷ rest) = with_part s (parts_of rest)
parts_of (_ ∷ rest) = none

-- The parts of a command that is a list of texts, none of them empty; the list is not empty either.
unfoldable pub command_parts : Json → Option (List String)
unfolding parts_of
command_parts (array no_items) = none
command_parts (array (item x xs)) = parts_of (elements (item x xs))
command_parts _ = none

-- What stands behind an allowed prefix.
unfoldable pub behind_prefix : List String → Option (List String)
behind_prefix (a ∷ (b ∷ (c ∷ rest))) =
    if a == "uv" && b == "run" && c == "pytest" || a == "python" && b == "-m" && c == "pytest"
    then some rest
    else none
behind_prefix _ = none

-- `timeout <= 0`; a float's text has its sign in front.
unfoldable pub not_positive : Json → Planned Bool
not_positive (integer negative n) = given (negative || n == 0)
not_positive (boolean b) = given (not b)
not_positive (decimal r) = given (starts_with r "-" || r == "0.0")
not_positive _ = raised (type_error "'<=' not supported")

-- `path.is_absolute() or ".." in path.parts`, for `path = Path(value)`
unfoldable pub path_leaves : Json → Planned Bool
unfolding leaves_workspace
path_leaves (string path) = given (leaves_workspace path)
path_leaves _ = raised (type_error "expected str, bytes or os.PathLike object")

unfoldable pub is_option : String → Bool
is_option argument = starts_with argument "-"

abbrev pub argument_kept : String → Bool
argument_kept argument = is_option argument || not (leaves_workspace argument)

abbrev pub require_command : Option (List String) → Refusal → Planned (List String)
require_command none r = refused r
require_command (some parts) r = given parts

-- `value or default`
abbrev pub or_default : Json → Json → Json
or_default value default = if truthy value then value else default

unfoldable pub validate_test : List String → Json → Json → Json → Planned (Unit {0})
unfolding command_parts behind_prefix not_positive path_leaves truthy leaves_workspace is_option
validate_test tools command timeout working_directory = do
  parts ← require_command (command_parts command) (fail_with "test_command_invalid")
  arguments ← require_command (behind_prefix parts) (fail_with "test_command_not_allowed")
  invalid ← not_positive timeout
  unless (not invalid) (fail_with "test_timeout_invalid")
  unless (all argument_kept arguments) (fail_with "test_path_invalid")
  outside ← path_leaves (or_default working_directory (string "."))
  unless (not outside) (fail_with "test_workdir_invalid")
  unless (contains tools "test_runner") (fail_with "test_runner_missing")

-- `operation in {…}`
abbrev pub is_one_of : List String → Json → Bool
is_one_of names (string s) = contains names s
is_one_of names _ = false

abbrev pub is_hashable : Json → Bool
is_hashable (array xs) = false
is_hashable (object ms) = false
is_hashable _ = true

abbrev pub raise_unless : Bool → Error → Planned (Unit {0})
raise_unless true e = given tt
raise_unless false e = raised e

unfoldable pub validate_file_change : FileChange → Planned (Unit {0})
unfolding path_leaves truthy
validate_file_change change = do
  outside ← path_leaves change.path
  unless (truthy change.path && not outside) (fail_with "change_path_invalid")
  raise_unless (is_hashable change.operation) (type_error "unhashable type")
  unless (is_one_of ("create" ∷ "update" ∷ "read" ∷ []) change.operation)
      (fail_with "change_operation_invalid")
  unless (not (is_one_of ("create" ∷ "update" ∷ []) change.operation) || is_some change.content)
      (fail_with "change_content_missing")
  unless
      (not (is_one_of ("update" ∷ []) change.operation)
        || is_some change.expected_content
        || is_some change.search)
      (fail_with "change_expected_state_missing")
  unless (not (is_some change.search) || is_some change.replacement)
      (fail_with "change_replacement_missing")
