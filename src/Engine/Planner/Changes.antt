-- ===== src/Engine/Planner/Changes.antt =====
-- ChangeRequest.from_mapping of src/harness/engine/context.py. Ids of criteria in a change are numbers.
use md_harness.Effects.Checks.{◌>>=◌}
use md_harness.Prelude.{
  if◌then◌else◌, tests, ◌==◌, ℕ, false, Option, none, some, List, [], ◌∷◌, nat_eq, string_eq,
}
use md_harness.Json.{
  Json, null, integer, decimal, string, array, object, no_members, get_member, elements,
}
use md_harness.Effects.{Error, type_error, Result, return, raise}
use md_harness.Engine.Planner.Answers.{FileChange, TestRequest, ChangeRequest}

-- `value.get(key)`, where None is what was not given.
abbrev pub optional : Option Json → Option Json
optional (some null) = none
optional o = o

abbrev pub or_json : Json → Option Json → Json
or_json default none = default
or_json default (some value) = value

abbrev pub numbers : List Json → List ℕ
numbers [] = []
numbers (integer false n ∷ rest) = n ∷ numbers rest
numbers (_ ∷ rest) = numbers rest

abbrev pub numbers_at : Option Json → List ℕ
numbers_at (some (array xs)) = numbers (elements xs)
numbers_at _ = []

-- `for item in value.get(key, [])`; the characters of a text and the keys of a dict are no mappings.
unfoldable pub items_at : Option Json → Error → Result (List Json)
items_at none e = return []
items_at (some (array xs)) e = return (elements xs)
items_at (some (string s)) e = if s == "" then return [] else raise e
items_at (some (object no_members)) e = return []
items_at (some _) e = raise e

abbrev pub no_file : Error
no_file = type_error "file change must be a mapping"

abbrev pub no_test : Error
no_test = type_error "test request command must be a list"

-- `FileChange(**item)`: its path and its operation have no default.
unfoldable pub file_change : Json → Result FileChange
unfolding get_member
file_change (object ms) = elim (get_member "path" ms) [
  | none ↦ raise (type_error "missing positional arguments")
  | some path ↦ elim (get_member "operation" ms) [
    | none ↦ raise (type_error "missing positional arguments")
    | some operation ↦ return (record {
      path = path;
      operation = operation;
      content = optional (get_member "content" ms);
      expected_content = optional (get_member "expected_content" ms);
      search = optional (get_member "search" ms);
      replacement = optional (get_member "replacement" ms);
      acceptance_criteria = numbers_at (get_member "acceptance_criteria" ms);
    })
  ]
]
file_change _ = raise no_file

unfoldable pub test_request : Json → Result TestRequest
unfolding get_member
test_request (object ms) = elim (get_member "command" ms) [
  | some (array xs) ↦ return (record {
    command = array xs;
    timeout_seconds = or_json (decimal "120.0") (get_member "timeout_seconds" ms);
    working_directory = or_json null (get_member "working_directory" ms);
    test_criteria = numbers_at (get_member "test_criteria" ms);
  })
  | _ ↦ raise no_test
]
test_request _ = raise no_test

unfoldable pub each_of {ℓ} : {A : Type ℓ} → (Json → Result A) → List Json → Result (List A)
each_of read [] = return []
each_of read (x ∷ xs) = do first ← read x; rest ← each_of read xs; return (first ∷ rest)

unfoldable pub from_mapping : Json → Result ChangeRequest
unfolding items_at file_change test_request each_of get_member
from_mapping (object ms) = do
  files ← items_at (get_member "files" ms) no_file
  changes ← each_of file_change files
  tests ← items_at (get_member "tests" ms) no_test
  requests ← each_of test_request tests
  return (record { files = changes; tests = requests })
from_mapping _ = raise (type_error "change must be a mapping")
