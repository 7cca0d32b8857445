-- ===== src/Engine/Evidence.antt =====
-- The checks of src/harness/engine/validator.py on what the steps of a plan left. What `str` gives of a
-- tool's result that is no text is the parameter `shown`. A plan keeps texts under `path`,
-- `allowed_files`, `required_in_diff` and `forbidden_in_diff`, as the planner and the check of a tool's
-- arguments ask; ids of criteria are keys.
use Prim.Native.String
use md_harness.Text.{occurs_in}
use Prim.Native.String.{compare}
use Prim.Native.Nat.{Ordering}
use md_harness.Prelude.{
  if◌then◌else◌, non_empty, all, Eq, ◌==◌, contains, sql_eq, ℕ, String, Bool, false, not, ◌&&◌,
  ◌||◌, Option, none, some, List, [], ◌∷◌, ◌++◌, map, nat_eq, string_eq,
}
use md_harness.Json.{Json, null, string, array, get_member, elements}
use md_harness.Json.Equality.{Floats, equal}
use md_harness.Plan.{PlanStep}
use md_harness.Sql.{fetchone}
use md_harness.Engine.Outcomes.{
  ToolOutput, with_data, plain, ExecutedStep, Execution, ValidationError, content_mismatch,
  git_change_missing, unexpected_file, missing_diff, forbidden_diff, Evidence, file_content,
  executed_step,
}

-- `dict[key] = value`
module _ {ℓ κ} {K : Type ℓ} {V : Type κ} ⦃e : Eq K⦄ where
  unfoldable pub put : K → V → List (K × V) → List (K × V)
  put key value [] = (key, value) ∷ []
  put key value ((k, v) ∷ rest) =
      let later = put key value rest in if k == key then (k, value) ∷ rest else (k, v) ∷ later

unfoldable pub completed_by : (ExecutedStep → List ℕ) → List ExecutedStep → List ℕ
completed_by criteria [] = []
completed_by criteria (step ∷ steps) = criteria step ++ completed_by criteria steps

unfoldable pub criteria_status : List ℕ → List ℕ → List (ℕ × Bool)
criteria_status ids completed = map (λ id. (id, contains completed id)) ids

abbrev pub only_texts : List Json → List String
only_texts [] = []
only_texts (string s ∷ rest) = s ∷ only_texts rest
only_texts (_ ∷ rest) = only_texts rest

abbrev pub texts_at : Option Json → List String
texts_at (some (array xs)) = only_texts (elements xs)
texts_at _ = []

-- `step.metadata.get(key, [])` of all steps
unfoldable pub metadata_texts : String → List PlanStep → List String
unfolding get_member
metadata_texts key [] = []
metadata_texts key (step ∷ steps) =
    texts_at (get_member key step.metadata) ++ metadata_texts key steps

abbrev pub is_text_of : String → Option Json → Bool
is_text_of s (some (string t)) = t == s
is_text_of s _ = false

abbrev pub file_step : String → PlanStep → Bool
file_step name step =
    sql_eq step.tool "filesystem" && is_text_of name (get_member "operation" step.arguments)

abbrev pub written : Option Json → Option Json → List (String × Json) → List (String × Json)
written (some (string path)) (some content) rest = put path content rest
written _ _ rest = rest

-- `{path: content}` over the writes; a later one of the same path is kept.
unfoldable pub writes_in : List (String × Json) → List PlanStep → List (String × Json)
unfolding put get_member
writes_in writes [] = writes
writes_in writes (step ∷ steps) =
    writes_in
      (if file_step "write" step
        then written (get_member "path" step.arguments) (get_member "content" step.arguments) writes
        else writes)
      steps

abbrev pub reads : String → PlanStep → Bool
reads path step = file_step "read" step && is_text_of path (get_member "path" step.arguments)

abbrev pub result_of : Option ExecutedStep → Option ToolOutput
result_of none = none
result_of (some step) = some step.result

-- The result of the first step that reads the path.
unfoldable pub read_back : List PlanStep → List ExecutedStep → String → Option ToolOutput
unfolding executed_step get_member
read_back plan steps path = elim (fetchone (reads path) plan) [
  | none ↦ none
  | some step ↦ result_of (executed_step step.id steps)
]

-- A text stands for itself.
abbrev pub text_of : (ToolOutput → String) → ToolOutput → String
text_of shown (plain (string s)) = s
text_of shown output = shown output

abbrev pub git_step : PlanStep → Bool
git_step step =
    sql_eq step.tool "git"
    && (is_text_of "status" (get_member "operation" step.arguments)
        || is_text_of "diff" (get_member "operation" step.arguments))

abbrev pub with_output : (ToolOutput → String) → Option ToolOutput → List String → List String
with_output shown none rest = rest
with_output shown (some r) rest = text_of shown r ∷ rest

unfoldable pub git_outputs : (ToolOutput → String) → List PlanStep → List ExecutedStep → List String
unfolding executed_step get_member
git_outputs shown [] steps = []
git_outputs shown (step ∷ plan) steps =
    let rest = git_outputs shown plan steps in
    if git_step step then with_output shown (result_of (executed_step step.id steps)) rest else rest

-- `"\n".join(…)`
unfoldable pub join_lines : List String → String
join_lines [] = ""
join_lines (line ∷ []) = line
join_lines (line ∷ (next ∷ rest)) = String.◌++◌ line (String.◌++◌ "\n" (join_lines (next ∷ rest)))

-- `sorted(set(…))`
unfoldable pub insert_sorted : String → List String → List String
insert_sorted s [] = s ∷ []
insert_sorted s (t ∷ rest) =
    let later = insert_sorted s rest in
    elim (compare s t) [
      | Ordering.lt ↦ s ∷ t ∷ rest
      | Ordering.eq ↦ t ∷ rest
      | Ordering.gt ↦ t ∷ later
    ]

unfoldable pub sorted_set : List String → List String
unfolding insert_sorted
sorted_set [] = []
sorted_set (s ∷ rest) = insert_sorted s (sorted_set rest)

-- `[form(x) for x in xs if not test(x)]`
unfoldable pub failing {ℓ κ} : {A : Type ℓ} {B : Type κ} → (A → Bool) → (A → B) → List A → List B
failing test form [] = []
failing test form (x ∷ xs) =
    let rest = failing test form xs in if test x then rest else form x ∷ rest

pub record Checks : Type 0 where
  pub content_checks : List (String × Bool)
  pub diff_checks : List (String × Bool)
  pub errors : List ValidationError
  pub changed_files : List String
  pub evidence : List Evidence

module _ (f : Floats) (shown : ToolOutput → String) where
  -- `actual == expected`, where None stands for what was not read.
  unfoldable pub same_content : Option ToolOutput → Json → Bool
  unfolding equal
  same_content none expected = equal f null expected
  same_content (some (plain actual)) expected = equal f actual expected
  same_content (some (with_data ms)) expected = false

  abbrev pub content_kept : List PlanStep → List ExecutedStep → String × Json → Bool
  content_kept plan steps w = same_content (read_back plan steps w.0) w.1

  unfoldable pub git_evidence : List PlanStep → List ExecutedStep → String
  unfolding git_outputs join_lines
  git_evidence plan steps = join_lines (git_outputs shown plan steps)

  -- `path not in allowed`, if any file is named as allowed.
  abbrev pub permitted : List PlanStep → String → Bool
  permitted plan path =
      let allowed = metadata_texts "allowed_files" plan in
      not (non_empty allowed) || contains allowed path

  unfoldable pub evidence_errors : List PlanStep → Execution → List ValidationError
  unfolding writes_in same_content read_back git_evidence sorted_set metadata_texts failing
  evidence_errors plan execution =
      let writes = writes_in [] plan in
      let evidence = git_evidence plan execution.steps in
      failing (content_kept plan execution.steps) (λ w. content_mismatch w.0) writes
      ++ (failing (λ w. occurs_in evidence w.0) (λ w. git_change_missing w.0)
            (if evidence == "" then [] else writes)
          ++ (failing (permitted plan) unexpected_file (sorted_set execution.changed_files)
              ++ (failing (occurs_in evidence) missing_diff (metadata_texts "required_in_diff" plan)
                  ++ failing (λ t. not (occurs_in evidence t)) forbidden_diff
                      (metadata_texts "forbidden_in_diff" plan))))

  unfoldable pub evidence_checks : List PlanStep → Execution → Checks
  unfolding evidence_errors
  evidence_checks plan execution =
      let writes = writes_in [] plan in
      let kept = content_kept plan execution.steps in
      let evidence = git_evidence plan execution.steps in
      let changed = sorted_set execution.changed_files in
      record {
        content_checks = map (λ w. (w.0, kept w)) writes;
        diff_checks =
            map (λ w. (w.0, occurs_in evidence w.0)) (if evidence == "" then [] else writes);
        errors = evidence_errors plan execution;
        changed_files = changed;
        evidence =
            map (λ w. file_content w.0 (kept w)) writes
            ++ Evidence.changed_files changed (all (permitted plan) changed) ∷ [];
      }
