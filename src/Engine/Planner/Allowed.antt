-- ===== src/Engine/Planner/Allowed.antt =====
-- What the checks of the planner leave of a command and of a path.
use md_harness.Engine.Planner.Answers.{FileChange, Refusal, given, unless}
use md_harness.Engine.Planner.Returned.{bound_given, given_injective, unless_given}
use md_harness.Engine.Authorization.{truthy}
use md_harness.Prelude.{
  Bool-cases, and_left, and_right, or_false, not-true, some_injective, all, All, eq_iff, ◌==◌,
  contains, String, ◌≡◌, refl, sym, ap, ◌∙◌, ◌⊎◌, inl, inr, Bool, true, false, not, ◌&&◌, Option,
  none, some, List, [], ◌∷◌, arith, nat_eq, string_eq,
}
use md_harness.Json.{Json, null, string, array, Items, no_items, item, elements}
use md_harness.Text.{starts_with, parts, is_absolute}
use md_harness.Engine.Registry.{leaves_workspace}
use md_harness.Engine.Planner.Criteria.{
  with_part, parts_of, command_parts, behind_prefix, not_positive, path_leaves, is_option,
  argument_kept, require_command, validate_test, validate_file_change,
}

abbrev pub as_items : List String → Items
as_items [] = no_items
as_items (s ∷ ss) = item (string s) (as_items ss)

-- A relative path with no `..` in it.
abbrev pub Inside : String → Type 0
Inside path = (is_absolute path ≡ false) × (contains (parts path) ".." ≡ false)

-- pytest, by one of the two ways to start it, with options and paths inside the workspace.
abbrev pub Pytest : Option Json → Type 0
Pytest command =
    (arguments : List String) × ((command
        ≡ some (array (as_items ("uv" ∷ "run" ∷ "pytest" ∷ arguments))))
      ⊎ (command ≡ some (array (as_items ("python" ∷ "-m" ∷ "pytest" ∷ arguments)))))
    × All (λ a. (starts_with a "-" ≡ true) ⊎ Inside a) arguments

stays : (path : String) → leaves_workspace path ≡ false → Inside path
unfolding leaves_workspace
stays path h = or_false (is_absolute path) (contains (parts path) "..") h

parts_items : (xs : Items) (ss : List String) → parts_of (elements xs) ≡ some ss → xs ≡ as_items ss
unfolding parts_of
parts_items no_items [] h = refl
parts_items no_items (s ∷ ss) h = cc
parts_items (item (string t) xs) ss h = by_rest (parts_items xs) (parts_of (elements xs)) refl h
  where
    by_rest :
        ((rest : List String) → parts_of (elements xs) ≡ some rest → xs ≡ as_items rest)
        → (o : Option (List String)) → parts_of (elements xs) ≡ o
        → with_part t o ≡ some ss
        → item (string t) xs ≡ as_items ss
    by_rest ih none e k = cc
    by_rest ih (some rest) e k = elim (Bool-cases (t == "")) [
      | inl blank ↦ cc (rw blank at k)
      | inr full ↦
          let same : (t ∷ rest) ≡ ss = some_injective _ ss (rw full at k) in
          rw (sym same) (ap (item (string t)) (ih rest e))
    ]
parts_items (item _ xs) ss h = cc

prefix_split :
    (ss arguments : List String)
    → behind_prefix ss ≡ some arguments
    → (ss ≡ "uv" ∷ "run" ∷ "pytest" ∷ arguments) ⊎ (ss ≡ "python" ∷ "-m" ∷ "pytest" ∷ arguments)
unfolding behind_prefix
prefix_split (a ∷ (b ∷ (c ∷ rest))) arguments h =
    elim (Bool-cases (a == "uv" && b == "run" && c == "pytest")) [
      | inl e ↦ inl (ground (arith, e, eq_iff a "uv", eq_iff b "run", eq_iff c "pytest"))
      | inr e ↦ inr (ground (arith, e, h, eq_iff a "python", eq_iff b "-m", eq_iff c "pytest"))
    ]
prefix_split (a ∷ (b ∷ [])) arguments h = cc
prefix_split (a ∷ []) arguments h = cc
prefix_split [] arguments h = cc

kept_arguments :
    (arguments : List String)
    → all argument_kept arguments ≡ true
    → All (λ a. (starts_with a "-" ≡ true) ⊎ Inside a) arguments
unfolding is_option
kept_arguments [] h = tt
kept_arguments (a ∷ rest) h = (
  by_option (Bool-cases (starts_with a "-")),
  kept_arguments rest (and_right (argument_kept a) _ h),
)
  where
    by_option :
        (starts_with a "-" ≡ true) ⊎ (starts_with a "-" ≡ false)
        → (starts_with a "-" ≡ true) ⊎ Inside a
    by_option (inl e) = inl e
    by_option (inr e) =
        let kept : argument_kept a ≡ true = and_left (argument_kept a) _ h in
        inr (stays a (not-true (leaves_workspace a) (rw e at kept)))

command_items :
    (command : Json) (ss : List String)
    → command_parts command ≡ some ss
    → command ≡ array (as_items ss)
unfolding command_parts
command_items (array no_items) ss h = cc
command_items (array (item x xs)) ss h = ap array (parts_items (item x xs) ss h)
command_items null ss h = cc
command_items _ ss h = cc

command_given :
    (o : Option (List String)) (r : Refusal) (ss : List String)
    → require_command o r ≡ given ss
    → o ≡ some ss
command_given none r ss h = cc
command_given (some parts) r ss h = ap some (given_injective parts ss h)

pub test-Pytest :
    (tools : List String) (command timeout directory : Json)
    → validate_test tools command timeout directory ≡ given tt
    → Pytest (some command)
unfolding validate_test
test-Pytest tools command timeout directory h =
    let (ss, e1, h1) = bound_given (require_command (command_parts command) _) _ h in
    let (arguments, e2, h2) = bound_given (require_command (behind_prefix ss) _) _ h1 in
    let (invalid, _, h3) = bound_given (not_positive timeout) _ h2 in
    let (u, _, h4) = bound_given (unless (not invalid) _) _ h3 in
    let (w, e5, _) = bound_given (unless (all argument_kept arguments) _) _ h4 in
    let whole = command_items command ss (command_given _ _ ss e1) in
    (
      arguments,
      elim (prefix_split ss arguments (command_given _ _ arguments e2)) [
        | inl e ↦ inl (ap some (whole ∙ ap (λ parts. array (as_items parts)) e))
        | inr e ↦ inr (ap some (whole ∙ ap (λ parts. array (as_items parts)) e))
      ],
      kept_arguments arguments (unless_given _ _ e5),
    )

path_given :
    (value : Json) (leaves : Bool)
    → path_leaves value ≡ given leaves
    → (path : String) × (value ≡ string path) × (leaves_workspace path ≡ leaves)
unfolding path_leaves
path_given (string path) leaves h = (path, refl, given_injective (leaves_workspace path) leaves h)
path_given null leaves h = cc
path_given _ leaves h = cc

pub change-Inside :
    (change : FileChange)
    → validate_file_change change ≡ given tt
    → (path : String) × (change.path ≡ string path) × Inside path
unfolding validate_file_change
change-Inside change h =
    let (leaves, e1, h1) = bound_given (path_leaves change.path) _ h in
    let (u, e2, _) = bound_given (unless (truthy change.path && not leaves) _) _ h1 in
    let (path, same, stay) = path_given change.path leaves e1 in
    (
      path,
      same,
      stays path (stay ∙ not-true leaves (and_right (truthy change.path) _ (unless_given _ _ e2))),
    )
