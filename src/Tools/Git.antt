-- ===== src/Tools/Git.antt =====
-- GitRepository of src/harness/tools/git.py. The git program is a parameter that answers a command
-- as it likes, knowing every call before it; the state is the list of the calls, the last one first.
-- GitError is a RuntimeError, and a policy's message becomes a GitError.
pub mod Lines
pub mod Policed
pub mod Execute
pub mod Guarded
pub mod Calls
pub mod Operations
pub mod Commits
pub mod Protected
use Prim.Native.String
use md_harness.Security.Gitflow.{starts_with_any}
use md_harness.Tools.Git.Lines.{strip, lstrip_stars, splitlines, join_words}
use md_harness.Tools.Git.Lines.{path_text}
use md_harness.Prelude.{
  contains, ◌++◌, ltb, if◌then◌else◌, non_empty, ◌==◌, ℕ, String, Bool, not, ◌||◌, Option, none,
  some, List, [], ◌∷◌, map, nat_eq, string_eq,
}
use md_harness.Effects.{value_error, runtime_error, Action, pure, throw, ◌>>=◌, ◌>>◌, require}
use md_harness.Sql.{fetchall}
use md_harness.Text.{is_blank, occurs_in}
use md_harness.Text.Decimal.{decimal_text}

-- A CompletedProcess; `failed` is `returncode != 0`.
pub record Completed : Type 0 where
  pub failed : Bool
  pub stdout : String
  pub stderr : String

pub record GitCall : Type 0 where
  pub command : List String
  pub completed : Completed

abbrev pub GitProgram : Type 0
GitProgram = List GitCall → List String → Completed

-- `paths` of `add`, when it is not None.
pub data Paths : Type 0 where
  one_path : String → Paths
  many_paths : List String → Paths

abbrev pub path_list : Paths → List String
path_list (one_path path) = path ∷ []
path_list (many_paths paths) = paths

-- `value or default`
abbrev pub text_or : String → String → String
text_or text default = if text == "" then default else text

-- `if branch: args.append(branch)`
abbrev pub given_text : Option String → List String
given_text none = []
given_text (some text) = if text == "" then [] else text ∷ []

abbrev pub flag : Bool → String → List String
flag b text = if b then text ∷ [] else []

-- `callback(*args)`, where a GitflowPolicyError is raised again as a GitError.
abbrev pub validate_policy : Option String → Action (List GitCall) (Unit {0})
validate_policy none = pure tt
validate_policy (some message) = throw (runtime_error message)

unfoldable pub is_branch_name : String → Bool
is_branch_name branch =
    not (starts_with_any ("/" ∷ "-" ∷ []) branch || occurs_in branch ".." || occurs_in branch " ")

-- `_validate_branch`
unfoldable pub check_branch : String → Action (List GitCall) (Unit {0})
unfolding is_blank is_branch_name
check_branch branch = do
  require (not (is_blank branch)) (value_error "branch must not be empty")
  require (is_branch_name branch) (value_error "invalid branch name")

-- The message of `_run`.
unfoldable pub failure : List String → Completed → String
unfolding join_words
failure args completed =
    text_or (text_or (strip completed.stderr) (strip completed.stdout))
      (String.◌++◌ "git " (String.◌++◌ (join_words args) " failed"))

abbrev pub not_blank : String → Bool
not_blank text = not (is_blank text)

abbrev pub not_empty : String → Bool
not_empty text = not (text == "")

module _ (git : GitProgram) where
  -- `subprocess.run(["git", *args], …)`
  unfoldable pub call : List String → Action (List GitCall) Completed
  call args history =
      let completed = git history args in
      pure completed (record { command = args; completed = completed } ∷ history)

  unfoldable pub run : List String → Action (List GitCall) String
  unfolding call failure
  run args = do
    completed ← call args
    require (not completed.failed) (runtime_error (failure args completed))
    pure (strip completed.stdout)

  unfoldable pub status : Action (List GitCall) String
  unfolding run
  status = run ("status" ∷ "--short" ∷ [])

  unfoldable pub current_branch : Action (List GitCall) String
  unfolding run
  current_branch = run ("branch" ∷ "--show-current" ∷ [])

  unfoldable pub log : ℕ → Action (List GitCall) String
  unfolding run decimal_text
  log limit = do
    require (not (ltb limit 1)) (value_error "limit must be positive")
    run ("log" ∷ String.◌++◌ "-" (decimal_text limit) ∷ "--oneline" ∷ [])

  unfoldable pub add : Option Paths → Action (List GitCall) (Unit {0})
  unfolding run path_text
  add none = do run ("add" ∷ "--all" ∷ []); pure tt
  add (some paths) = do
    require (non_empty (path_list paths)) (value_error "at least one path is required")
    run ("add" ∷ "--" ∷ map path_text (path_list paths))
    pure tt

  unfoldable pub is_initial_commit : Action (List GitCall) Bool
  unfolding call
  is_initial_commit = do
    completed ← call ("rev-parse" ∷ "--verify" ∷ "HEAD" ∷ [])
    pure completed.failed

  unfoldable pub pull : String → Option String → Bool → Action (List GitCall) String
  unfolding run
  pull remote branch rebase =
      run ("pull" ∷ (flag rebase "--rebase" ++ (remote ∷ given_text branch)))

  unfoldable pub add_remote : String → String → Action (List GitCall) String
  unfolding run
  add_remote name url = do
    require (not (is_blank name || is_blank url))
        (value_error "remote name and URL must not be empty")
    run ("remote" ∷ "add" ∷ name ∷ url ∷ [])

  unfoldable pub remotes : Action (List GitCall) String
  unfolding run
  remotes = run ("remote" ∷ "-v" ∷ [])

  unfoldable pub fetch : String → Option String → Action (List GitCall) String
  unfolding run
  fetch remote branch = run ("fetch" ∷ remote ∷ given_text branch)

  unfoldable pub delete_branch : String → Bool → Action (List GitCall) String
  unfolding run check_branch
  delete_branch branch remote = do
    check_branch branch
    require (not (contains ("main" ∷ "master" ∷ "develop" ∷ []) branch))
        (runtime_error (String.◌++◌ "protected branch cannot be deleted: " branch))
    run (
        if remote
        then "push" ∷ "origin" ∷ "--delete" ∷ branch ∷ []
        else "branch" ∷ "-d" ∷ branch ∷ [])

  unfoldable pub rebase : String → Action (List GitCall) String
  unfolding run
  rebase branch = run ("rebase" ∷ branch ∷ [])

  unfoldable pub diff : Bool → Action (List GitCall) String
  unfolding run
  diff staged = run ("diff" ∷ flag staged "--cached")

  unfoldable pub diff_stat : Bool → Action (List GitCall) String
  unfolding run
  diff_stat staged = run ("diff" ∷ "--stat" ∷ flag staged "--cached")

  unfoldable pub changed_files : Bool → Action (List GitCall) (List String)
  unfolding run splitlines
  changed_files staged = do
    output ← run ("diff" ∷ (flag staged "--cached" ++ "--name-only" ∷ []))
    pure (fetchall not_empty (splitlines output))

  unfoldable pub check_clean : Action (List GitCall) Bool
  unfolding status
  check_clean = do output ← status; pure (output == "")

  unfoldable pub last_commit : Action (List GitCall) String
  unfolding run
  last_commit = run ("log" ∷ "-1" ∷ "--oneline" ∷ [])

  unfoldable pub show : String → Action (List GitCall) String
  unfolding run
  show commit = do
    require (not_blank commit) (value_error "commit must not be empty")
    run ("show" ∷ "--stat" ∷ "--oneline" ∷ commit ∷ [])

  abbrev pub tag_words : String → Option String → List String
  tag_words name none = name ∷ []
  tag_words name (some message) =
      if message == "" then name ∷ [] else "-a" ∷ name ∷ "-m" ∷ message ∷ []

  unfoldable pub tag : String → Option String → Action (List GitCall) String
  unfolding run
  tag name message = do
    require (not_blank name) (value_error "tag name must not be empty")
    run ("tag" ∷ tag_words name message)

  unfoldable pub delete_tag : String → Action (List GitCall) String
  unfolding run
  delete_tag name = do
    require (not_blank name) (value_error "tag name must not be empty")
    run ("tag" ∷ "-d" ∷ name ∷ [])

  unfoldable pub list_tags : Action (List GitCall) (List String)
  unfolding run splitlines
  list_tags = do
    output ← run ("tag" ∷ "--list" ∷ [])
    pure (map (λ line. strip line) (fetchall not_blank (splitlines output)))

  unfoldable pub list_branches : Bool → Action (List GitCall) (List String)
  unfolding run splitlines lstrip_stars
  list_branches remote = do
    output ← run ("branch" ∷ (if remote then "-a" else "--format=%(refname:short)") ∷ [])
    pure (map (λ line. strip (lstrip_stars (strip line))) (fetchall not_blank (splitlines output)))
