-- ===== src/Tools/Git/Policed.antt =====
-- The operations of GitRepository, in src/harness/tools/git.py, that its policy checks.
use md_harness.Tools.Git.{
  GitCall, GitProgram, given_text, flag, validate_policy, check_branch, not_blank, not_empty, run,
  current_branch, add, is_initial_commit,
}
use md_harness.Security.Gitflow.{
  GitflowPolicy, validate_branch, validate_commit, validate_push, validate_merge,
}
use md_harness.Prelude.{
  if◌then◌else◌, ◌==◌, String, Bool, Option, none, some, List, [], ◌∷◌, ◌++◌, string_eq,
}
use md_harness.Effects.{value_error, runtime_error, Action, pure, ◌>>=◌, ◌>>◌, require}

-- `branch or self.current_branch()`
unfoldable pub named_or_current : GitProgram → Option String → Action (List GitCall) String
unfolding current_branch
named_or_current git none = current_branch git
named_or_current git (some branch) = if branch == "" then current_branch git else pure branch

module _ (git : GitProgram) (policy : GitflowPolicy) where
  unfoldable pub validate_commit_policy : Action (List GitCall) (Unit {0})
  unfolding current_branch is_initial_commit validate_commit
  validate_commit_policy = do
    branch ← current_branch git
    initial ← is_initial_commit git
    validate_policy (validate_commit policy branch initial)

  unfoldable pub commit_staged : String → Action (List GitCall) String
  unfolding validate_commit_policy run
  commit_staged message = do
    require (not_blank message) (value_error "commit message must not be empty")
    validate_commit_policy
    run git ("commit" ∷ "-m" ∷ message ∷ [])

  unfoldable pub commit : String → Action (List GitCall) String
  unfolding validate_commit_policy add run
  commit message = do
    require (not_blank message) (value_error "commit message must not be empty")
    validate_commit_policy
    add git none
    run git ("commit" ∷ "-m" ∷ message ∷ [])

  unfoldable pub push : String → Option String → Bool → Action (List GitCall) String
  unfolding named_or_current validate_push run
  push remote branch set_upstream = do
    target ← named_or_current git branch
    require (not_empty target) (runtime_error "cannot push without a current branch")
    validate_policy (validate_push policy target)
    run git ("push" ∷ (flag set_upstream "-u" ++ (remote ∷ target ∷ [])))

  unfoldable pub checkout : String → Bool → Action (List GitCall) String
  unfolding current_branch validate_branch run
  checkout branch create = do
    require (not_blank branch) (value_error "branch must not be empty")
    if create
        then (do
          base ← current_branch git
          validate_policy (validate_branch policy branch (some base)))
        else pure tt
    run git ("switch" ∷ (flag create "-c" ++ branch ∷ []))

  unfoldable pub create_branch : String → Option String → Action (List GitCall) String
  unfolding check_branch named_or_current validate_branch run
  create_branch branch base = do
    check_branch branch
    start ← named_or_current git base
    validate_policy (validate_branch policy branch (some start))
    run git ("switch" ∷ "-c" ∷ branch ∷ given_text base)

  unfoldable pub merge : String → Bool → Action (List GitCall) String
  unfolding current_branch validate_merge run
  merge branch no_ff = do
    target ← current_branch git
    validate_policy (validate_merge policy branch target)
    run git ("merge" ∷ (flag no_ff "--no-ff" ++ branch ∷ []))
