-- ===== src/Tools/Git/Execute.antt =====
-- GitRepository.execute of src/harness/tools/git.py: the operation is chosen by its name. A key that was not
-- given is none; `pop` of such a key raises. The values have the types that the methods declare.
use Prim.Native.String
use md_harness.Tools.Git.Lines.{strip}
use md_harness.Tools.Git.{
  text_or, status, current_branch, log, add, pull, add_remote, remotes, fetch, delete_branch,
  rebase, diff, diff_stat, changed_files, check_clean, last_commit, show, tag, delete_tag,
  list_tags, list_branches, GitCall, GitProgram, Paths, call,
}
use md_harness.Tools.Git.Policed.{commit, commit_staged, push, checkout, create_branch, merge}
use md_harness.Security.Gitflow.{GitflowPolicy}
use md_harness.Prelude.{
  true, false, if◌then◌else◌, ◌==◌, String, Bool, not, Option, none, some, List, [], ◌∷◌, string_eq,
}
use md_harness.Effects.{
  throw, runtime_error, key_error, Action, pure, ◌>>=◌, ◌>>◌, require, require_some,
}

pub record Arguments : Type 0 where
  pub operation : String
  pub message : Option String
  pub paths : Option Paths
  pub remote : Option String
  pub branch : Option String
  pub create : Option Bool
  pub base : Option String
  pub remote_delete : Option Bool
  pub no_ff : Option Bool
  pub staged : Option Bool
  pub commit : Option String
  pub name : Option String
  pub url : Option String
  pub remote_branches : Option Bool

-- What an operation returns; `repository` is the one that `init` made, by its path and its name.
pub data GitOutcome : Type 0 where
  nothing : GitOutcome
  output : String → GitOutcome
  lines : List String → GitOutcome
  truth : Bool → GitOutcome
  repository : String → String → GitOutcome

-- `arguments.get(key, default)`
abbrev pub given_or {ℓ} : {A : Type ℓ} → Option A → A → A
given_or none default = default
given_or (some value) default = value

-- `arguments.pop(key)`
abbrev pub pop : Option String → String → Action (List GitCall) String
pop value key = require_some value (key_error key)

abbrev pub as_output : Action (List GitCall) String → Action (List GitCall) GitOutcome
as_output m = do text ← m; pure (output text)

abbrev pub as_lines : Action (List GitCall) (List String) → Action (List GitCall) GitOutcome
as_lines m = do found ← m; pure (lines found)

-- The first of the groups that knows the operation.
abbrev pub first_known :
    List (Option (Action (List GitCall) GitOutcome)) → String → Action (List GitCall) GitOutcome
first_known [] operation = throw (runtime_error (String.◌++◌ "unsupported operation: " operation))
first_known (some action ∷ rest) operation = action
first_known (none ∷ rest) operation = first_known rest operation

module _ (git : GitProgram) (policy : GitflowPolicy) (path name : String) where
  -- The path is resolved already, and its directory exists.
  unfoldable pub init : Action (List GitCall) GitOutcome
  unfolding call
  init = do
    completed ← call git ("init" ∷ path ∷ [])
    require (not completed.failed)
        (runtime_error (text_or (strip completed.stderr) "git init failed"))
    pure (repository path name)

  abbrev pub staging : Arguments → Option (Action (List GitCall) GitOutcome)
  staging args =
      if args.operation == "init"
      then some init
      else if args.operation == "status"
      then some (as_output (status git))
      else if args.operation == "add"
      then some (do add git args.paths; pure nothing)
      else if args.operation == "commit"
      then some (do message ← pop args.message "message"; as_output (commit git policy message))
      else if args.operation == "commit_staged"
      then some
          (do message ← pop args.message "message"; as_output (commit_staged git policy message))
      else if args.operation == "pull"
      then some (as_output (pull git (given_or args.remote "origin") args.branch false))
      else if args.operation == "push"
      then some (as_output (push git policy (given_or args.remote "origin") args.branch false))
      else if args.operation == "fetch"
      then some (as_output (fetch git (given_or args.remote "origin") args.branch))
      else none

  abbrev pub branching : Arguments → Option (Action (List GitCall) GitOutcome)
  branching args =
      if args.operation == "log"
      then some (as_output (log git 10))
      else if args.operation == "branch"
      then some (as_output (current_branch git))
      else if args.operation == "checkout"
      then some (do
        branch ← pop args.branch "branch"
        as_output (checkout git policy branch (given_or args.create false)))
      else if args.operation == "create_branch"
      then some (do
        branch ← pop args.branch "branch"
        as_output (create_branch git policy branch args.base))
      else if args.operation == "delete_branch"
      then some (do
        branch ← pop args.branch "branch"
        as_output (delete_branch git branch (given_or args.remote_delete false)))
      else if args.operation == "merge"
      then some (do
        branch ← pop args.branch "branch"
        as_output (merge git policy branch (given_or args.no_ff true)))
      else if args.operation == "rebase"
      then some (do branch ← pop args.branch "branch"; as_output (rebase git branch))
      else none

  abbrev pub reading : Arguments → Option (Action (List GitCall) GitOutcome)
  reading args =
      if args.operation == "diff"
      then some (as_output (diff git (given_or args.staged false)))
      else if args.operation == "diff_stat"
      then some (as_output (diff_stat git (given_or args.staged false)))
      else if args.operation == "changed_files"
      then some (as_lines (changed_files git (given_or args.staged false)))
      else if args.operation == "check_clean"
      then some (do clean ← check_clean git; pure (truth clean))
      else if args.operation == "last_commit"
      then some (as_output (last_commit git))
      else if args.operation == "show"
      then some (as_output (show git (given_or args.commit "HEAD")))
      else none

  abbrev pub tagging : Arguments → Option (Action (List GitCall) GitOutcome)
  tagging args =
      if args.operation == "tag"
      then some (do name ← pop args.name "name"; as_output (tag git name args.message))
      else if args.operation == "delete_tag"
      then some (do name ← pop args.name "name"; as_output (delete_tag git name))
      else if args.operation == "list_tags"
      then some (as_lines (list_tags git))
      else if args.operation == "list_branches"
      then some (as_lines (list_branches git (given_or args.remote_branches false)))
      else if args.operation == "add_remote"
      then some (do
        remote ← pop args.remote "remote"
        url ← pop args.url "url"
        as_output (add_remote git remote url))
      else if args.operation == "remotes"
      then some (as_output (remotes git))
      else none

  unfoldable pub execute : Arguments → Action (List GitCall) GitOutcome
  unfolding init status add commit commit_staged pull push fetch log current_branch checkout
      create_branch delete_branch merge rebase diff diff_stat changed_files check_clean last_commit
      show tag delete_tag list_tags list_branches add_remote remotes
  execute args =
      first_known (staging args ∷ branching args ∷ reading args ∷ tagging args ∷ []) args.operation
