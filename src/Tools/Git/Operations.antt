-- ===== src/Tools/Git/Operations.antt =====
-- Each operation of GitRepository that asks no policy keeps every call allowed.
use md_harness.Effects.Keeps.{last_keeps, require_keeps, then_keeps}
use md_harness.Tools.Git.{
  GitCall, GitProgram, Paths, is_branch_name, check_branch, status, current_branch, log, add, pull,
  add_remote, remotes, fetch, rebase, diff, diff_stat, changed_files, check_clean, last_commit,
  show, tag, delete_tag, list_tags, list_branches, run, not_blank, path_list,
}
use md_harness.Tools.Git.Guarded.{Guarded}
use md_harness.Tools.Git.Calls.{Plain-Guarded}
use md_harness.Security.Gitflow.{GitflowPolicy}
use md_harness.Prelude.{
  ltb, ◌==◌, ◌||◌, non_empty, refl, ℕ, String, Bool, not, Option, none, some, List, [], ◌∷◌, nat_eq,
  string_eq,
}
use md_harness.Effects.{Action, value_error, pure, ◌>>◌, require}
use md_harness.Text.{is_blank}

-- An action that keeps every call allowed.
abbrev pub Keeps : GitflowPolicy → {A : Type 0} → Action (List GitCall) A → Type 0
Keeps policy m = (history : List GitCall) → Guarded policy history → Guarded policy (m history).1

module _ (policy : GitflowPolicy) (git : GitProgram) where
  pub status-Keeps : Keeps policy (status git)
  unfolding status
  status-Keeps history = Plain-Guarded policy git _ history (refl, refl, refl)

  pub current_branch-Keeps : Keeps policy (current_branch git)
  unfolding current_branch
  current_branch-Keeps history = Plain-Guarded policy git _ history (refl, refl, refl)

  pub log-Keeps : (limit : ℕ) → Keeps policy (log git limit)
  unfolding log
  log-Keeps limit history h =
      require_keeps (Guarded policy) (not (ltb limit 1)) (value_error "limit must be positive")
        (run git _) history h (λ _. Plain-Guarded policy git _ history (refl, refl, refl) h)

  pub add-Keeps : (paths : Option Paths) → Keeps policy (add git paths)
  unfolding add
  add-Keeps none history h =
      then_keeps (Guarded policy) (run git ("add" ∷ "--all" ∷ []) history) (λ _. tt)
        (Plain-Guarded policy git _ history (refl, refl, refl) h)
  add-Keeps (some paths) history h =
      require_keeps (Guarded policy) (non_empty (path_list paths)) _ (run git _ >> pure tt) history
        h
        (λ _.
          then_keeps (Guarded policy) (run git _ history) (λ _. tt)
            (Plain-Guarded policy git _ history (refl, refl, refl) h))

  pub pull-Keeps :
      (remote : String) (branch : Option String) (rebase : Bool)
      → Keeps policy (pull git remote branch rebase)
  unfolding pull
  pull-Keeps remote branch rebase history = Plain-Guarded policy git _ history (refl, refl, refl)

  pub fetch-Keeps :
      (remote : String) (branch : Option String) → Keeps policy (fetch git remote branch)
  unfolding fetch
  fetch-Keeps remote branch history = Plain-Guarded policy git _ history (refl, refl, refl)

  pub add_remote-Keeps : (name url : String) → Keeps policy (add_remote git name url)
  unfolding add_remote
  add_remote-Keeps name url history h =
      require_keeps (Guarded policy) (not (is_blank name || is_blank url)) _ (run git _) history h
        (λ _. Plain-Guarded policy git _ history (refl, refl, refl) h)

  pub remotes-Keeps : Keeps policy (remotes git)
  unfolding remotes
  remotes-Keeps history = Plain-Guarded policy git _ history (refl, refl, refl)

  pub check_branch-Keeps : (branch : String) → Keeps policy (check_branch branch)
  unfolding check_branch
  check_branch-Keeps branch history h =
      require_keeps (Guarded policy) (not (is_blank branch)) _ (require (is_branch_name branch) _)
        history h
        (λ _.
          last_keeps (Guarded policy) (is_branch_name branch) (value_error "invalid branch name")
            history h)

  pub rebase-Keeps : (branch : String) → Keeps policy (rebase git branch)
  unfolding rebase
  rebase-Keeps branch history = Plain-Guarded policy git _ history (refl, refl, refl)

  pub diff-Keeps : (staged : Bool) → Keeps policy (diff git staged)
  unfolding diff
  diff-Keeps staged history = Plain-Guarded policy git _ history (refl, refl, refl)

  pub diff_stat-Keeps : (staged : Bool) → Keeps policy (diff_stat git staged)
  unfolding diff_stat
  diff_stat-Keeps staged history = Plain-Guarded policy git _ history (refl, refl, refl)

  pub changed_files-Keeps : (staged : Bool) → Keeps policy (changed_files git staged)
  unfolding changed_files
  changed_files-Keeps staged history h =
      then_keeps (Guarded policy) (run git _ history) _
        (Plain-Guarded policy git _ history (refl, refl, refl) h)

  pub check_clean-Keeps : Keeps policy (check_clean git)
  unfolding check_clean
  check_clean-Keeps history h =
      then_keeps (Guarded policy) (status git history) (λ output. output == "")
        (status-Keeps history h)

  pub last_commit-Keeps : Keeps policy (last_commit git)
  unfolding last_commit
  last_commit-Keeps history = Plain-Guarded policy git _ history (refl, refl, refl)

  pub show-Keeps : (commit : String) → Keeps policy (show git commit)
  unfolding show
  show-Keeps commit history h =
      require_keeps (Guarded policy) (not_blank commit) _ (run git _) history h
        (λ _. Plain-Guarded policy git _ history (refl, refl, refl) h)

  pub tag-Keeps : (name : String) (message : Option String) → Keeps policy (tag git name message)
  unfolding tag
  tag-Keeps name message history h =
      require_keeps (Guarded policy) (not_blank name) _ (run git _) history h
        (λ _. Plain-Guarded policy git _ history (refl, refl, refl) h)

  pub delete_tag-Keeps : (name : String) → Keeps policy (delete_tag git name)
  unfolding delete_tag
  delete_tag-Keeps name history h =
      require_keeps (Guarded policy) (not_blank name) _ (run git _) history h
        (λ _. Plain-Guarded policy git _ history (refl, refl, refl) h)

  pub list_tags-Keeps : Keeps policy (list_tags git)
  unfolding list_tags
  list_tags-Keeps history h =
      then_keeps (Guarded policy) (run git _ history) _
        (Plain-Guarded policy git _ history (refl, refl, refl) h)

  pub list_branches-Keeps : (remote : Bool) → Keeps policy (list_branches git remote)
  unfolding list_branches
  list_branches-Keeps remote history h =
      then_keeps (Guarded policy) (run git _ history) _
        (Plain-Guarded policy git _ history (refl, refl, refl) h)
