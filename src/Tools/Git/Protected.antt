-- ===== src/Tools/Git/Protected.antt =====
-- What GitRepository.execute does to the protected branches, whatever git answers.
use md_harness.Effects.Keeps.{require_keeps, some_keeps, then_keeps}
use md_harness.Tools.Git.{
  GitCall, GitProgram, call, status, current_branch, log, add, remotes, rebase, check_clean,
  last_commit, list_tags,
}
use md_harness.Tools.Git.Policed.{commit, commit_staged}
use md_harness.Tools.Git.Execute.{
  Arguments, GitOutcome, output, lines, truth, nothing, given_or, pop, as_output, as_lines, init,
  staging, branching, reading, tagging, first_known, execute,
}
use md_harness.Tools.Git.Guarded.{Guarded}
use md_harness.Tools.Git.Calls.{made_call, Plain-Allowed}
use md_harness.Tools.Git.Operations.{
  Keeps, status-Keeps, current_branch-Keeps, log-Keeps, add-Keeps, pull-Keeps, fetch-Keeps,
  add_remote-Keeps, remotes-Keeps, rebase-Keeps, diff-Keeps, diff_stat-Keeps, changed_files-Keeps,
  check_clean-Keeps, last_commit-Keeps, show-Keeps, tag-Keeps, delete_tag-Keeps, list_tags-Keeps,
  list_branches-Keeps,
}
use md_harness.Tools.Git.Commits.{
  commit-Keeps, commit_staged-Keeps, push-Keeps, delete_branch-Keeps, checkout-Keeps,
  create_branch-Keeps, merge-Keeps,
}
use md_harness.Security.Gitflow.{GitflowPolicy}
use md_harness.Prelude.{
  if◌then◌else◌, All, ◌==◌, refl, String, Bool, true, false, not, Option, none, some, List, [], ◌∷◌,
  string_eq,
}
use md_harness.Effects.{Action, key_error, ◌>>=◌}

abbrev MayKeep : GitflowPolicy → Option (Action (List GitCall) GitOutcome) → Type 0
MayKeep policy none = Unit {0}
MayKeep policy (some action) = Keeps policy action

module _ (policy : GitflowPolicy) where
  choose-MayKeep :
      (b : Bool) (action : Action (List GitCall) GitOutcome)
      (rest : Option (Action (List GitCall) GitOutcome))
      → Keeps policy action
      → MayKeep policy rest
      → MayKeep policy (if b then some action else rest)
  choose-MayKeep true action rest h k = h
  choose-MayKeep false action rest h k = k

  output-Keeps : (m : Action (List GitCall) String) → Keeps policy m → Keeps policy (as_output m)
  output-Keeps m k history h = then_keeps (Guarded policy) (m history) output (k history h)

  lines-Keeps :
      (m : Action (List GitCall) (List String)) → Keeps policy m → Keeps policy (as_lines m)
  lines-Keeps m k history h = then_keeps (Guarded policy) (m history) lines (k history h)

  pop-Keeps :
      (o : Option String) (key : String) (f : String → Action (List GitCall) GitOutcome)
      → ((text : String) → Keeps policy (f text))
      → Keeps policy (pop o key >>= f)
  pop-Keeps o key f k history h =
      some_keeps (Guarded policy) o (key_error key) f history h (λ text _. k text history h)

  known-Keeps :
      (groups : List (Option (Action (List GitCall) GitOutcome))) (operation : String)
      → All (MayKeep policy) groups
      → Keeps policy (first_known groups operation)
  known-Keeps [] operation h history k = k
  known-Keeps (some action ∷ rest) operation h history k = h.0 history k
  known-Keeps (none ∷ rest) operation h history k = known-Keeps rest operation h.1 history k

  module _ (git : GitProgram) (path name : String) (args : Arguments) where
    init-Keeps : Keeps policy (init git policy path name)
    unfolding init call Guarded
    init-Keeps history h =
        require_keeps (Guarded policy) (not (git history ("init" ∷ path ∷ [])).failed) _ _
          (made_call policy git ("init" ∷ path ∷ []) history ∷ history)
          (Plain-Allowed policy history ("init" ∷ path ∷ []) (refl, refl, refl), h)
          (λ _. (Plain-Allowed policy history ("init" ∷ path ∷ []) (refl, refl, refl), h))

    staging-MayKeep : MayKeep policy (staging git policy path name args)
    staging-MayKeep = choose-MayKeep (args.operation == "init") _ _ init-Keeps (
        choose-MayKeep (args.operation == "status") _ _
          (output-Keeps (status git) (status-Keeps policy git))
          (choose-MayKeep (args.operation == "add") _ _
            (λ history h.
              then_keeps (Guarded policy) (add git args.paths history) (λ _. nothing)
                (add-Keeps policy git args.paths history h))
            (choose-MayKeep (args.operation == "commit") _ _
              (pop-Keeps args.message "message" _
                (λ text. output-Keeps (commit git policy text) (commit-Keeps policy git text)))
              (choose-MayKeep (args.operation == "commit_staged") _ _
                (pop-Keeps args.message "message" _ (λ text.
                  output-Keeps (commit_staged git policy text)
                    (commit_staged-Keeps policy git text)))
                (choose-MayKeep (args.operation == "pull") _ _
                  (output-Keeps _
                    (pull-Keeps policy git (given_or args.remote "origin") args.branch false))
                  (choose-MayKeep (args.operation == "push") _ _
                    (output-Keeps _
                      (push-Keeps policy git (given_or args.remote "origin") args.branch))
                    (choose-MayKeep (args.operation == "fetch") _ none
                      (output-Keeps _
                        (fetch-Keeps policy git (given_or args.remote "origin") args.branch))
                      tt)))))))

    branching-MayKeep : MayKeep policy (branching git policy path name args)
    branching-MayKeep =
        choose-MayKeep (args.operation == "log") _ _
          (output-Keeps (log git 10) (log-Keeps policy git 10))
          (choose-MayKeep (args.operation == "branch") _ _
            (output-Keeps (current_branch git) (current_branch-Keeps policy git))
            (choose-MayKeep (args.operation == "checkout") _ _
              (pop-Keeps args.branch "branch" _ (λ text.
                output-Keeps _ (checkout-Keeps policy git text (given_or args.create false))))
              (choose-MayKeep (args.operation == "create_branch") _ _
                (pop-Keeps args.branch "branch" _
                  (λ text. output-Keeps _ (create_branch-Keeps policy git text args.base)))
                (choose-MayKeep (args.operation == "delete_branch") _ _
                  (pop-Keeps args.branch "branch" _ (λ text.
                    output-Keeps _
                      (delete_branch-Keeps policy git text (given_or args.remote_delete false))))
                  (choose-MayKeep (args.operation == "merge") _ _
                    (pop-Keeps args.branch "branch" _ (λ text.
                      output-Keeps _ (merge-Keeps policy git text (given_or args.no_ff true))))
                    (choose-MayKeep (args.operation == "rebase") _ none
                      (pop-Keeps args.branch "branch" _
                        (λ text. output-Keeps (rebase git text) (rebase-Keeps policy git text)))
                      tt))))))

    reading-MayKeep : MayKeep policy (reading git policy path name args)
    reading-MayKeep =
        choose-MayKeep (args.operation == "diff") _ _
          (output-Keeps _ (diff-Keeps policy git (given_or args.staged false)))
          (choose-MayKeep (args.operation == "diff_stat") _ _
            (output-Keeps _ (diff_stat-Keeps policy git (given_or args.staged false)))
            (choose-MayKeep (args.operation == "changed_files") _ _
              (lines-Keeps _ (changed_files-Keeps policy git (given_or args.staged false)))
              (choose-MayKeep (args.operation == "check_clean") _ _
                (λ history h.
                  then_keeps (Guarded policy) (check_clean git history) truth
                    (check_clean-Keeps policy git history h))
                (choose-MayKeep (args.operation == "last_commit") _ _
                  (output-Keeps (last_commit git) (last_commit-Keeps policy git))
                  (choose-MayKeep (args.operation == "show") _ none
                    (output-Keeps _ (show-Keeps policy git (given_or args.commit "HEAD"))) tt)))))

    tagging-MayKeep : MayKeep policy (tagging git policy path name args)
    tagging-MayKeep =
        choose-MayKeep (args.operation == "tag") _ _
          (pop-Keeps args.name "name" _
            (λ text. output-Keeps _ (tag-Keeps policy git text args.message)))
          (choose-MayKeep (args.operation == "delete_tag") _ _
            (pop-Keeps args.name "name" _
              (λ text. output-Keeps _ (delete_tag-Keeps policy git text)))
            (choose-MayKeep (args.operation == "list_tags") _ _
              (lines-Keeps (list_tags git) (list_tags-Keeps policy git))
              (choose-MayKeep (args.operation == "list_branches") _ _
                (lines-Keeps _
                  (list_branches-Keeps policy git (given_or args.remote_branches false)))
                (choose-MayKeep (args.operation == "add_remote") _ _
                  (pop-Keeps args.remote "remote" _ (λ remote.
                    pop-Keeps args.url "url" _
                      (λ url. output-Keeps _ (add_remote-Keeps policy git remote url))))
                  (choose-MayKeep (args.operation == "remotes") _ none
                    (output-Keeps (remotes git) (remotes-Keeps policy git)) tt)))))

-- Whatever git answers: if every call so far was allowed, so is every call that an operation makes,
-- also one that raises. A push names a branch of the flow that is not protected, or deletes a
-- branch other than main, master and develop. A commit follows at once, or behind a `git add`, git's
-- answer that its branch is of the flow and not protected, or that there is no commit yet. A merge
-- follows git's answer that it is on a branch into which the flow merges the source.
pub execute-Guarded :
    (git : GitProgram) (policy : GitflowPolicy) (path name : String) (args : Arguments)
    (history : List GitCall)
    → Guarded policy history
    → Guarded policy (execute git policy path name args history).1
unfolding execute
execute-Guarded git policy path name args history h =
    known-Keeps policy
      (staging git policy path name args
        ∷ branching git policy path name args
        ∷ reading git policy path name args
        ∷ tagging git policy path name args
        ∷ [])
      args.operation
      (
        staging-MayKeep policy git path name args,
        (
          branching-MayKeep policy git path name args,
          (
            reading-MayKeep policy git path name args,
            (tagging-MayKeep policy git path name args, tt),
          ),
        ),
      )
      history h
