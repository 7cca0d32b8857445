-- ===== src/Tools/Git/Commits.antt =====
-- Each operation of GitRepository that asks its policy keeps every call allowed.
use md_harness.Effects.Keeps.{bind_keeps, require_keeps}
use md_harness.Tools.Git.{
  GitCall, GitProgram, call, check_branch, current_branch, add, is_initial_commit, delete_branch,
  run, validate_policy, failure, not_blank, not_empty, given_text, flag,
}
use md_harness.Tools.Git.Lines.{strip}
use md_harness.Tools.Git.Policed.{
  validate_commit_policy, commit, commit_staged, named_or_current, push, checkout, create_branch,
  merge,
}
use md_harness.Tools.Git.Guarded.{
  Guarded, Checked, before_add, push-OnFlow, commit-OnFlow, merge_lem,
}
use md_harness.Tools.Git.Calls.{
  made_call, policy-Guarded, last_policy-Guarded, run_then, run-Guarded, Plain-Guarded,
  Plain-Allowed,
}
use md_harness.Tools.Git.Operations.{Keeps, current_branch-Keeps, add-Keeps, check_branch-Keeps}
use md_harness.Security.Gitflow.{GitflowPolicy, validate_branch, validate_commit, validate_push}
use md_harness.Prelude.{
  if◌then◌else◌, Bool-cases, not-true, contains, ◌==◌, ◌⊎◌, inl, inr, ◌≡◌, refl, sym, ap, String,
  Bool, true, false, not, Option, none, some, List, [], ◌∷◌, ◌++◌, string_eq,
}
use md_harness.Effects.{Action, Error, Result, return, runtime_error, pure, ◌>>=◌, ◌>>◌, require}

abbrev show_words : List String
show_words = "branch" ∷ "--show-current" ∷ []

abbrev head_words : List String
head_words = "rev-parse" ∷ "--verify" ∷ "HEAD" ∷ []

checked_returned :
    {A : Type 0} (failed : Bool) (e : Error) (text : String) (f : String → Action (List GitCall) A)
    (after : List GitCall) {end : Result A × List GitCall} {a : A}
    → ((require (not failed) e >> pure text) >>= f) after ≡ end
    → end.0 ≡ return a
    → f text after ≡ end
checked_returned true e text f after {end} {a} h k = cc
checked_returned false e text f after {end} {a} h k = h

policy_returned :
    (o : Option String) (s : List GitCall) {after : List GitCall}
    → validate_policy o s ≡ (return tt, after)
    → (o ≡ none) × (s ≡ after)
policy_returned none s {after} h = (refl, ap (λ (r : Result (Unit {0}) × List GitCall). r.1) h)
policy_returned (some message) s {after} h = cc

module _ (policy : GitflowPolicy) (git : GitProgram) where
  -- The calls of the check before a commit.
  abbrev asked : List GitCall → List GitCall
  asked history =
      let shown = made_call policy git show_words history ∷ history in
      made_call policy git head_words shown ∷ shown

  commit_policy-Keeps : Keeps policy (validate_commit_policy git policy)
  unfolding validate_commit_policy current_branch is_initial_commit call Guarded
  commit_policy-Keeps history h =
      run_then policy git show_words _ history
        (Plain-Allowed policy history show_words (refl, refl, refl)) h
        (λ g.
          last_policy-Guarded policy _ (asked history)
            (Plain-Allowed policy _ head_words (refl, refl, refl), g))

  commit_policy-Checked :
      (history : List GitCall) {after : List GitCall}
      → validate_commit_policy git policy history ≡ (return tt, after)
      → Checked policy after
  unfolding validate_commit_policy current_branch is_initial_commit call run
  commit_policy-Checked history {after} h =
      let shown = made_call policy git show_words history in
      let head = made_call policy git head_words (shown ∷ history) in
      let branch = strip shown.completed.stdout in
      let passed =
        checked_returned shown.completed.failed (runtime_error (failure show_words shown.completed))
          branch _ (shown ∷ history) h refl in
      let (kept, same) =
        policy_returned (validate_commit policy branch head.completed.failed) (asked history)
          passed in
      (
        head,
        shown,
        history,
        sym same,
        refl,
        refl,
        commit-OnFlow policy branch head.completed.failed kept,
      )

  pub commit_staged-Keeps : (message : String) → Keeps policy (commit_staged git policy message)
  unfolding commit_staged
  commit_staged-Keeps message history h =
      require_keeps (Guarded policy) (not_blank message) _ _ history h (λ _.
        bind_keeps (Guarded policy) (validate_commit_policy git policy history) _
          (commit_policy-Keeps history h)
          (λ u after e g.
            run-Guarded policy git _ after
              (λ k. cc, λ _. still_checked after (commit_policy-Checked history e), λ k. cc) g))
    where
      still_checked :
          (after : List GitCall) → Checked policy after → Checked policy (before_add after)
      still_checked after (head, shown, earlier, same, c1, c2, ok) =
          (head, shown, earlier, rw (same, c2) refl, c1, c2, ok)

  -- The files are staged behind the check.
  add_returned :
      (history : List GitCall) {after : List GitCall}
      → add git none history ≡ (return tt, after)
      → made_call policy git ("add" ∷ "--all" ∷ []) history ∷ history ≡ after
  unfolding add run call
  add_returned history {after} h =
      let staged = made_call policy git ("add" ∷ "--all" ∷ []) history in
      ap (λ (r : Result (Unit {0}) × List GitCall). r.1)
        (checked_returned staged.completed.failed
          (runtime_error (failure staged.command staged.completed)) (strip staged.completed.stdout)
          (λ _. pure tt) (staged ∷ history) h refl)

  pub commit-Keeps : (message : String) → Keeps policy (commit git policy message)
  unfolding commit
  commit-Keeps message history h =
      require_keeps (Guarded policy) (not_blank message) _ _ history h (λ _.
        bind_keeps (Guarded policy) (validate_commit_policy git policy history) _
          (commit_policy-Keeps history h)
          (λ u after e g.
            bind_keeps (Guarded policy) (add git none after) _ (add-Keeps policy git none after g)
              (λ v later e2 g2.
                run-Guarded policy git _ later
                  (
                    λ k. cc,
                    λ _. rw (sym (add_returned after e2)) (commit_policy-Checked history e),
                    λ k. cc,
                  )
                  g2)))

  pub merge-Keeps : (branch : String) (no_ff : Bool) → Keeps policy (merge git policy branch no_ff)
  unfolding merge current_branch
  merge-Keeps branch no_ff history h =
      run_then policy git show_words _ history
        (Plain-Allowed policy history show_words (refl, refl, refl)) h
        (λ g. policy-Guarded policy _ _ (made_call policy git show_words history ∷ history) g (λ ok.
          run-Guarded policy git _ _
            (
              λ k. cc,
              λ k. cc,
              λ _. (
                made_call policy git show_words history,
                history,
                branch,
                refl,
                refl,
                words no_ff,
                merge_lem policy branch _ ok,
              ),
            )
            g))
    where
      words :
          (no_ff : Bool)
          → (("merge" ∷ (flag no_ff "--no-ff" ++ branch ∷ [])) ≡ "merge" ∷ branch ∷ [])
            ⊎ (("merge" ∷ (flag no_ff "--no-ff" ++ branch ∷ []))
                ≡ "merge" ∷ "--no-ff" ∷ branch ∷ [])
      words true = inr refl
      words false = inl refl

  named-Keeps : (branch : Option String) → Keeps policy (named_or_current git branch)
  unfolding named_or_current
  named-Keeps none history h = current_branch-Keeps policy git history h
  named-Keeps (some branch) history h = elim (Bool-cases (branch == "")) [
    | inl e ↦ rw e (current_branch-Keeps policy git history h)
    | inr e ↦ rw e h
  ]

  pub push-Keeps :
      (remote : String) (branch : Option String)
      → Keeps policy (push git policy remote branch false)
  unfolding push
  push-Keeps remote branch history h =
      bind_keeps (Guarded policy) (named_or_current git branch history) _
        (named-Keeps branch history h)
        (λ target after e g. require_keeps (Guarded policy) (not_empty target) _ _ after g (λ _.
          policy-Guarded policy (validate_push policy target) _ after g (λ ok.
            run-Guarded policy git _ after
              (λ _. inl (remote, target, refl, push-OnFlow policy target ok), λ k. cc, λ k. cc) g)))

  pub delete_branch-Keeps :
      (branch : String) (remote : Bool) → Keeps policy (delete_branch git branch remote)
  unfolding delete_branch
  delete_branch-Keeps branch remote history h =
      bind_keeps (Guarded policy) (check_branch branch history) _
        (check_branch-Keeps policy git branch history h)
        (λ u after e g.
          require_keeps (Guarded policy) _ _ _ after g (λ free. deleted remote after free g))
    where
      deleted :
          (remote : Bool) (after : List GitCall)
          → not (contains ("main" ∷ "master" ∷ "develop" ∷ []) branch) ≡ true
          → Guarded policy after
          → Guarded policy
              (run git
                (if remote
                  then "push" ∷ "origin" ∷ "--delete" ∷ branch ∷ []
                  else "branch" ∷ "-d" ∷ branch ∷ [])
                after).1
      deleted true after free g =
          run-Guarded policy git _ after
            (λ _. inr (branch, refl, not-true _ free), λ k. cc, λ k. cc) g
      deleted false after free g = Plain-Guarded policy git _ after (refl, refl, refl) g

  pub checkout-Keeps :
      (branch : String) (create : Bool) → Keeps policy (checkout git policy branch create)
  unfolding checkout
  checkout-Keeps branch true history h =
      require_keeps (Guarded policy) (not_blank branch) _ _ history h (λ _.
        bind_keeps (Guarded policy)
          ((current_branch git >>= λ base.
              validate_policy (validate_branch policy branch (some base)))
            history)
          _
          (bind_keeps (Guarded policy) (current_branch git history) _
            (current_branch-Keeps policy git history h)
            (λ base after e g. last_policy-Guarded policy _ after g))
          (λ u after e g. Plain-Guarded policy git _ after (refl, refl, refl) g))
  checkout-Keeps branch false history h =
      require_keeps (Guarded policy) (not_blank branch) _ _ history h
        (λ _. Plain-Guarded policy git _ history (refl, refl, refl) h)

  pub create_branch-Keeps :
      (branch : String) (base : Option String) → Keeps policy (create_branch git policy branch base)
  unfolding create_branch
  create_branch-Keeps branch base history h =
      bind_keeps (Guarded policy) (check_branch branch history) _
        (check_branch-Keeps policy git branch history h)
        (λ u after e g.
          bind_keeps (Guarded policy) (named_or_current git base after) _ (named-Keeps base after g)
            (λ start later e2 g2.
              policy-Guarded policy (validate_branch policy branch (some start))
                (run git ("switch" ∷ "-c" ∷ branch ∷ given_text base)) later g2
                (λ ok. Plain-Guarded policy git _ later (refl, refl, refl) g2)))
