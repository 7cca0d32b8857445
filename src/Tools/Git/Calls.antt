-- ===== src/Tools/Git/Calls.antt =====
-- What a call of git leaves behind, whatever git answers: the lemmas are on Guarded.
use md_harness.Tools.Git.{GitCall, GitProgram, call, failure, run, validate_policy}
use md_harness.Tools.Git.Lines.{strip}
use md_harness.Tools.Git.Guarded.{Allowed, Guarded, starts_command}
use md_harness.Security.Gitflow.{GitflowPolicy}
use md_harness.Prelude.{
  Bool-cases, inl, inr, ◌≡◌, refl, String, Bool, true, false, not, Option, none, some, List, ◌∷◌,
  string_eq,
}
use md_harness.Effects.{Error, Action, pure, ◌>>=◌, ◌>>◌, require, runtime_error}

-- A command that is no push, no commit and no merge.
abbrev pub Plain : List String → Type 0
Plain command =
    (starts_command "push" command ≡ false)
    × (starts_command "commit" command ≡ false)
    × (starts_command "merge" command ≡ false)

module _ (policy : GitflowPolicy) where
  pub Plain-Allowed :
      (before : List GitCall) (command : List String)
      → Plain command
      → Allowed policy before command
  Plain-Allowed before command (push, commit, merge) = (λ e. cc, λ e. cc, λ e. cc)

  -- The check of the return code.
  checked-Guarded :
      {A : Type 0} (failed : Bool) (e : Error) (text : String)
      (f : String → Action (List GitCall) A) (after : List GitCall)
      → Guarded policy after
      → Guarded policy (f text after).1
      → Guarded policy (((require (not failed) e >> pure text) >>= f) after).1
  checked-Guarded true e text f after h k = h
  checked-Guarded false e text f after h k = k

  pub last_policy-Guarded :
      (o : Option String) (history : List GitCall)
      → Guarded policy history
      → Guarded policy (validate_policy o history).1
  last_policy-Guarded none history h = h
  last_policy-Guarded (some message) history h = h

  pub policy-Guarded :
      {A : Type 0} (o : Option String) (rest : Action (List GitCall) A) (history : List GitCall)
      → Guarded policy history
      → (o ≡ none → Guarded policy (rest history).1)
      → Guarded policy ((validate_policy o >> rest) history).1
  policy-Guarded none rest history h k = k refl
  policy-Guarded (some message) rest history h k = h

  module _ (git : GitProgram) where
    -- A call with the answer of git.
    abbrev pub made_call : List String → List GitCall → GitCall
    made_call args history = record { command = args; completed = git history args }

    pub run_then :
        {A : Type 0} (args : List String) (f : String → Action (List GitCall) A)
        (history : List GitCall)
        → Allowed policy history args
        → Guarded policy history
        → (Guarded policy (made_call args history ∷ history)
            → Guarded policy
                (f (strip (git history args).stdout) (made_call args history ∷ history)).1)
        → Guarded policy ((run git args >>= f) history).1
    unfolding run call Guarded
    run_then args f history allowed h k =
        checked-Guarded (git history args).failed (runtime_error (failure args (git history args)))
          (strip (git history args).stdout) f (made_call args history ∷ history) (allowed, h)
          (k (allowed, h))

    pub run-Guarded :
        (args : List String) (history : List GitCall)
        → Allowed policy history args
        → Guarded policy history
        → Guarded policy (run git args history).1
    unfolding run call Guarded
    run-Guarded args history allowed h = elim (Bool-cases (git history args).failed) [
      | inl e ↦ rw e (allowed, h)
      | inr e ↦ rw e (allowed, h)
    ]

    pub Plain-Guarded :
        (args : List String) (history : List GitCall)
        → Plain args
        → Guarded policy history
        → Guarded policy (run git args history).1
    Plain-Guarded args history plain h =
        run-Guarded args history (Plain-Allowed history args plain) h
