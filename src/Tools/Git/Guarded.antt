-- ===== src/Tools/Git/Guarded.antt =====
-- When GitRepository of src/harness/tools/git.py may push, commit and merge.
use md_harness.Tools.Git.{GitCall}
use md_harness.Tools.Git.Lines.{strip}
use md_harness.Security.Gitflow.{
  GitflowPolicy, starts_with_any, protected_names, may_merge, validate_branch, validate_commit,
  validate_push, validate_merge,
}
use md_harness.Prelude.{
  or_false, ◌||◌, ◌∙◌, if◌then◌else◌, Bool-cases, eq_iff, contains, ◌==◌, ◌⊎◌, inl, inr, ◌≡◌, refl,
  String, Bool, true, false, none, some, List, [], ◌∷◌, arith, string_eq,
}
use md_harness.Text.{is_blank, starts_with}

-- The first word of a command.
abbrev pub starts_command : String → List String → Bool
starts_command name [] = false
starts_command name (word ∷ words) = word == name

abbrev pub flow_prefixes : List String
flow_prefixes = "feature/" ∷ "release/" ∷ "hotfix/" ∷ []

-- A branch of the flow that is not protected.
abbrev pub OnFlow : GitflowPolicy → String → Type 0
OnFlow policy branch =
    (contains (protected_names policy) branch ≡ false)
    × (starts_with_any flow_prefixes branch ≡ true)

-- A push names a branch of the flow, or deletes a branch that is not one of three.
abbrev pub PushAllowed : GitflowPolicy → List String → Type 0
PushAllowed policy command =
    ((remote target : String) × (command ≡ "push" ∷ remote ∷ target ∷ []) × OnFlow policy target)
    ⊎ ((branch : String) × (command ≡ "push" ∷ "origin" ∷ "--delete" ∷ branch ∷ [])
        × (contains ("main" ∷ "master" ∷ "develop" ∷ []) branch ≡ false))

-- The calls before the `git add` that may stand last.
abbrev pub before_add : List GitCall → List GitCall
before_add [] = []
before_add (last ∷ before) = if starts_command "add" last.command then before else last ∷ before

-- git said just before on which branch it is, and whether there is a commit: either there is none, or
-- the branch is of the flow.
abbrev pub Checked : GitflowPolicy → List GitCall → Type 0
Checked policy before =
    (head shown : GitCall) × (earlier : List GitCall) × (before ≡ head ∷ shown ∷ earlier)
    × (shown.command ≡ "branch" ∷ "--show-current" ∷ [])
    × (head.command ≡ "rev-parse" ∷ "--verify" ∷ "HEAD" ∷ [])
    × ((head.completed.failed ≡ true) ⊎ OnFlow policy (strip shown.completed.stdout))

-- git said just before on which branch it is, and the flow merges the source into that branch.
abbrev pub MergeAllowed : GitflowPolicy → List GitCall → List String → Type 0
MergeAllowed policy before command =
    (shown : GitCall) × (earlier : List GitCall) × (source : String) × (before ≡ shown ∷ earlier)
    × (shown.command ≡ "branch" ∷ "--show-current" ∷ [])
    × ((command ≡ "merge" ∷ source ∷ []) ⊎ (command ≡ "merge" ∷ "--no-ff" ∷ source ∷ []))
    × (may_merge policy source (strip shown.completed.stdout) ≡ true)

abbrev pub Allowed : GitflowPolicy → List GitCall → List String → Type 0
Allowed policy before command =
    (starts_command "push" command ≡ true → PushAllowed policy command)
    × (starts_command "commit" command ≡ true → Checked policy (before_add before))
    × (starts_command "merge" command ≡ true → MergeAllowed policy before command)

-- Every call was allowed when it was made.
unfoldable pub Guarded : GitflowPolicy → List GitCall → Type 0
Guarded policy [] = Unit {0}
Guarded policy (last ∷ before) = Allowed policy before last.command × Guarded policy before

-- What passed the policy.
beq_sym : (a b : String) → (a == b) ≡ (b == a)
beq_sym a b = ground (arith, eq_iff a b, eq_iff b a)

prefix_of :
    (feature release hotfix : Bool) (message : String)
    → (if feature || (release || false) then none else if hotfix then none else some message) ≡ none
    → (feature || (release || (hotfix || false))) ≡ true
prefix_of true release hotfix message h = refl
prefix_of false true hotfix message h = refl
prefix_of false false true message h = refl
prefix_of false false false message h = cc

pub branch-OnFlow :
    (policy : GitflowPolicy) (branch : String)
    → contains (protected_names policy) branch ≡ false
    → validate_branch policy branch none ≡ none
    → OnFlow policy branch
unfolding validate_branch
branch-OnFlow policy branch free h =
    let development = policy.development_branch in
    let (other_stable, rest) = or_false (policy.stable_branch == branch) _ free in
    let (other_master, last) = or_false ("master" == branch) _ rest in
    let other : (branch == development) ≡ false =
      beq_sym branch development ∙ (or_false (development == branch) false last).0 in
    (
      free,
      elim (Bool-cases (is_blank branch)) [
        | inl e ↦ cc (rw e at h)
        | inr e ↦
            prefix_of (starts_with branch "feature/") (starts_with branch "release/")
              (starts_with branch "hotfix/") _ (rw (e, other, other_stable, other_master) at h)
      ],
    )

pub push-OnFlow :
    (policy : GitflowPolicy) (branch : String)
    → validate_push policy branch ≡ none
    → OnFlow policy branch
unfolding validate_push
push-OnFlow policy branch h = elim (Bool-cases (contains (protected_names policy) branch)) [
  | inl e ↦ cc (rw e at h)
  | inr e ↦ branch-OnFlow policy branch e (rw e at h)
]

pub commit-OnFlow :
    (policy : GitflowPolicy) (branch : String) (initial : Bool)
    → validate_commit policy branch initial ≡ none
    → (initial ≡ true) ⊎ OnFlow policy branch
unfolding validate_commit
commit-OnFlow policy branch true h = inl refl
commit-OnFlow policy branch false h = elim (Bool-cases (contains (protected_names policy) branch)) [
  | inl e ↦ cc (rw e at h)
  | inr e ↦ inr (branch-OnFlow policy branch e (rw e at h))
]

pub merge_lem :
    (policy : GitflowPolicy) (source target : String)
    → validate_merge policy source target ≡ none
    → may_merge policy source target ≡ true
unfolding validate_merge
merge_lem policy source target h = elim (Bool-cases (may_merge policy source target)) [
  | inl e ↦ e
  | inr e ↦ cc (rw e at h)
]
