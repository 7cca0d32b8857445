-- ===== src/Security/Gitflow.antt =====
-- GitflowPolicy of src/harness/security/gitflow_policy.py. A check gives the message of the
-- GitflowPolicyError that it raises, or nothing.
use Prim.Native.String
use md_harness.Prelude.{
  if◌then◌else◌, is_some, any, ◌==◌, contains, String, Bool, false, not, ◌&&◌, ◌||◌, Option, none,
  some, List, [], ◌∷◌, string_eq,
}
use md_harness.Text.{starts_with, is_blank}

pub record GitflowPolicy : Type 0 where
  pub stable_branch : String
  pub development_branch : String

-- The fields' defaults.
abbrev pub gitflow_policy : GitflowPolicy
gitflow_policy = record { stable_branch = "main"; development_branch = "develop" }

-- `text.startswith((…))`
abbrev pub starts_with_any : List String → String → Bool
starts_with_any prefixes text = any (λ prefix. starts_with text prefix) prefixes

-- `base is not None and base not in {…}`
abbrev pub differs : Option String → List String → Bool
differs none names = false
differs (some base) names = not (contains names base)

abbrev pub require_base : String → Option String → String → Option String
require_base branch base expected =
    if differs base (expected ∷ [])
    then some (String.◌++◌ branch (String.◌++◌ " must start from " expected))
    else none

module _ (policy : GitflowPolicy) where
  abbrev pub stable_names : List String
  stable_names = policy.stable_branch ∷ "master" ∷ []

  abbrev pub protected_names : List String
  protected_names = policy.stable_branch ∷ "master" ∷ policy.development_branch ∷ []

  abbrev pub target_names : List String
  target_names = policy.development_branch ∷ policy.stable_branch ∷ "master" ∷ []

  abbrev pub flow_branch : String → Option String → Option String
  flow_branch branch base =
      if starts_with_any ("feature/" ∷ "release/" ∷ []) branch
      then require_base branch base policy.development_branch
      else if starts_with branch "hotfix/"
      then require_base branch base policy.stable_branch
      else some (String.◌++◌ "unsupported Gitflow branch: " branch)

  unfoldable pub validate_branch : String → Option String → Option String
  unfolding is_blank
  validate_branch branch base =
      if is_blank branch
      then some "branch must not be empty"
      else if branch == policy.development_branch
      then (if differs base stable_names
          then some (
              String.◌++◌ policy.development_branch
                (String.◌++◌ " must start from " policy.stable_branch))
          else none)
      else if contains stable_names branch
      then (if is_some base
          then some "stable branches cannot be created from a feature flow"
          else none)
      else flow_branch branch base

  unfoldable pub validate_commit : String → Bool → Option String
  unfolding validate_branch
  validate_commit branch initial_commit =
      if initial_commit
      then none
      else if contains protected_names branch
      then some (String.◌++◌ "direct commits are not allowed on protected branch: " branch)
      else validate_branch branch none

  unfoldable pub validate_push : String → Option String
  unfolding validate_branch
  validate_push branch =
      if contains protected_names branch
      then some (String.◌++◌ "direct pushes are not allowed on protected branch: " branch)
      else validate_branch branch none

  abbrev pub may_merge : String → String → Bool
  may_merge source target =
      starts_with source "feature/" && target == policy.development_branch
      || starts_with source "release/" && contains target_names target
      || starts_with source "hotfix/" && contains target_names target

  unfoldable pub validate_merge : String → String → Option String
  validate_merge source target =
      if may_merge source target
      then none
      else some (
          String.◌++◌ "Gitflow does not allow merging "
            (String.◌++◌ source (String.◌++◌ " into " target)))
