-- ===== src/Engine/Validator/Findings.antt =====
-- When the checks of the evidence find no error.
use md_harness.Engine.Validator.Lists.{all_iff, append_iff, failing_iff, all-sorted_set}
use md_harness.Prelude.{
  if◌then◌else◌, Bool-cases, All, ◌==◌, String, ◌≡◌, sym, ◌∙◌, ◌↔◌, inl, inr, Bool, true, false,
  not, List, [], nat_eq, string_eq,
}
use md_harness.Json.{Json}
use md_harness.Json.Equality.{Floats}
use md_harness.Plan.{PlanStep}
use md_harness.Text.{occurs_in}
use md_harness.Engine.Outcomes.{
  ToolOutput, Execution, content_mismatch, git_change_missing, unexpected_file, missing_diff,
  forbidden_diff,
}
use md_harness.Engine.Evidence.{
  metadata_texts, writes_in, sorted_set, failing, content_kept, git_evidence, permitted,
  evidence_errors,
}

module _ (f : Floats) (shown : ToolOutput → String) where
  module _ (plan : List PlanStep) (execution : Execution) where
    abbrev pub diff : String
    diff = git_evidence f shown plan execution.steps

    abbrev pub kept : String × Json → Bool
    kept = content_kept f shown plan execution.steps

    abbrev pub in_evidence : String × Json → Bool
    in_evidence w = occurs_in diff w.0

    abbrev pub diffed : List (String × Json)
    diffed = if diff == "" then [] else writes_in [] plan

    abbrev pub changed : List String
    changed = sorted_set execution.changed_files

    abbrev pub absent : String → Bool
    absent part = not (occurs_in diff part)

    abbrev pub wanted : List String
    wanted = metadata_texts "required_in_diff" plan

    abbrev pub unwanted : List String
    unwanted = metadata_texts "forbidden_in_diff" plan

    abbrev pub Clean : Type 0
    Clean =
        All (λ w. kept w ≡ true) (writes_in [] plan)
        × (All (λ w. in_evidence w ≡ true) diffed
            × (All (λ path. permitted f shown plan path ≡ true) changed
                × (All (λ part. occurs_in diff part ≡ true) wanted
                    × All (λ part. absent part ≡ true) unwanted)))

    pub sorted_iff :
        (p : String → Bool) (xs : List String)
        → All (λ x. p x ≡ true) (sorted_set xs) ↔ All (λ x. p x ≡ true) xs
    sorted_iff p xs = (
      λ h. (all_iff p xs).0 (sym (all-sorted_set p xs) ∙ (all_iff p (sorted_set xs)).1 h),
      λ h. (all_iff p (sorted_set xs)).0 (all-sorted_set p xs ∙ (all_iff p xs).1 h),
    )

    pub clean_iff : (evidence_errors f shown plan execution ≡ []) ↔ Clean
    unfolding evidence_errors
    clean_iff =
        append_iff (failing kept (λ w. content_mismatch w.0) (writes_in [] plan)) _
          (failing_iff kept _ (writes_in [] plan))
          (append_iff (failing in_evidence (λ w. git_change_missing w.0) diffed) _
            (failing_iff in_evidence _ diffed)
            (append_iff (failing (permitted f shown plan) unexpected_file changed) _
              (failing_iff (permitted f shown plan) unexpected_file changed)
              (append_iff (failing (occurs_in diff) missing_diff wanted) _
                (failing_iff (occurs_in diff) missing_diff wanted)
                (failing_iff absent forbidden_diff unwanted))))

    pub diffed_iff :
        All (λ w. in_evidence w ≡ true) diffed
        ↔ ((diff == "") ≡ false → All (λ w. in_evidence w ≡ true) (writes_in [] plan))
    diffed_iff = elim (Bool-cases (diff == "")) [
      | inl e ↦ (λ h e'. cc, λ h. rw e tt)
      | inr e ↦ (λ h _. rw e at h, λ h. rw e (h e))
    ]
