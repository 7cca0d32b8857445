-- ===== src/Engine/Refusals.antt =====
-- What the executor makes of a refusal by the policy of src/harness/security/tool_policy.py.
use md_harness.Plan.{PlanStep}
use md_harness.Prelude.{
  if◌then◌else◌, ◌==◌, contains, sql_eq, String, ◌≡◌, refl, ◌⊎◌, inl, inr, Bool, true, false, not,
  ◌&&◌, ◌||◌, Option, none, some, nat_eq, string_eq,
}
use md_harness.Schema.{ApprovalStatus, NextAction, WaitReason, approval_status_eq}
use md_harness.Engine.Errors.{
  ExecutionErrorType, PermissionLevel, ToolError, action_for, action_for_error, of_tool_error,
  reason_for,
}
use md_harness.Engine.Authorization.{
  ToolSecurityPolicy, ExecutionContext, is_git_read, reject_if, outside, check_workspace,
  needs_approval, is_network, is_destructive, is_read, scoped, authorize,
}
use md_harness.Engine.Registry.{Tool, deny}

-- The step is planned anew, or it waits for an approval.
abbrev pub Follows : ToolError → Type 0
Follows e =
    let error = of_tool_error e in
    let action = action_for_error error in
    ((action ≡ NextAction.replan) × (reason_for error action ≡ none))
    ⊎ ((action ≡ NextAction.wait) × (reason_for error action ≡ some WaitReason.approval))

abbrev Answers : Option ToolError → Type 0
Answers none = Unit
Answers (some e) = Follows e

either :
    (test : Bool) (error rest : Option ToolError)
    → Answers error
    → Answers rest
    → Answers (reject_if test error rest)
either true error rest h k = h
either false error rest h k = k

denied :
    Answers (deny ExecutionErrorType.unauthorized_tool)
    × Answers (deny ExecutionErrorType.tool_not_found)
    × Answers (deny ExecutionErrorType.workspace_error)
unfolding action_for_error action_for of_tool_error reason_for
denied = (inl (refl, refl), inl (refl, refl), inl (refl, refl))

blocked : (permission : PermissionLevel) → Answers (needs_approval permission)
unfolding action_for_error action_for of_tool_error reason_for
blocked permission = inr (refl, refl)

check_workspace-Answers :
    (inside : String → String → Bool) (tool : Tool) (workspace : Option String)
    → Answers (check_workspace inside tool workspace)
unfolding check_workspace
check_workspace-Answers inside tool none = denied.2
check_workspace-Answers inside tool (some workspace) = either (workspace == "") _ _ denied.2 (
    either (outside inside workspace tool.root || outside inside workspace tool.path) _ _ denied.2
      tt)

authorize-Answers :
    (inside : String → String → Bool) (policy : ToolSecurityPolicy) (step : PlanStep) (tool : Tool)
    (context : ExecutionContext)
    → Answers (authorize inside policy step tool context)
unfolding authorize
authorize-Answers inside policy step tool context =
    let name = tool.tool_name in
    either (not (sql_eq step.tool name)) _ _ denied.0 (
      either (not (contains context.available_tools name)) _ _ denied.1 (
        either
          (is_network tool.permission && not policy.allow_network && not (is_git_read step name)) _
          _ denied.0
          (either (is_destructive tool.permission && not policy.allow_destructive) _ _ denied.0 (
            either
              (not (
                  not policy.require_approval || context.approval_status == ApprovalStatus.approved)
                || not (scoped step tool context.approval_checker))
              _ _ (blocked tool.permission)
              (either
                (context.dry_run
                  && not (is_read tool.permission)
                  && not policy.dry_run_allows_writes)
                _ _ denied.0 (by_workspace policy.enforce_workspace))))))
  where
    by_workspace :
        (b : Bool) → Answers (if b then check_workspace inside tool context.workspace else none)
    by_workspace true = check_workspace-Answers inside tool context.workspace
    by_workspace false = tt

-- A refusal is never tried again: the step is planned anew, or the task waits for an approval.
pub authorize-Follows :
    (inside : String → String → Bool) (policy : ToolSecurityPolicy) (step : PlanStep) (tool : Tool)
    (context : ExecutionContext) {e : ToolError}
    → authorize inside policy step tool context ≡ some e
    → Follows e
authorize-Follows inside policy step tool context refused =
    let answer = authorize-Answers inside policy step tool context in rw refused at answer
