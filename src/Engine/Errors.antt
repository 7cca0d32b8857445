-- ===== src/Engine/Errors.antt =====
-- The errors of a stage and the action that follows one: src/harness/engine/result.py, and
-- ToolError of src/harness/tools/base.py.
use md_harness.Prelude.{if◌then◌else◌, Bool, true, false, Option, none, some}
use md_harness.Schema.{NextAction, WaitReason}

pub data ExecutionErrorType : Type 0 where
  tool_not_found unauthorized_tool invalid_arguments tool_failure workspace_error external_blocker
        invalid_next_action :
      ExecutionErrorType

pub data PermissionLevel : Type 0 where
  read write destructive network : PermissionLevel

-- The keys of `details` that the code asks for, as `details.get(key)` answers.
pub record Details : Type 0 where
  pub approval_required : Bool
  pub permission_scope : Option PermissionLevel
  pub permission_required : Bool
  pub approval_expected : Bool

abbrev pub no_details : Details
no_details = record {
  approval_required = false;
  permission_scope = none;
  permission_required = false;
  approval_expected = false;
}

-- A ToolError, its message apart.
pub record ToolError : Type 0 where
  pub error_type : ExecutionErrorType
  pub details : Details

pub record ExecutionError : Type 0 where
  pub error_type : ExecutionErrorType
  pub retryable : Bool
  pub details : Details

unfoldable pub action_for : ExecutionErrorType → Bool → Details → NextAction
action_for external_blocker retryable details = NextAction.wait
action_for workspace_error retryable details =
    if details.permission_required
    then if details.approval_expected then NextAction.wait else NextAction.replan
    else if retryable
    then NextAction.retry_execution
    else NextAction.replan
action_for tool_failure retryable details =
    if retryable then NextAction.retry_execution else NextAction.replan
action_for tool_not_found retryable details = NextAction.replan
action_for unauthorized_tool retryable details = NextAction.replan
action_for invalid_arguments retryable details = NextAction.replan
action_for invalid_next_action retryable details = NextAction.replan

unfoldable pub action_for_error : ExecutionError → NextAction
unfolding action_for
action_for_error e = action_for e.error_type e.retryable e.details

-- The error and the wait reason that the executor makes of a ToolError.
unfoldable pub of_tool_error : ToolError → ExecutionError
of_tool_error e = record {
  error_type = e.error_type;
  retryable = elim e.error_type [ tool_failure ↦ true | _ ↦ false ];
  details = e.details;
}

-- `wait_reason`, for the action of a failed step.
unfoldable pub reason_for : ExecutionError → NextAction → Option WaitReason
reason_for e NextAction.wait =
    if e.details.approval_required then some WaitReason.approval else elim e.error_type [
      | external_blocker ↦ some WaitReason.external_information
      | _ ↦ some WaitReason.approval
    ]
reason_for e NextAction.validate = none
reason_for e NextAction.retry_execution = none
reason_for e NextAction.replan = none
reason_for e NextAction.stop = none
