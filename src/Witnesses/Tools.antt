-- ===== src/Witnesses/Tools.antt =====
-- Authorization of git in a dry run.
use md_harness.Prelude.{
  String, ◌≡◌, refl, Bool, true, false, none, some, [], ◌∷◌, nat_eq, string_eq,
}
use md_harness.Json.{get_member, string, no_members, member}
use md_harness.Plan.{PlanStep}
use md_harness.Schema.{ApprovalStatus, approval_status_eq}
use md_harness.Engine.Errors.{ExecutionErrorType, PermissionLevel, no_details, ToolError}
use md_harness.Engine.Authorization.{
  default_policy, ExecutionContext, is_truthy, operation_in, operation, is_network, authorize,
  has_external_effect,
}
use md_harness.Engine.DryRun.{authorize-network}
use md_harness.Engine.Refusals.{Follows, authorize-Follows}
use md_harness.Engine.Registry.{Tool}

-- Every path lies in the workspace.
abbrev anywhere : String → String → Bool
anywhere value workspace = true

abbrev git_log : PlanStep
git_log = record {
  id = "s1";
  description = "history";
  action = "tool";
  tool = some "git";
  arguments = member "operation" (string "log") no_members;
  acceptance_criteria = [];
  test_criteria = [];
  depends_on = [];
  metadata = no_members;
}

abbrev git_tool : Tool
git_tool = record {
  tool_name = "git";
  permission = PermissionLevel.network;
  parameters = record { name = "operation"; type = "string"; required = true } ∷ [];
  root = some "/work/project";
  path = none;
}

abbrev file_tool : Tool
file_tool = record {
  tool_name = "filesystem";
  permission = PermissionLevel.read;
  parameters = record { name = "operation"; type = "string"; required = true } ∷ [];
  root = some "/work/project";
  path = none;
}

abbrev read_file : PlanStep
read_file = record git_log {
  tool = some "filesystem";
  arguments = member "operation" (string "read") no_members;
}

abbrev approved_context : Bool → ExecutionContext
approved_context dry_run = record {
  available_tools = "git" ∷ "filesystem" ∷ [];
  workspace = some "/work/project";
  dry_run = dry_run;
  approval_status = ApprovalStatus.approved;
  approval_checker = none;
}

git_log-authorized :
    authorize anywhere default_policy git_log git_tool (approved_context false) ≡ none
unfolding authorize operation get_member operation_in is_truthy
git_log-authorized = refl

authorize-network_example :
    (git_log.tool ≡ some "git") × (has_external_effect git_log git_tool.permission ≡ false)
authorize-network_example =
    authorize-network anywhere default_policy git_log git_tool (approved_context false) refl
      (unfold is_network in refl) git_log-authorized

abbrev pending_context : ExecutionContext
pending_context = record (approved_context false) { approval_status = ApprovalStatus.pending }

abbrev missing_approval : ToolError
missing_approval = record {
  error_type = ExecutionErrorType.external_blocker;
  details = record no_details {
    approval_required = true;
    permission_scope = some PermissionLevel.network;
  };
}

git_log-refused :
    authorize anywhere default_policy git_log git_tool pending_context ≡ some missing_approval
unfolding authorize operation get_member operation_in is_truthy
git_log-refused = refl

authorize-Follows_example : Follows missing_approval
authorize-Follows_example =
    authorize-Follows anywhere default_policy git_log git_tool pending_context git_log-refused
