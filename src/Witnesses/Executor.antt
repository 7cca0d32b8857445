-- ===== src/Witnesses/Executor.antt =====
-- A run of the executor on a plan with one call of git, in a world that is the list of calls.
use md_harness.Prelude.{
  All, ◌==◌, String, ◌≡◌, refl, true, false, none, some, List, [], ◌∷◌, arith, nat_eq, string_eq,
}
use md_harness.Effects.{return, pure}
use md_harness.Sql.{fetchone}
use md_harness.Json.{get_member, string, no_members, member}
use md_harness.Plan.{PlanStep, ExecutionPlan}
use md_harness.Schema.{ApprovalStatus, approval_status_eq}
use md_harness.Engine.Errors.{PermissionLevel}
use md_harness.Engine.Registry.{
  Tool, has_unknown, is_missing, has_type, check_value, check_arguments, validate_arguments,
  find_tool,
}
use md_harness.Engine.Authorization.{
  default_policy, is_unhashable, authorize_raises, effect_raises, is_truthy, operation_in,
  operation, authorize, has_external_effect,
}
use md_harness.Engine.Steps.{other, returned, normalized, test_failed}
use md_harness.Engine.Executor.{Environment, finish, invoke, execute}
use md_harness.Engine.Executor.Calls.{Keeps, execute-Keeps}
use md_harness.Engine.Executor.Simulation.{KeepsDry, execute-dry_run}

abbrev history_step : PlanStep
history_step = record {
  id = "s1";
  description = "history";
  action = "tool";
  tool = some "git";
  arguments = member "operation" (string "log") no_members;
  acceptance_criteria = [];
  test_criteria = [];
  depends_on = [];
  metadata = no_members;
}

abbrev one_call : ExecutionPlan
one_call = record {
  goal = "look";
  steps = history_step ∷ [];
  assumptions = [];
  risks = [];
  version = 1;
  replanned_from = none;
  reason = none;
}

abbrev only_git : List Tool
only_git =
    record {
      tool_name = "git";
      permission = PermissionLevel.network;
      parameters = record { name = "operation"; type = "string"; required = true } ∷ [];
      root = none;
      path = none;
    }
    ∷ []

abbrev logging : Environment (List String)
logging = record {
  tools = only_git;
  policy = default_policy;
  inside = λ value workspace. true;
  context = record {
    available_tools = "git" ∷ [];
    workspace = some "/work";
    dry_run = false;
    approval_status = ApprovalStatus.approved;
    approval_checker = none;
  };
  run_tool = λ name arguments log. (return (returned other), name ∷ log);
  ownership_guard = pure tt;
  invocation_pending = pure none;
  invocation_begin = none;
  invocation_complete = λ id done_step. pure tt;
}

-- The run does call the tool.
one_call-runs : (execute logging one_call [] []).1 ≡ "git" ∷ []
unfolding execute find_tool fetchone authorize validate_arguments has_external_effect invoke
    operation get_member operation_in authorize_raises effect_raises is_unhashable is_truthy
    has_unknown is_missing check_arguments check_value has_type finish normalized test_failed
one_call-runs = refl

abbrev OnlyGit : List String → Type 0
OnlyGit log = All (λ name. ("git" == name) ≡ true) log

registered-git :
    (name : String) {tool : Tool} → find_tool name only_git ≡ some tool → ("git" == name) ≡ true
unfolding find_tool fetchone
registered-git name found = ground arith

logging-Keeps : Keeps logging one_call OnlyGit
logging-Keeps = record {
  guard_keeps = λ w h. h;
  pending_keeps = λ w h. h;
  begin_keeps = λ b journal step permission w h. cc;
  complete_keeps = λ id done_step w h. h;
  call_keeps = λ name step w allowed h. (registered-git name allowed.registered, h);
}

execute-Keeps_example : OnlyGit (execute logging one_call [] []).1
execute-Keeps_example = execute-Keeps logging one_call OnlyGit logging-Keeps [] [] tt

abbrev simulated : Environment (List String)
simulated = record logging { context = record (logging.context) { dry_run = true } }

simulated-KeepsDry : KeepsDry simulated one_call OnlyGit
simulated-KeepsDry = record {
  guard_dry = λ w h. h;
  pending_dry = λ w h. h;
  begin_dry = λ b journal step permission w h. cc;
  complete_dry = λ id done_step w h. h;
  harmless_dry = λ name step tool w found effect h. (registered-git name found, h);
  tests_dry = λ name step tool w found at_tests h. (registered-git name found, h);
}

execute-dry_run_example : OnlyGit (execute simulated one_call [] []).1
execute-dry_run_example =
    execute-dry_run simulated one_call OnlyGit refl refl simulated-KeepsDry [] [] tt
