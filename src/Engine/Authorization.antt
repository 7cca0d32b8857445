-- ===== src/Engine/Authorization.antt =====
-- ToolSecurityPolicy of src/harness/security/tool_policy.py, and Executor._has_external_effect of
-- src/harness/engine/executor.py. Whether a path lies in the workspace is a parameter: what
-- `Path(value).expanduser().resolve().relative_to(workspace)` answers.
use md_harness.Prelude.{
  if◌then◌else◌, ◌==◌, contains, sql_eq, String, Bool, true, false, not, ◌&&◌, ◌||◌, Option, none,
  some, List, [], ◌∷◌, nat_eq, string_eq,
}
use md_harness.Json.{
  Json, null, boolean, integer, decimal, string, array, object, no_items, item, no_members, member,
  get_member,
}
use md_harness.Plan.{PlanStep}
use md_harness.Schema.{ApprovalStatus, approval_status_eq}
use md_harness.Engine.Errors.{
  ExecutionErrorType, PermissionLevel, read, write, destructive, network, no_details, ToolError,
}
use md_harness.Engine.Registry.{Tool, deny}

pub record ToolSecurityPolicy : Type 0 where
  pub allow_network : Bool
  pub allow_destructive : Bool
  pub require_approval : Bool
  pub enforce_workspace : Bool
  pub dry_run_allows_writes : Bool

-- The fields' defaults.
abbrev pub default_policy : ToolSecurityPolicy
default_policy = record {
  allow_network = false;
  allow_destructive = false;
  require_approval = true;
  enforce_workspace = true;
  dry_run_allows_writes = false;
}

-- What `authorize` reads of the context.
pub record ExecutionContext : Type 0 where
  pub available_tools : List String
  pub workspace : Option String
  pub dry_run : Bool
  pub approval_status : ApprovalStatus
  pub approval_checker : Option (PlanStep → Tool → Bool)

-- `bool(value)` of a JSON value
unfoldable pub truthy : Json → Bool
truthy null = false
truthy (boolean b) = b
truthy (integer negative n) = not (n == 0)
truthy (decimal repr) = not (repr == "0.0" || repr == "-0.0")
truthy (string s) = not (s == "")
truthy (array no_items) = false
truthy (array (item x xs)) = true
truthy (object no_members) = false
truthy (object (member k x xs)) = true

unfoldable pub is_truthy : Option Json → Bool
unfolding truthy
is_truthy none = false
is_truthy (some value) = truthy value

-- A value that cannot be hashed: with it, `value in {…}` raises a TypeError.
unfoldable pub is_unhashable : Option Json → Bool
is_unhashable (some (array xs)) = true
is_unhashable (some (object ms)) = true
is_unhashable _ = false

-- `step.arguments.get("operation") in {…}` behind the check that the value can be hashed
unfoldable pub operation_in : Option Json → List String → Bool
operation_in (some (string s)) names = contains names s
operation_in _ names = false

-- The names in `authorize`.
abbrev pub network_free_reads : List String
network_free_reads = "status" ∷ "diff" ∷ "diff_stat" ∷ "changed_files" ∷ "branch" ∷ "log" ∷ []

-- The names in `_has_external_effect`, listed there again.
abbrev pub git_reads : List String
git_reads = "status" ∷ "diff" ∷ "diff_stat" ∷ "changed_files" ∷ "branch" ∷ "log" ∷ []

abbrev pub file_reads : List String
file_reads = "read" ∷ "list" ∷ "exists" ∷ []

unfoldable pub operation : PlanStep → Option Json
unfolding get_member
operation step = get_member "operation" step.arguments

unfoldable pub is_git_read : PlanStep → String → Bool
unfolding operation operation_in
is_git_read step tool_name = tool_name == "git" && operation_in (operation step) network_free_reads

-- What raises: the checks in the order of the source; `none` is a tool that may run.
abbrev pub reject_if : Bool → Option ToolError → Option ToolError → Option ToolError
reject_if true error rest = error
reject_if false error rest = rest

abbrev pub outside : (String → String → Bool) → String → Option String → Bool
outside inside workspace none = false
outside inside workspace (some value) = not (inside value workspace)

unfoldable pub check_workspace : (String → String → Bool) → Tool → Option String → Option ToolError
check_workspace inside tool none = deny ExecutionErrorType.workspace_error
check_workspace inside tool (some workspace) =
    reject_if (workspace == "") (deny ExecutionErrorType.workspace_error) (
      reject_if (outside inside workspace tool.root || outside inside workspace tool.path)
        (deny ExecutionErrorType.workspace_error) none)

abbrev pub needs_approval : PermissionLevel → Option ToolError
needs_approval permission = some (record {
  error_type = ExecutionErrorType.external_blocker;
  details = record no_details { approval_required = true; permission_scope = some permission };
})

unfoldable pub is_network : PermissionLevel → Bool
is_network network = true
is_network read = false
is_network write = false
is_network destructive = false

unfoldable pub is_destructive : PermissionLevel → Bool
is_destructive destructive = true
is_destructive read = false
is_destructive write = false
is_destructive network = false

unfoldable pub is_read : PermissionLevel → Bool
is_read read = true
is_read write = false
is_read destructive = false
is_read network = false

unfoldable pub scoped : PlanStep → Tool → Option (PlanStep → Tool → Bool) → Bool
unfolding is_truthy get_member
scoped step tool (some checker) = checker step tool
scoped step tool none = not (is_truthy (get_member "requires_approval" step.metadata))

-- `authorize` comes to `operation in {…}` with an operation that cannot be hashed.
unfoldable pub authorize_raises : PlanStep → Tool → ExecutionContext → Bool
unfolding operation is_unhashable
authorize_raises step tool context =
    let name = tool.tool_name in
    sql_eq step.tool name
    && contains context.available_tools name
    && name == "git"
    && is_unhashable (operation step)

-- What `authorize` raises of its own, when `authorize_raises` answers false; the executor asks that
-- first.
unfoldable pub authorize :
    (String → String → Bool)
    → ToolSecurityPolicy
    → PlanStep
    → Tool
    → ExecutionContext
    → Option ToolError
unfolding is_git_read is_network is_destructive is_read scoped check_workspace
authorize inside policy step tool context =
    let name = tool.tool_name in
    let permission = tool.permission in
    let approved =
      not policy.require_approval || context.approval_status == ApprovalStatus.approved in
    reject_if (not (sql_eq step.tool name)) (deny ExecutionErrorType.unauthorized_tool) (
      reject_if (not (contains context.available_tools name))
        (deny ExecutionErrorType.tool_not_found)
        (reject_if
          (is_network permission && not policy.allow_network && not (is_git_read step name))
          (deny ExecutionErrorType.unauthorized_tool)
          (reject_if (is_destructive permission && not policy.allow_destructive)
            (deny ExecutionErrorType.unauthorized_tool)
            (reject_if (not approved || not (scoped step tool context.approval_checker))
              (needs_approval permission)
              (reject_if
                (context.dry_run && not (is_read permission) && not policy.dry_run_allows_writes)
                (deny ExecutionErrorType.unauthorized_tool)
                (if policy.enforce_workspace
                  then check_workspace inside tool context.workspace
                  else none))))))

-- `_has_external_effect` comes to `operation in {…}` with an operation that cannot be hashed.
unfoldable pub effect_raises : PlanStep → PermissionLevel → Bool
unfolding operation is_unhashable is_read
effect_raises step permission =
    not (sql_eq step.tool "test_runner")
    && not (is_read permission)
    && (sql_eq step.tool "filesystem" || sql_eq step.tool "git")
    && is_unhashable (operation step)

-- The step names a tool, and the permission is that of its definition. This is the answer when
-- `effect_raises` answers false; the executor asks that first.
unfoldable pub has_external_effect : PlanStep → PermissionLevel → Bool
unfolding operation operation_in is_read
has_external_effect step permission =
    let at_git = sql_eq step.tool "git" && operation_in (operation step) git_reads in
    let at_files = sql_eq step.tool "filesystem" && operation_in (operation step) file_reads in
    if sql_eq step.tool "test_runner"
    then true
    else if is_read permission
    then false
    else if at_files
    then false
    else not at_git
