-- ===== src/Engine/DryRun.antt =====
-- Tools that ToolSecurityPolicy of src/harness/security/tool_policy.py lets pass: in a dry run, and
-- without the network.
use md_harness.Prelude.{
  if◌then◌else◌, is_some, and_left, and_right, not-false, eq_iff, ◌==◌, contains, sql_eq, String,
  ◌≡◌, refl, ap, ◌∙◌, Bool, true, false, not, ◌&&◌, ◌||◌, Option, none, some, arith, nat_eq,
  string_eq,
}
use md_harness.Plan.{PlanStep}
use md_harness.Schema.{ApprovalStatus, approval_status_eq}
use md_harness.Engine.Errors.{ToolError}
use md_harness.Engine.Authorization.{
  ToolSecurityPolicy, ExecutionContext, is_git_read, reject_if, needs_approval, is_network,
  is_destructive, is_read, scoped, authorize, has_external_effect,
}
use md_harness.Engine.Registry.{Tool}

passed :
    (test : Bool) (error rest : Option ToolError)
    → is_some error ≡ true
    → reject_if test error rest ≡ none
    → (test ≡ false) × (rest ≡ none)
passed true error rest fails h = cc
passed false error rest fails h = (refl, h)

-- The guards that an authorized tool has passed.
record Passed (policy : ToolSecurityPolicy) (step : PlanStep) (tool : Tool)
    (context : ExecutionContext) : Type 0 where
  named : sql_eq step.tool tool.tool_name ≡ true
  networked :
      (is_network tool.permission
        && not policy.allow_network
        && not (is_git_read step tool.tool_name))
      ≡ false
  destroying : (is_destructive tool.permission && not policy.allow_destructive) ≡ false
  written :
      (context.dry_run && not (is_read tool.permission) && not policy.dry_run_allows_writes) ≡ false

authorize-Passed :
    (inside : String → String → Bool) (policy : ToolSecurityPolicy) (step : PlanStep) (tool : Tool)
    (context : ExecutionContext)
    → authorize inside policy step tool context ≡ none
    → Passed policy step tool context
unfolding authorize
authorize-Passed inside policy step tool context ok =
    let name = tool.tool_name in
    let (named, r1) = passed (not (sql_eq step.tool name)) _ _ refl ok in
    let (_, r2) = passed (not (contains context.available_tools name)) _ _ refl r1 in
    let (networked, r3) =
      passed (is_network tool.permission && not policy.allow_network && not (is_git_read step name))
        _ _ refl r2 in
    let (destroying, r4) =
      passed (is_destructive tool.permission && not policy.allow_destructive) _ _ refl r3 in
    let (_, r5) =
      passed
        (not (not policy.require_approval || context.approval_status == ApprovalStatus.approved)
          || not (scoped step tool context.approval_checker))
        (needs_approval tool.permission) _ refl r4 in
    let (written, _) =
      passed (context.dry_run && not (is_read tool.permission) && not policy.dry_run_allows_writes)
        _ _ refl r5 in
    record {
      named = not-false (sql_eq step.tool name) named;
      networked = networked;
      destroying = destroying;
      written = written;
    }

dry_reads :
    (dry reads writes : Bool)
    → dry ≡ true
    → writes ≡ false
    → (dry && not reads && not writes) ≡ false
    → reads ≡ true
dry_reads dry reads writes h k e = ground arith

-- In a dry run that allows no writes, an authorized tool has no effect outside, unless it is the
-- test runner.
pub authorize-dry_run :
    (inside : String → String → Bool) (policy : ToolSecurityPolicy) (step : PlanStep) (tool : Tool)
    (context : ExecutionContext)
    → policy.dry_run_allows_writes ≡ false
    → context.dry_run ≡ true
    → authorize inside policy step tool context ≡ none
    → sql_eq step.tool "test_runner" ≡ false
    → has_external_effect step tool.permission ≡ false
unfolding has_external_effect
authorize-dry_run inside policy step tool context no_writes dry ok other =
    let p = authorize-Passed inside policy step tool context ok in
    rw
      (
        other,
        dry_reads context.dry_run (is_read tool.permission) policy.dry_run_allows_writes dry
            no_writes p.written,
      )
      refl

git_read :
    (networks allows reads : Bool)
    → networks ≡ true
    → allows ≡ false
    → (networks && not allows && not reads) ≡ false
    → reads ≡ true
git_read networks allows reads h k e = ground arith

same_answer : (b : Bool) → (if b then false else false) ≡ false
same_answer true = refl
same_answer false = refl

git_named :
    (o : Option String) (name : String)
    → sql_eq o name ≡ true
    → (name == "git") ≡ true
    → o ≡ some "git"
git_named none name h k = cc
git_named (some s) name h k = ap some ((eq_iff s name).0 h ∙ (eq_iff name "git").0 k)

-- Under a policy without network, an authorized tool with the network permission is git, for a
-- command that only reads.
pub authorize-network :
    (inside : String → String → Bool) (policy : ToolSecurityPolicy) (step : PlanStep) (tool : Tool)
    (context : ExecutionContext)
    → policy.allow_network ≡ false
    → is_network tool.permission ≡ true
    → authorize inside policy step tool context ≡ none
    → (step.tool ≡ some "git") × (has_external_effect step tool.permission ≡ false)
unfolding is_git_read
authorize-network inside policy step tool context offline networks ok =
    let p = authorize-Passed inside policy step tool context ok in
    let reads =
      git_read (is_network tool.permission) policy.allow_network (is_git_read step tool.tool_name)
        networks offline p.networked in
    let git =
      git_named step.tool tool.tool_name p.named (and_left (tool.tool_name == "git") _ reads) in
    (
      git,
      unfold has_external_effect in
          rw (git, and_right (tool.tool_name == "git") _ reads)
            (same_answer (is_read tool.permission)),
    )
