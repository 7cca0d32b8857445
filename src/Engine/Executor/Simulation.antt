-- ===== src/Engine/Executor/Simulation.antt =====
-- src/harness/engine/executor.py in a dry run.
use md_harness.Storage.Invocations
use md_harness.Prelude.{
  tests, Bool-cases, sql_eq, String, ◌≡◌, inl, inr, true, false, some, List, nat_eq, string_eq,
}
use md_harness.Effects.{Action}
use md_harness.Plan.{PlanStep, ExecutionPlan}
use md_harness.Schema.{approval_status_eq}
use md_harness.Engine.Errors.{PermissionLevel}
use md_harness.Engine.Registry.{Tool, find_tool}
use md_harness.Engine.Authorization.{has_external_effect}
use md_harness.Engine.DryRun.{authorize-dry_run}
use md_harness.Engine.Steps.{StepExecution}
use md_harness.Engine.Executor.{Environment, execute}
use md_harness.Engine.Executor.Calls.{Keeps, execute-Keeps}

module _ {W : Type 0} (env : Environment W) (plan : ExecutionPlan) (P : W → Type 0) where
  -- A statement about the world that the callbacks keep, the test runner, and every call of a
  -- registered tool that has no effect outside.
  pub record KeepsDry : Type 0 where
    pub guard_dry : (w : W) → P w → P (env.ownership_guard w).1
    pub pending_dry : (w : W) → P w → P (env.invocation_pending w).1
    pub begin_dry :
        (b : ExecutionPlan → PlanStep → PermissionLevel → Action W Invocations.Reservation)
        → env.invocation_begin ≡ some b
        → (step : PlanStep) (permission : PermissionLevel) (w : W) → P w
        → P (b plan step permission w).1
    pub complete_dry :
        (id : String) (done_step : StepExecution) (w : W)
        → P w
        → P (env.invocation_complete id done_step w).1
    pub harmless_dry :
        (name : String) (step : PlanStep) (tool : Tool) (w : W)
        → find_tool name env.tools ≡ some tool
        → has_external_effect step tool.permission ≡ false
        → P w
        → P (env.run_tool name step.arguments w).1
    pub tests_dry :
        (name : String) (step : PlanStep) (tool : Tool) (w : W)
        → find_tool name env.tools ≡ some tool
        → sql_eq step.tool "test_runner" ≡ true
        → P w
        → P (env.run_tool name step.arguments w).1

  module _ (no_writes : env.policy.dry_run_allows_writes ≡ false) (dry : env.context.dry_run ≡ true)
      (keeps : KeepsDry) where
    simulated-Keeps : Keeps env plan P
    simulated-Keeps = record {
      guard_keeps = keeps.guard_dry;
      pending_keeps = keeps.pending_dry;
      begin_keeps = keeps.begin_dry;
      complete_keeps = keeps.complete_dry;
      call_keeps = λ name step w allowed h. elim (Bool-cases (sql_eq step.tool "test_runner")) [
        | inl tests ↦ keeps.tests_dry name step allowed.tool w allowed.registered tests h
        | inr not_tests ↦
            keeps.harmless_dry name step allowed.tool w allowed.registered
              (authorize-dry_run env.inside env.policy step allowed.tool env.context no_writes dry
                allowed.authorized not_tests)
              h
      ];
    }

    -- In a dry run that allows no writes, `execute` keeps every statement about the world that the
    -- callbacks keep, the test runner, and the calls without an effect outside: it makes no other
    -- call, whatever the plan says.
    pub execute-dry_run : (ids : List String) (w : W) → P w → P (execute env plan ids w).1
    execute-dry_run ids w h = execute-Keeps env plan P simulated-Keeps ids w h
