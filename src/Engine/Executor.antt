-- ===== src/Engine/Executor.antt =====
-- Executor of src/harness/engine/executor.py. The registry's tools and the callbacks of the context
-- are parameters: actions on a world, which answer or raise.
pub mod Calls
pub mod Simulation
use md_harness.Storage.Invocations
use md_harness.Prelude.{
  if◌then◌else◌, ◌==◌, contains, String, Bool, true, false, not, Option, none, some, List, [], ◌∷◌,
  ◌++◌, nat_eq, string_eq,
}
use md_harness.Effects.{
  Error, type_error, Result, return, raise, Action, pure, throw, lift, require, ◌>>=◌, ◌>>◌,
}
use md_harness.Json.{Members}
use md_harness.Plan.{PlanStep, ExecutionPlan}
use md_harness.Engine.Errors.{PermissionLevel, ToolError}
use md_harness.Engine.Authorization.{
  ToolSecurityPolicy, ExecutionContext, authorize_raises, authorize, effect_raises,
  has_external_effect,
}
use md_harness.Engine.Registry.{Tool, validate_arguments, find_tool}
use md_harness.Storage.Invocations.{new, completed, uncertain}
use md_harness.Engine.Steps.{
  ExecutionStatus, StepExecution, ToolAnswer, returned, tool_error, EngineResult, executed,
  uncertain_result, failed_test, workspace_missing, plain_step, resumed_step, journaled_step,
  normalized, test_failed, artifacts_of, changes_of, completed_step, failed_test_step, Round,
  proceed, halt, refuse, not_registered,
}

-- What the context and the registry bring: the tools, and actions on the outside. A callback that
-- the context lacks does nothing, except for the one that reserves a call.
pub record Environment (W : Type 0) : Type 0 where
  pub tools : List Tool
  pub policy : ToolSecurityPolicy
  pub inside : String → String → Bool
  pub context : ExecutionContext
  pub run_tool : String → Members → Action W ToolAnswer
  pub ownership_guard : Action W (Unit {0})
  pub invocation_pending : Action W (Option String)
  pub invocation_begin :
      Option (ExecutionPlan → PlanStep → PermissionLevel → Action W Invocations.Reservation)
  pub invocation_complete : String → StepExecution → Action W (Unit {0})

abbrev pub unhashable_type : Error
unhashable_type = type_error "unhashable type"

abbrev pub uncertain_round : String → Round
uncertain_round id = halt (λ steps. uncertain_result steps id)

module _ {W : Type 0} where
  -- `except Exception`: the outcome of a reserved call is unknown; otherwise the exception goes on.
  abbrev pub by_result :
      {A : Type 0} → Option String → Result A → (A → Action W Round) → Action W Round
  by_result id (return a) f = f a
  by_result none (raise e) f = throw e
  by_result (some id) (raise e) f = pure (uncertain_round id)

  abbrev pub or_uncertain :
      {A : Type 0} → Option String → Action W A → (A → Action W Round) → Action W Round
  or_uncertain id m f w = let (r, w') = m w in by_result id r f w'

module _ {W : Type 0} (env : Environment W) (plan : ExecutionPlan) where
  -- The journal of a reserved call, behind its step.
  unfoldable pub finish : Option String → StepExecution → Action W Round
  finish none done_step = pure (proceed done_step)
  finish (some id) done_step =
      or_uncertain (some id) (env.invocation_complete id done_step) (λ _. pure (proceed done_step))

  unfoldable pub answered : Option String → String → PlanStep → ToolAnswer → Action W Round
  unfolding finish normalized test_failed refuse artifacts_of changes_of
  answered none name step (tool_error e) = pure (halt (refuse e))
  answered (some id) name step (tool_error e) = pure (uncertain_round id)
  answered id name step (returned result) = do
    env.ownership_guard
    let value = normalized name result in
        if test_failed name value
        then pure (halt (λ steps. failed_test (steps ++ failed_test_step step value ∷ [])))
        else finish id (completed_step step value)

  unfoldable pub invoke : Option String → String → PlanStep → Action W Round
  unfolding answered
  invoke id name step = or_uncertain id (env.run_tool name step.arguments) (answered id name step)

  unfoldable pub reserved : String → PlanStep → Invocations.Reservation → Action W Round
  unfolding invoke
  reserved name step (new id) = invoke (some id) name step
  reserved name step (completed r) = pure (proceed (journaled_step r))
  reserved name step (uncertain id) = pure (uncertain_round id)

  abbrev pub begin :
      Bool
      → Option (ExecutionPlan → PlanStep → PermissionLevel → Action W Invocations.Reservation)
      → String
      → PlanStep
      → PermissionLevel
      → Action W Round
  begin false b name step permission = invoke none name step
  begin true none name step permission = invoke none name step
  begin true (some b) name step permission = b plan step permission >>= reserved name step

  abbrev pub unless_refused : Option ToolError → Action W Round → Action W Round
  unless_refused (some e) rest = pure (halt (refuse e))
  unless_refused none rest = rest

  abbrev pub with_tool : Option Tool → String → PlanStep → Action W Round
  with_tool none name step = pure (halt (refuse not_registered))
  with_tool (some tool) name step =
      require (not (authorize_raises step tool env.context)) unhashable_type
      >> unless_refused (authorize env.inside env.policy step tool env.context) do
        refused ← lift (validate_arguments tool step.arguments)
        unless_refused refused do
          require (not (effect_raises step tool.permission)) unhashable_type
          begin (has_external_effect step tool.permission) env.invocation_begin name step
              tool.permission

  unfoldable pub call_step : String → PlanStep → Action W Round
  unfolding find_tool authorize_raises authorize validate_arguments effect_raises
      has_external_effect invoke reserved refuse
  call_step name step = do env.ownership_guard; with_tool (find_tool name env.tools) name step

  abbrev pub by_tool : Option String → PlanStep → Action W Round
  by_tool none step = pure (proceed (plain_step step ExecutionStatus.success))
  by_tool (some name) step = call_step name step

  unfoldable pub one_step : List String → PlanStep → Action W Round
  unfolding call_step
  one_step completed_ids step =
      if contains completed_ids step.id
      then pure (proceed (resumed_step step))
      else if step.action == "skip"
      then pure (proceed (plain_step step ExecutionStatus.skipped))
      else by_tool step.tool step

  abbrev pub by_round :
      Round
      → List StepExecution
      → (List StepExecution → Action W EngineResult)
      → Action W EngineResult
  by_round (proceed done_step) steps rest = rest (steps ++ done_step ∷ [])
  by_round (halt k) steps rest = pure (k steps)

  unfoldable pub run_steps :
      List String → List PlanStep → List StepExecution → Action W EngineResult
  unfolding one_step
  run_steps completed_ids [] steps = pure (executed steps)
  run_steps completed_ids (step ∷ rest) steps = do
    round ← one_step completed_ids step
    by_round round steps (run_steps completed_ids rest)

  abbrev pub unless_pending_call : Option String → Action W EngineResult → Action W EngineResult
  unless_pending_call none rest = rest
  unless_pending_call (some id) rest = pure (uncertain_result [] id)

  abbrev pub has_workspace : Option String → Bool
  has_workspace none = false
  has_workspace (some path) = not (path == "")

  -- `completed_ids` are those of the resumed checkpoint.
  abbrev pub from_start : List String → Action W EngineResult
  from_start completed_ids = do
    pending ← env.invocation_pending
    unless_pending_call pending (run_steps completed_ids plan.steps [])

  -- `completed_ids` are those of the resumed checkpoint.
  unfoldable pub execute : List String → Action W EngineResult
  unfolding run_steps
  execute completed_ids =
      if has_workspace env.context.workspace
      then from_start completed_ids
      else pure workspace_missing
