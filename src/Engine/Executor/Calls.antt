-- ===== src/Engine/Executor/Calls.antt =====
-- The calls of a tool that src/harness/engine/executor.py makes, for any tools and callbacks.
use md_harness.Storage.Invocations
use md_harness.Prelude.{
  if◌then◌else◌, ◌==◌, contains, String, ◌≡◌, refl, Bool, true, false, not, Option, none, some,
  List, [], ◌∷◌, ◌++◌, nat_eq, string_eq,
}
use md_harness.Effects.{Result, return, raise, Action, and_then, require, ◌>>◌}
use md_harness.Effects.Keeps.{require_keeps}
use md_harness.Plan.{PlanStep, ExecutionPlan}
use md_harness.Schema.{approval_status_eq}
use md_harness.Engine.Errors.{PermissionLevel, ToolError}
use md_harness.Engine.Registry.{Tool, validate_arguments, find_tool}
use md_harness.Engine.Authorization.{
  authorize_raises, authorize, effect_raises, has_external_effect,
}
use md_harness.Storage.Invocations.{new, completed, uncertain}
use md_harness.Engine.Steps.{
  StepExecution, ToolValue, ToolAnswer, returned, tool_error, EngineResult, normalized, test_failed,
  completed_step, Round, proceed, halt,
}
use md_harness.Engine.Executor.{
  Environment, unhashable_type, by_result, finish, answered, invoke, reserved, begin,
  unless_refused, with_tool, call_step, by_tool, one_step, by_round, run_steps, unless_pending_call,
  has_workspace, execute,
}

module _ {W : Type 0} (env : Environment W) (plan : ExecutionPlan) where
  -- The journal lets the call run: it has no effect outside, or there is no journal, or the
  -- reservation right before it, which led to the world `w`, answered `new`.
  pub data Cleared (step : PlanStep) (permission : PermissionLevel) (w : W) : Type 0 where
    harmless : has_external_effect step permission ≡ false → Cleared step permission w
    no_journal : env.invocation_begin ≡ none → Cleared step permission w
    begun :
        (b : ExecutionPlan → PlanStep → PermissionLevel → Action W Invocations.Reservation)
        (id : String) (before : W)
        → env.invocation_begin ≡ some b
        → b plan step permission before ≡ (return (new id), w)
        → Cleared step permission w

  -- A call that the executor may make in the world `w`.
  pub record Allowed (name : String) (step : PlanStep) (w : W) : Type 0 where
    pub tool : Tool
    pub registered : find_tool name env.tools ≡ some tool
    pub authorized : authorize env.inside env.policy step tool env.context ≡ none
    pub valid : validate_arguments tool step.arguments ≡ return none
    pub cleared : Cleared step tool.permission w

  -- A statement about the world that the callbacks keep, and every allowed call of a tool.
  pub record Keeps (P : W → Type 0) : Type 0 where
    pub guard_keeps : (w : W) → P w → P (env.ownership_guard w).1
    pub pending_keeps : (w : W) → P w → P (env.invocation_pending w).1
    pub begin_keeps :
        (b : ExecutionPlan → PlanStep → PermissionLevel → Action W Invocations.Reservation)
        → env.invocation_begin ≡ some b
        → (step : PlanStep) (permission : PermissionLevel) (w : W) → P w
        → P (b plan step permission w).1
    pub complete_keeps :
        (id : String) (done_step : StepExecution) (w : W)
        → P w
        → P (env.invocation_complete id done_step w).1
    pub call_keeps :
        (name : String) (step : PlanStep) (w : W)
        → Allowed name step w
        → P w
        → P (env.run_tool name step.arguments w).1

  module _ (P : W → Type 0) (keeps : Keeps P) where
    then_keeps :
        {A B : Type 0} (r : Result A × W) (f : A → Action W B)
        → P r.1
        → ((a : A) → P r.1 → P (f a r.1).1)
        → P (and_then r.0 f r.1).1
    then_keeps (return a, w) f h k = k a h
    then_keeps (raise e, w) f h k = h

    result_keeps :
        {A : Type 0} (id : Option String) (r : Result A × W) (f : A → Action W Round)
        → P r.1
        → ((a : A) → P r.1 → P (f a r.1).1)
        → P (by_result id r.0 f r.1).1
    result_keeps id (return a, w) f h k = k a h
    result_keeps none (raise e, w) f h k = h
    result_keeps (some id) (raise e, w) f h k = h

    finish_keeps :
        (id : Option String) (done_step : StepExecution) (w : W)
        → P w
        → P (finish env plan id done_step w).1
    unfolding finish
    finish_keeps none done_step w h = h
    finish_keeps (some id) done_step w h =
        result_keeps (some id) (env.invocation_complete id done_step w) _
          (keeps.complete_keeps id done_step w h) (λ _ k. k)

    if_keeps :
        {A : Type 0} (b : Bool) (m n : Action W A) (w : W)
        → P (m w).1
        → P (n w).1
        → P ((if b then m else n) w).1
    if_keeps true m n w h k = h
    if_keeps false m n w h k = k

    value_keeps :
        (id : Option String) (name : String) (step : PlanStep) (result : ToolValue) (w : W)
        → P w
        → P (answered env plan id name step (returned result) w).1
    unfolding answered
    value_keeps id name step result w h =
        let value = normalized name result in
        then_keeps (env.ownership_guard w) _ (keeps.guard_keeps w h) λ u k.
          if_keeps (test_failed name value) _ _ (env.ownership_guard w).1 k
            (finish_keeps id (completed_step step value) (env.ownership_guard w).1 k)

    answer_keeps :
        (id : Option String) (name : String) (step : PlanStep) (answer : ToolAnswer) (w : W)
        → P w
        → P (answered env plan id name step answer w).1
    unfolding answered
    answer_keeps none name step (tool_error e) w h = h
    answer_keeps (some id) name step (tool_error e) w h = h
    answer_keeps none name step (returned result) w h = value_keeps none name step result w h
    answer_keeps (some id) name step (returned result) w h =
        value_keeps (some id) name step result w h

    invoke_keeps :
        (id : Option String) (name : String) (step : PlanStep) (w : W)
        → Allowed name step w
        → P w
        → P (invoke env plan id name step w).1
    unfolding invoke
    invoke_keeps id name step w allowed h =
        result_keeps id (env.run_tool name step.arguments w) _
          (keeps.call_keeps name step w allowed h)
          (λ answer k. answer_keeps id name step answer _ k)

    module _ (name : String) (step : PlanStep) (tool : Tool)
        (allows : (w : W) → Cleared step tool.permission w → Allowed name step w) where
      reserved_keeps :
          (b : ExecutionPlan → PlanStep → PermissionLevel → Action W Invocations.Reservation)
          → env.invocation_begin ≡ some b
          → (before : W) (r : Result Invocations.Reservation × W)
          → b plan step tool.permission before ≡ r
          → P r.1
          → P (and_then r.0 (reserved env plan name step) r.1).1
      unfolding reserved
      reserved_keeps b journal before (return (new id), w) e h =
          invoke_keeps (some id) name step w (allows w (begun b id before journal e)) h
      reserved_keeps b journal before (return (completed r), w) e h = h
      reserved_keeps b journal before (return (uncertain id), w) e h = h
      reserved_keeps b journal before (raise e', w) e h = h

      begin_step_keeps :
          (effect : Bool)
          (journal : Option
            (ExecutionPlan → PlanStep → PermissionLevel → Action W Invocations.Reservation))
          → has_external_effect step tool.permission ≡ effect
          → env.invocation_begin ≡ journal
          → (w : W) → P w
          → P (begin env plan effect journal name step tool.permission w).1
      begin_step_keeps false journal e j w h =
          invoke_keeps none name step w (allows w (harmless e)) h
      begin_step_keeps true none e j w h = invoke_keeps none name step w (allows w (no_journal j)) h
      begin_step_keeps true (some b) e j w h =
          reserved_keeps b j w (b plan step tool.permission w) refl
            (keeps.begin_keeps b j step tool.permission w h)

    refused_keeps :
        (o : Option ToolError) (rest : Action W Round) (w : W)
        → P w
        → (o ≡ none → P (rest w).1)
        → P (unless_refused env plan o rest w).1
    refused_keeps none rest w h k = k refl
    refused_keeps (some e) rest w h k = h

    tool_keeps :
        (found : Option Tool) (name : String) (step : PlanStep)
        → find_tool name env.tools ≡ found
        → (w : W) → P w
        → P (with_tool env plan found name step w).1
    tool_keeps none name step e w h = h
    tool_keeps (some tool) name step e w h =
        require_keeps P (not (authorize_raises step tool env.context)) unhashable_type _ w h λ _.
          refused_keeps (authorize env.inside env.policy step tool env.context) _ w h
            λ authorized. checked (validate_arguments tool step.arguments) refl authorized
      where
        checked :
            (r : Result (Option ToolError))
            → validate_arguments tool step.arguments ≡ r
            → authorize env.inside env.policy step tool env.context ≡ none
            → P
                (and_then r
                  (λ refused. unless_refused env plan refused (
                    require (not (effect_raises step tool.permission)) unhashable_type
                    >> begin env plan
                        (has_external_effect step tool.permission)
                        env.invocation_begin
                        name
                        step
                        tool.permission))
                  w).1
        checked (raise e') v a = h
        checked (return (some e')) v a = h
        checked (return none) v a =
            require_keeps P (not (effect_raises step tool.permission)) unhashable_type _ w h λ _.
              begin_step_keeps name step tool
                (λ u cleared. record {
                  tool = tool;
                  registered = e;
                  authorized = a;
                  valid = v;
                  cleared = cleared;
                })
                (has_external_effect step tool.permission) env.invocation_begin refl refl w h

    call_step_keeps :
        (name : String) (step : PlanStep) (w : W) → P w → P (call_step env plan name step w).1
    unfolding call_step
    call_step_keeps name step w h =
        then_keeps (env.ownership_guard w) _ (keeps.guard_keeps w h)
          λ u k. tool_keeps (find_tool name env.tools) name step refl (env.ownership_guard w).1 k

    by_tool_keeps :
        (o : Option String) (step : PlanStep) (w : W) → P w → P (by_tool env plan o step w).1
    by_tool_keeps none step w h = h
    by_tool_keeps (some name) step w h = call_step_keeps name step w h

    one_step_keeps :
        (ids : List String) (step : PlanStep) (w : W) → P w → P (one_step env plan ids step w).1
    unfolding one_step
    one_step_keeps ids step w h =
        if_keeps (contains ids step.id) _ _ w h
          (if_keeps (step.action == "skip") _ _ w h (by_tool_keeps step.tool step w h))

    round_keeps :
        (round : Round) (steps : List StepExecution)
        (rest : List StepExecution → Action W EngineResult) (w : W)
        → P w
        → ((more : List StepExecution) → P (rest more w).1)
        → P (by_round env plan round steps rest w).1
    round_keeps (proceed done_step) steps rest w h k = k (steps ++ done_step ∷ [])
    round_keeps (halt f) steps rest w h k = h

    steps_keeps :
        (ids : List String) (todo : List PlanStep) (steps : List StepExecution) (w : W)
        → P w
        → P (run_steps env plan ids todo steps w).1
    unfolding run_steps
    steps_keeps ids [] steps w h = h
    steps_keeps ids (step ∷ rest) steps w h =
        then_keeps (one_step env plan ids step w) _ (one_step_keeps ids step w h)
          λ round k. round_keeps round steps _ _ k (λ more. steps_keeps ids rest more _ k)

    pending_call_keeps :
        (o : Option String) (rest : Action W EngineResult) (w : W)
        → P w
        → P (rest w).1
        → P (unless_pending_call env plan o rest w).1
    pending_call_keeps none rest w h k = k
    pending_call_keeps (some id) rest w h k = h

    -- Whatever a statement about the world is that the callbacks keep, and every call of a tool
    -- that is registered, authorized for its step, given valid arguments and, when it may have an
    -- effect outside, reserved as new right before: `execute` keeps it, in every outcome. So the
    -- executor makes no other call.
    pub execute-Keeps : (ids : List String) (w : W) → P w → P (execute env plan ids w).1
    unfolding execute
    execute-Keeps ids w h =
        if_keeps (has_workspace env plan env.context.workspace) _ _ w
          (then_keeps (env.invocation_pending w) _ (keeps.pending_keeps w h)
            λ pending k. pending_call_keeps pending _ _ k (steps_keeps ids plan.steps [] _ k))
          h
