-- ===== src/Engine/Hitl.antt =====
-- src/harness/engine/hitl.py: when an optional request becomes a wait, and the request to review a plan.
use md_harness.Prelude.{
  if◌then◌else◌, non_empty, ◌==◌, String, Bool, true, false, ◌||◌, Option, none, some, List, [],
  ◌∷◌, nat_eq, string_eq,
}
use md_harness.Json.{
  Json, null, boolean, string, array, object, Items, no_items, item, Members, no_members, member,
  get_member,
}
use md_harness.Plan.{PlanStep, ExecutionPlan}
use md_harness.Effects.{type_error, Result, return, raise}
use md_harness.Engine.Authorization.{is_truthy}

pub data HitlMode : Type 0 where
  minimal interactive selective : HitlMode

-- `details.get("risk_level") in {"high", "critical"}`
unfoldable pub is_risky : Option Json → Result Bool
is_risky (some (string level)) = return (level == "high" || level == "critical")
is_risky (some (array xs)) = raise (type_error "unhashable type")
is_risky (some (object ms)) = raise (type_error "unhashable type")
is_risky _ = return false

unfoldable pub is_review_due : Option Json → Result Bool
unfolding is_risky is_truthy get_member
is_review_due none = return false
is_review_due (some (object details)) =
    if is_truthy (get_member "review_required" details)
    then return true
    else is_risky (get_member "risk_level" details)
is_review_due (some _) = raise (type_error "object has no attribute 'get'")

abbrev pub by_mode : HitlMode → Option Json → Result Bool
by_mode minimal details = return false
by_mode interactive details = return true
by_mode selective details = is_review_due details

unfoldable pub should_request_interaction : HitlMode → Members → Result Bool
unfolding is_review_due is_truthy get_member
should_request_interaction mode request =
    if is_truthy (get_member "required" request)
    then return true
    else by_mode mode (get_member "request_data" request)

abbrev pub text_type : Json
text_type = object (member "type" (string "string") no_members)

abbrev pub decisions : Json
decisions = array (item (string "approved") (item (string "changes_requested") no_items))

abbrev pub review_properties : Members
review_properties =
    member "decision"
      (object (member "type" (string "string") (member "enum" decisions no_members)))
      (member "feedback" text_type no_members)

abbrev pub review_schema : Json
review_schema = object (
    member "type" (string "object") (
      member "required" (array (item (string "decision") no_items)) (
        member "properties" (object review_properties)
          (member "additionalProperties" (boolean false) no_members))))

abbrev pub text_or_null : Option String → Json
text_or_null none = null
text_or_null (some s) = string s

abbrev pub shown_step : PlanStep → Json
shown_step step = object (
    member "id" (string step.id) (
      member "description" (string step.description) (
        member "tool" (text_or_null step.tool)
          (member "arguments" (object step.arguments) no_members))))

abbrev pub shown_steps : List PlanStep → Items
shown_steps [] = no_items
shown_steps (step ∷ steps) = item (shown_step step) (shown_steps steps)

unfoldable pub plan_review_request : ExecutionPlan → Json
plan_review_request plan = object (
    member "kind" (string "plan_review") (
      member "prompt" (string "Review this plan before execution.") (
        member "response_schema" review_schema (
          member "request_data"
            (object (
              member "goal" (string plan.goal) (
                member "steps" (array (shown_steps plan.steps)) (
                  member "risk_level" (string (if non_empty plan.risks then "high" else "low"))
                    no_members))))
            (member "resume_action" (string "retry_execution")
              (member "required" (boolean false) no_members))))))
