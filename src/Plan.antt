-- ===== src/Plan.antt =====
-- The dataclasses of src/harness/engine/plan.py. The plan in a checkpoint's payload is
-- `asdict(plan)`, with the same fields.
use md_harness.Prelude.{ℕ, String, Option, List}
use md_harness.Json.{Members}

pub record PlanStep : Type 0 where
  pub id : String
  pub description : String
  pub action : String
  pub tool : Option String
  pub arguments : Members
  pub acceptance_criteria : List ℕ
  pub test_criteria : List ℕ
  pub depends_on : List String
  pub metadata : Members

pub record ExecutionPlan : Type 0 where
  pub goal : String
  pub steps : List PlanStep
  pub assumptions : List String
  pub risks : List String
  pub version : ℕ
  pub replanned_from : Option ℕ
  pub reason : Option String
