-- ===== src/Engine/Planner/Answers.antt =====
-- What Planner of src/harness/engine/planner.py reads and returns, with early returns and exceptions. The
-- values of a declared change are JSON values: FileChange and TestRequest check no types.
use md_harness.Prelude.{ℕ, String, Bool, true, false, Option, List, nat_eq, string_eq}
use md_harness.Json.{Json}
use md_harness.Schema.{TaskStatus, ApprovalStatus}
use md_harness.Effects.{Error}
use md_harness.Engine.Outcomes.{Dependency}

pub record TestCriterion : Type 0 where
  pub id : ℕ
  pub criterion : String
  pub test_type : String
  pub command : Json
  pub timeout_seconds : Json
  pub working_directory : Json

-- None stands where a field was not given.
pub record FileChange : Type 0 where
  pub path : Json
  pub operation : Json
  pub content : Option Json
  pub expected_content : Option Json
  pub search : Option Json
  pub replacement : Option Json
  pub acceptance_criteria : List ℕ

pub record TestRequest : Type 0 where
  pub command : Json
  pub timeout_seconds : Json
  pub working_directory : Json
  pub test_criteria : List ℕ

pub record ChangeRequest : Type 0 where
  pub files : List FileChange
  pub tests : List TestRequest

-- `context.metadata.get("change")`, if it is not None.
pub data DeclaredChange : Type 0 where
  change_request : ChangeRequest → DeclaredChange
  change_mapping : Json → DeclaredChange

-- `last_validation` is the message, behind a validation that is not empty.
pub record PlanContext : Type 0 where
  pub approval_status : ApprovalStatus
  pub task_title : String
  pub task_description : String
  pub task_status : TaskStatus
  pub acceptance_criteria : List ℕ
  pub test_criteria : List TestCriterion
  pub dependencies : List Dependency
  pub available_tools : List String
  pub has_attempts : Bool
  pub last_version : Option ℕ
  pub last_validation : Option (Option String)
  pub change : Option DeclaredChange

-- `EngineResult.waiting(message)`, and `EngineResult.failure(message, code)` by its code.
pub data Refusal : Type 0 where
  wait_for : String → Refusal
  fail_with : String → Refusal

-- A value, an EngineResult that is returned in its place, or an exception.
pub data Planned {ℓ} (A : Type ℓ) : Type ℓ where
  given : A → Planned A
  refused : Refusal → Planned A
  raised : Error → Planned A

module _ {ℓ κ} {A : Type ℓ} {B : Type κ} where
  infixl 5 ◌>>=◌ ◌>>◌
  abbrev pub ◌>>=◌ : Planned A → (A → Planned B) → Planned B
  given a >>= f = f a
  refused r >>= f = refused r
  raised e >>= f = raised e

  abbrev pub ◌>>◌ : Planned A → Planned B → Planned B
  m >> n = m >>= λ _. n

-- `if not test: return EngineResult…`
abbrev pub unless : Bool → Refusal → Planned (Unit {0})
unless true r = given tt
unless false r = refused r
