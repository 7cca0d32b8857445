-- ===== src/Transaction/Interactions.antt =====
-- EngineUnitOfWork.create_human_wait and _validate_interaction_request, in
-- src/harness/storage/transaction.py: a question to a human, and the wait for the answer.
use md_harness.Storage.Tasks
use md_harness.Transaction.{Session, on_connection, phase}
use md_harness.Storage.Tasks.{transition}
use md_harness.Storage.Interactions.{Request, create}
use md_harness.Prelude.{
  if◌then◌else◌, ◌==◌, contains, ℕ, String, Bool, false, not, ◌&&◌, Option, none, some, List, [],
  ◌∷◌, nat_eq, string_eq,
}
use md_harness.Effects.{
  Error, value_error, type_error, transaction_error, Result, return, raise, Action, pure, throw,
  lift, gets, ◌>>=◌, ◌>>◌, modify, require, require_some,
}
use md_harness.Json.{Json, string, array, object, Members, no_members, get_member}
use md_harness.Sql.{update}
use md_harness.Schema.{
  TaskStatus, AttemptStatus, NextAction, InteractionStatus, InteractionKind, Clock, TaskRow, text,
  InteractionRow, Db, task_status_eq, interaction_status_eq, wait_reason_eq,
}
use md_harness.Text.{is_blank}
use md_harness.Storage.Attempts.{complete_attempt}
use md_harness.Storage.Checkpoints.{Checkpoint, get_active, save}
use md_harness.Storage.Approvals.{holds}
use md_harness.Storage.Artifacts.{register_all}
use md_harness.Storage.Events.{of_option, record_event, record_events}
use md_harness.Storage.Interactions.Schemas.{unhashable, json_types, validate_schema}
use md_harness.Transaction.Decisions.{Payload, no_checkpoint, attempt_runs}

-- `value in {…}`, for a set of texts: the element that it names.
abbrev pub named {ℓ} : {A : Type ℓ} → String → List (String × A) → Option A
named s [] = none
named s ((name, a) ∷ rest) = if name == s then some a else named s rest

unfoldable pub member_of {ℓ} : {A : Type ℓ} → Option Json → List (String × A) → Error → Result A
member_of (some (string s)) names e = elim (named s names) [ none ↦ raise e | some a ↦ return a ]
member_of (some (array xs)) names e = raise unhashable
member_of (some (object ms)) names e = raise unhashable
member_of _ names e = raise e

abbrev pub kinds : List (String × InteractionKind)
kinds =
    ("information_request", InteractionKind.information_request)
    ∷ ("human_decision", InteractionKind.human_decision)
    ∷ ("plan_review", InteractionKind.plan_review)
    ∷ []

abbrev pub resume_actions : List (String × NextAction)
resume_actions =
    ("retry_execution", NextAction.retry_execution)
    ∷ ("replan", NextAction.replan)
    ∷ ("validate", NextAction.validate)
    ∷ []

unfoldable pub prompt_of : Option Json → Result String
prompt_of (some (string s)) =
    if is_blank s then raise (value_error "interaction prompt is required") else return s
prompt_of _ = raise (value_error "interaction prompt is required")

abbrev pub no_schema : Error
no_schema = value_error "interaction response_schema must declare a supported type"

unfoldable pub schema_of : Option Json → Result Json
unfolding get_member
schema_of (some (object ms)) = elim (get_member "type" ms) [
  | some (string t) ↦ if contains json_types t then return (object ms) else raise no_schema
  | some (array xs) ↦ raise unhashable
  | some (object ns) ↦ raise unhashable
  | _ ↦ raise no_schema
]
schema_of _ = raise no_schema

unfoldable pub data_of : Option Json → Result Members
data_of none = return no_members
data_of (some (object ms)) = return ms
data_of _ = raise (type_error "interaction request_data must be an object")

unfoldable pub validate_request : Json → Action Db Request
unfolding member_of prompt_of schema_of data_of validate_schema get_member
validate_request (object ms) = do
  kind ←
      lift
        (member_of (get_member "kind" ms) kinds (value_error "unsupported human interaction kind"))
  prompt ← lift (prompt_of (get_member "prompt" ms))
  action ← lift (
      member_of (get_member "resume_action" ms) resume_actions
        (value_error "invalid interaction resume_action"))
  schema ← lift (schema_of (get_member "response_schema" ms))
  lift (validate_schema schema)
  request_data ← lift (data_of (get_member "request_data" ms))
  pure (record {
    kind = kind;
    prompt = prompt;
    response_schema = schema;
    request_data = request_data;
    resume_action = action;
  })
validate_request _ = throw (type_error "interaction request must be a mapping")

-- `wait_token != ?`, which is not true for NULL
abbrev pub other_wait : Option String → String → Bool
other_wait none token = false
other_wait (some new) token = not (token == new)

unfoldable pub supersede : Clock → ℕ → Option String → Action Db (Unit {0})
supersede c task_id wait_token = modify λ db. record db {
  interactions =
      update
        (λ (i : InteractionRow).
          i.task_id == task_id
          && i.status == InteractionStatus.pending
          && other_wait wait_token i.wait_token)
        (λ i. record i {
          status = InteractionStatus.superseded;
          decided_at = some c.current_timestamp;
        })
        db.interactions;
}

abbrev pub interactable : TaskRow → Bool
interactable t =
    contains (TaskStatus.planning ∷ TaskStatus.executing ∷ TaskStatus.validating ∷ []) t.status

abbrev pub kind_name : InteractionKind → String
kind_name InteractionKind.information_request = "information_request"
kind_name InteractionKind.human_decision = "human_decision"
kind_name InteractionKind.plan_review = "plan_review"

-- The block of `create_human_wait`; the new wait token is `fresh`, and the interaction's id `id`.
unfoldable pub create_wait :
    (String → Option (String × ℕ))
    → Clock
    → ℕ
    → ℕ
    → Checkpoint
    → Request
    → Option ℕ
    → Option String
    → List (String × Payload)
    → List String
    → String
    → String
    → Action Db String
unfolding Tasks.get attempt_runs save get_active supersede create register_all record_events
    complete_attempt transition record_event
create_wait file_at c task_id attempt_id checkpoint r version fingerprint events paths fresh id = do
  task ← gets (Tasks.get task_id)
  require (holds interactable task) (transaction_error "task is not in an interactable state")
  active ← gets (attempt_runs task_id (some attempt_id))
  require active (transaction_error "interaction attempt is not active")
  save task_id checkpoint fresh
  found ← gets (get_active task_id)
  k ← require_some found no_checkpoint
  supersede c task_id k.wait_token
  create task_id k.wait_token r version fingerprint id
  register_all file_at task_id paths
  record_events task_id events
  complete_attempt c attempt_id AttemptStatus.waiting checkpoint.reason none
  transition c task_id TaskStatus.waiting
  record_event task_id "task.interaction.requested" (
      ("interaction_id", text id)
      ∷ ("wait_token", of_option k.wait_token)
      ∷ ("kind", text (kind_name r.kind))
      ∷ ("prompt", text r.prompt)
      ∷ [])
  record_event task_id "task.waiting" (("reason", of_option checkpoint.reason) ∷ [])
  pure id

unfoldable pub create_human_wait :
    (String → Option (String × ℕ))
    → Clock
    → ℕ
    → ℕ
    → Checkpoint
    → Json
    → Option ℕ
    → Option String
    → List (String × Payload)
    → List String
    → String
    → String
    → Action Session String
unfolding phase validate_request create_wait
create_human_wait file_at c task_id attempt_id k request version fingerprint events paths fresh id =
    do
      r ← on_connection (validate_request request)
      phase c
          (create_wait file_at c task_id attempt_id k r version fingerprint events paths fresh id)
