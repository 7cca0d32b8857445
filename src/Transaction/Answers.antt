-- ===== src/Transaction/Answers.antt =====
-- EngineUnitOfWork.answer_human_interaction, in src/harness/storage/transaction.py. The text that
-- `json.dumps(response, sort_keys=True, …)` gives is the parameter `dumps`.
pub mod Once
use md_harness.Storage.Tasks
use md_harness.Json.Equality.{Floats}
use md_harness.Storage.Interactions.Responses.{validate_response}
use md_harness.Transaction.{Session, phase}
use md_harness.Transaction.Tools.{has_status}
use md_harness.Storage.Interactions
use md_harness.Storage.Interactions.{has_interaction_id}
use md_harness.Prelude.{
  if◌then◌else◌, any, ◌==◌, sql_eq, ℕ, String, Bool, true, false, not, ◌&&◌, Option, none, some, [],
  ◌∷◌, ◌++◌, nat_eq, string_eq,
}
use md_harness.Effects.{
  Error, value_error, transaction_error, integrity_error, return, Action, pure, lift, gets, ◌>>=◌,
  ◌>>◌, modify, require, require_some,
}
use md_harness.Json.{Json, get_member, is_true}
use md_harness.Sql.{fetchone, update, rowcount}
use md_harness.Schema.{
  TaskStatus, WaitReason, InteractionStatus, InteractionKind, Clock, TaskRow, CheckpointRow, text,
  InteractionRow, ProjectRow, OutboxRow, Db, task_status_eq, interaction_status_eq, wait_reason_eq,
}
use md_harness.Text.{is_blank}
use md_harness.Storage.Checkpoints.{get_active}
use md_harness.Storage.Events.{record_event}
use md_harness.Transaction.Decisions.{if_set, Payload}
use md_harness.Transaction.Interactions.{kind_name}

abbrev pub expected_reason : InteractionKind → WaitReason
expected_reason InteractionKind.plan_review = WaitReason.plan_review
expected_reason _ = WaitReason.human_input

unfoldable pub set_answered : Clock → String → String → InteractionRow → InteractionRow
set_answered c actor encoded i = record i {
  status = InteractionStatus.answered;
  response_data = some encoded;
  decided_by = some actor;
  decided_at = some c.current_timestamp;
}

-- What is published: decisions, and reusable information.
unfoldable pub publishable : InteractionRow → Bool
unfolding get_member
publishable i = elim i.kind [
  | InteractionKind.human_decision ↦ true
  | InteractionKind.plan_review ↦ true
  | InteractionKind.information_request ↦ is_true (get_member "reusable" i.request_data)
]

abbrev pub key_of_project : Db → ℕ → Option String
key_of_project db id = elim (fetchone (λ (p : ProjectRow). p.id == id) db.projects) [
  | none ↦ none
  | some p ↦ p.project_key
]

-- `SELECT p.project_key FROM tasks t JOIN projects p …`
unfoldable pub project_key : ℕ → Db → Option String
unfolding Tasks.get
project_key task_id db = elim (Tasks.get task_id db) [
  | none ↦ none
  | some t ↦ elim t.project_id [ none ↦ none | some id ↦ key_of_project db id ]
]

unfoldable pub insert_outbox : String → Option String → Action Db (Unit {0})
insert_outbox id none = pure tt
insert_outbox id (some key) = do
  published ← gets (λ db. any (λ (o : OutboxRow). o.interaction_id == id) db.outbox)
  require (not published) (integrity_error "vault_decision_outbox")
  modify λ db. record db {
    outbox = db.outbox ++ record { interaction_id = id; project_key = key } ∷ [];
  }

unfoldable pub publish : ℕ → InteractionRow → Action Db (Unit {0})
unfolding project_key insert_outbox publishable
publish task_id row = do
  key ← gets (project_key task_id)
  if_set (publishable row) (insert_outbox row.interaction_id key)

abbrev pub update_interactions :
    (InteractionRow → Bool) → (InteractionRow → InteractionRow) → Action Db ℕ
update_interactions p f db =
    (return (rowcount p db.interactions), record db { interactions = update p f db.interactions })

abbrev pub another_answer : Error
another_answer = value_error "interaction already has a different answer"

abbrev pub can_answer : String → InteractionRow → Bool
can_answer id i = has_interaction_id id i && i.status == InteractionStatus.pending

-- `{"interaction_id": …, "wait_token": …, "kind": …, "actor": …}`
abbrev pub answer_payload : InteractionRow → String → Payload
answer_payload row actor =
    ("interaction_id", text row.interaction_id)
    ∷ ("wait_token", text row.wait_token)
    ∷ ("kind", text (kind_name row.kind))
    ∷ ("actor", text actor)
    ∷ []

module _ (f : Floats) (dumps : Json → String) where
  -- Behind the check that the interaction is pending.
  unfoldable pub write_answer : Clock → ℕ → InteractionRow → String → Json → Action Db Bool
  unfolding validate_response set_answered record_event publish
  write_answer c task_id row actor response = do
    lift (validate_response f row.response_schema response)
    rows ←
        update_interactions (can_answer row.interaction_id) (set_answered c actor (dumps response))
    require (rows == 1) (transaction_error "human interaction answer lost a race")
    record_event task_id "task.interaction.answered" (answer_payload row actor)
    publish task_id row
    pure true

  unfoldable pub by_state : Clock → ℕ → InteractionRow → String → Json → Action Db Bool
  unfolding write_answer
  by_state c task_id row actor response =
      if row.status == InteractionStatus.answered
      then require (sql_eq row.response_data (dumps response)) another_answer >> pure false
      else require (row.status == InteractionStatus.pending)
          (value_error "interaction is no longer pending")
        >> write_answer c task_id row actor response

  -- The guards against another task, another wait and another reason.
  unfoldable pub guarded_answer :
      Clock
      → ℕ
      → Option TaskRow
      → Option InteractionRow
      → Option CheckpointRow
      → String
      → Json
      → Action Db Bool
  unfolding by_state
  guarded_answer c task_id task found checkpoint actor response = do
    row ← require_some found (value_error "human interaction not found for task")
    require (row.task_id == task_id) (value_error "human interaction not found for task")
    require (has_status TaskStatus.waiting task)
        (value_error "task has no active waiting interaction")
    k ← require_some checkpoint (value_error "task has no active waiting interaction")
    require (sql_eq k.wait_token row.wait_token) (value_error "stale human interaction")
    require (sql_eq k.waiting_reason_code (expected_reason row.kind))
        (value_error "interaction does not match the active wait reason")
    by_state c task_id row actor response

  unfoldable pub answer : Clock → ℕ → String → String → Json → Action Db Bool
  unfolding Tasks.get get_active Interactions.get guarded_answer
  answer c task_id interaction_id actor response = do
    task ← gets (Tasks.get task_id)
    found ← gets (Interactions.get interaction_id)
    checkpoint ← gets (get_active task_id)
    guarded_answer c task_id task found checkpoint actor response

  unfoldable pub answer_human_interaction : Clock → ℕ → String → String → Json → Action Session Bool
  unfolding phase answer
  answer_human_interaction c task_id interaction_id actor response = do
    require (not (is_blank actor)) (value_error "actor is required")
    phase c (answer c task_id interaction_id actor response)
