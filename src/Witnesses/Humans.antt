-- ===== src/Witnesses/Humans.antt =====
-- Answers to questions, and validations.
use md_harness.Storage.Tasks
use md_harness.Storage.Interactions
use md_harness.Prelude.{
  ◌==◌, String, ◌≡◌, refl, ◌↔◌, true, false, none, some, [], ◌∷◌, nat_eq, string_eq,
}
use md_harness.Json.{Json, string, object, no_members, member, get_member}
use md_harness.Json.Equality.{Floats, equal, in_items}
use md_harness.Effects.{return, raise}
use md_harness.Sql.{fetchone, update, rowcount}
use md_harness.Schema.{
  NextAction, WaitReason, InteractionStatus, InteractionKind, CheckpointRow, InteractionRow, Db,
  task_status_eq, interaction_status_eq, wait_reason_eq,
}
use md_harness.Samples.{at, checkpoint_row, waiting_db}
use md_harness.Engine.Hitl.{review_schema}
use md_harness.Storage.Checkpoints.{get_active}
use md_harness.Storage.Events.{record_event}
use md_harness.Storage.Interactions.Schemas.{
  check_supported, is_enum, check_required, is_object_type, check_object, check_keywords,
  validate_schema,
}
use md_harness.Storage.Interactions.Responses.{
  passes, check_type, required_names, names_key, properties_of, check_extra, check_fields, in_enum,
  check_enum, validate_response,
}
use md_harness.Storage.Interactions.Conforms.{Conforms}
use md_harness.Storage.Interactions.Decides.{validate_response_iff}
use md_harness.Transaction.Answers.{
  set_answered, publishable, project_key, insert_outbox, publish, another_answer, write_answer,
  by_state, guarded_answer, answer,
}
use md_harness.Transaction.Answers.Once.{Accepted, Written, answer_lem, answer-once}

abbrev texts_only : Floats
texts_only = record { equals_integer = λ s n r. false; equals_float = λ r q. r == q }

abbrev approved : Json
approved = object (member "decision" (string "approved") no_members)

abbrev refused : Json
refused = object (member "decision" (string "changes_requested") no_members)

review_schema-IsSchema : validate_schema review_schema ≡ return tt
unfolding validate_schema check_keywords check_supported is_enum is_object_type check_object
    check_required get_member
review_schema-IsSchema = refl

validate_response_iff_example :
    (validate_response texts_only review_schema approved ≡ return tt)
    ↔ Conforms texts_only review_schema approved
validate_response_iff_example =
    validate_response_iff texts_only review_schema approved review_schema-IsSchema

approved_passes : validate_response texts_only review_schema approved ≡ return tt
unfolding validate_response check_type passes check_enum in_enum in_items equal check_fields
    properties_of required_names names_key check_extra get_member
approved_passes = refl

-- The first decision, as its text.
abbrev decision_text : Json → String
decision_text (object (member k (string s) rest)) = s
decision_text _ = ""

abbrev question : InteractionRow
question = record {
  interaction_id = "q1";
  task_id = 1;
  wait_token = "w1";
  kind = InteractionKind.plan_review;
  prompt = "Review this plan before execution.";
  response_schema = review_schema;
  request_data = no_members;
  response_data = none;
  resume_action = NextAction.retry_execution;
  plan_version = some 1;
  plan_fingerprint = none;
  status = InteractionStatus.pending;
  decided_by = none;
  decided_at = none;
}

abbrev asked_db : Db
asked_db = record waiting_db {
  checkpoints = checkpoint_row 1 NextAction.wait (some WaitReason.plan_review) (some "w1") ∷ [];
  interactions = question ∷ [];
}

answered : (answer texts_only decision_text (at 5) 1 "q1" "ada" approved asked_db).0 ≡ return true
unfolding answer guarded_answer by_state write_answer record_event publish project_key insert_outbox
    publishable set_answered rowcount fetchone update Tasks.get Interactions.get get_active
    validate_response check_type passes check_enum in_enum in_items equal check_fields properties_of
    required_names names_key check_extra get_member
answered = refl

answer_lem_example :
    (row : InteractionRow) × (k : CheckpointRow) × Accepted texts_only decision_text
      (at 5)
      1
      "ada"
      approved
      "q1"
      asked_db
      row
      k
    × Written texts_only decision_text
        (at 5)
        1
        "ada"
        approved
        row
        asked_db
        (answer texts_only decision_text (at 5) 1 "q1" "ada" approved asked_db).1
answer_lem_example =
    answer_lem texts_only decision_text (at 5) 1 "ada" approved "q1" asked_db answered

answer-once_example :
    answer texts_only decision_text
      (at 9)
      1
      "q1"
      "bob"
      refused
      (answer texts_only decision_text (at 5) 1 "q1" "ada" approved asked_db).1
    ≡ (
      raise another_answer,
      (answer texts_only decision_text (at 5) 1 "q1" "ada" approved asked_db).1,
    )
answer-once_example =
    answer-once texts_only decision_text (at 5) 1 "ada" approved "q1" asked_db answered (at 9) "bob"
      refused
