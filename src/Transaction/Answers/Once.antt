-- ===== src/Transaction/Answers/Once.antt =====
-- What an accepted answer found, and that an interaction is answered once, of
-- EngineUnitOfWork.answer_human_interaction.
use md_harness.Sql.Laws.{fetchone-update}
use md_harness.Storage.Interactions.{has_interaction_id}
use md_harness.Effects.Returned.{required, then_pure, some_required, bound}
use md_harness.Storage.Events.{record_event}
use md_harness.Transaction.Cleanup.{record_event-other}
use md_harness.Transaction.Decisions.{if_set}
use md_harness.Storage.Tasks
use md_harness.Storage.Interactions
use md_harness.Prelude.{
  if◌then◌else◌, Bool-cases, any, ◌==◌, sql_eq, beq_refl, ℕ, String, ◌≡◌, refl, ◌∙◌, inl, inr, Bool,
  true, false, Option, none, some, List, nat_eq, string_eq,
}
use md_harness.Effects.{return, raise, Action, pure, lift, ◌>>◌, require}
use md_harness.Json.{Json}
use md_harness.Json.Equality.{Floats}
use md_harness.Sql.{update, rowcount}
use md_harness.Schema.{
  TaskStatus, InteractionStatus, Clock, CheckpointRow, InteractionRow, OutboxRow, Db,
  task_status_eq, interaction_status_eq, wait_reason_eq,
}
use md_harness.Storage.Checkpoints.{get_active}
use md_harness.Storage.Interactions.Responses.{validate_response}
use md_harness.Transaction.Tools.{has_status}
use md_harness.Transaction.Answers.{
  expected_reason, set_answered, publishable, project_key, insert_outbox, publish, another_answer,
  can_answer, answer_payload, write_answer, by_state, guarded_answer, answer,
}

module _ (f : Floats) (dumps : Json → String) (c : Clock) (i : ℕ) (actor : String)
    (response : Json) where
  abbrev pub answer_where : InteractionRow → InteractionRow → Bool
  answer_where row = can_answer row.interaction_id

  -- What `answer` found in `db`.
  pub record Accepted (id : String) (db : Db) (row : InteractionRow) (k : CheckpointRow)
      : Type 0 where
    pub found : Interactions.get id db ≡ some row
    pub of_task : (row.task_id == i) ≡ true
    pub waits : has_status TaskStatus.waiting (Tasks.get i db) ≡ true
    pub active : get_active i db ≡ some k
    pub token : sql_eq k.wait_token row.wait_token ≡ true
    pub reason : sql_eq k.waiting_reason_code (expected_reason row.kind) ≡ true
    pub pending : (row.status == InteractionStatus.pending) ≡ true
    pub valid : validate_response f row.response_schema response ≡ return tt

  -- What it wrote.
  pub record Written (row : InteractionRow) (db after : Db) : Type 0 where
    pub interactions :
        after.interactions
        ≡ update (answer_where row) (set_answered c actor (dumps response)) db.interactions
    pub tasks : after.tasks ≡ db.tasks
    pub checkpoints : after.checkpoints ≡ db.checkpoints

  publish-other :
      {B : Type 0} (g : Db → B)
      → ((db : Db) (rows : List OutboxRow) → g (record db { outbox = rows }) ≡ g db)
      → (row : InteractionRow) (db : Db) → g (publish i row db).1 ≡ g db
  unfolding publish insert_outbox
  publish-other g same row db = by_case (publishable row) (project_key i db)
    where
      by_case :
          (b : Bool) (o : Option String)
          → g (if_set b (insert_outbox row.interaction_id o) db).1 ≡ g db
      by_case false o = refl
      by_case true none = refl
      by_case true (some key) =
          elim (Bool-cases
            (any (λ (o : OutboxRow). o.interaction_id == row.interaction_id) db.outbox)) [
              | inl e ↦ rw e refl
              | inr e ↦ rw e (same db _)
            ]

  abbrev answered_db : InteractionRow → Db → Db
  answered_db row db = record db {
    interactions =
        update (answer_where row) (set_answered c actor (dumps response)) db.interactions;
  }

  abbrev noted_answer : InteractionRow → Action Db (Unit {0})
  noted_answer row db =
      record_event i "task.interaction.answered" (answer_payload row actor) (answered_db row db)

  written :
      (row : InteractionRow) (db : Db) → Written row db (publish i row (noted_answer row db).1).1
  written row db = record {
    interactions =
        publish-other (λ d. d.interactions) (λ d rows. refl) row (noted_answer row db).1
        ∙ record_event-other (λ d. d.interactions) (λ d rows. refl) i _ _ (answered_db row db);
    tasks =
        publish-other (λ d. d.tasks) (λ d rows. refl) row (noted_answer row db).1
        ∙ record_event-other (λ d. d.tasks) (λ d rows. refl) i _ _ (answered_db row db);
    checkpoints =
        publish-other (λ d. d.checkpoints) (λ d rows. refl) row (noted_answer row db).1
        ∙ record_event-other (λ d. d.checkpoints) (λ d rows. refl) i _ _ (answered_db row db);
  }

  written_lem :
      (row : InteractionRow) (db : Db)
      → (write_answer f dumps c i row actor response db).0 ≡ return true
      → (validate_response f row.response_schema response ≡ return tt)
        × Written row db (write_answer f dumps c i row actor response db).1
  unfolding write_answer
  written_lem row db returned =
      let (u, valid, rest) =
        bound (lift (validate_response f row.response_schema response) db) _ returned in
      let (counted, rest') =
        required (rowcount (answer_where row) db.interactions == 1) _ _ (answered_db row db)
          (rw valid at returned) in
      let (v, noted, rest'') = bound (noted_answer row db) _ (rw (valid, counted) at returned) in
      let (done, last) =
        then_pure (publish i row (noted_answer row db).1) true
          (rw (valid, counted, noted) at returned) in
      (valid, rw (valid, counted, noted, last) (written row db))

  by_state_lem :
      (row : InteractionRow) (db : Db)
      → (by_state f dumps c i row actor response db).0 ≡ return true
      → ((row.status == InteractionStatus.pending) ≡ true)
        × ((write_answer f dumps c i row actor response db).0 ≡ return true)
        × (by_state f dumps c i row actor response db
            ≡ write_answer f dumps c i row actor response db)
  unfolding by_state
  by_state_lem row db returned = elim (Bool-cases (row.status == InteractionStatus.answered)) [
    | inl old ↦
        let (same, rest) =
          required (sql_eq row.response_data (dumps response)) another_answer (pure false) db
            (rw old at returned) in
        cc (rw (old, same) at returned)
    | inr other ↦
        let (open', rest) =
          required (row.status == InteractionStatus.pending) _
            (write_answer f dumps c i row actor response) db (rw other at returned) in
        (open', rw (other, open') at returned, rw (other, open') refl)
  ]

  -- An answer that returns true found the interaction of the task, pending, the task waiting in an
  -- active checkpoint with the interaction's token and reason, and a response that the schema allows.
  -- It marks the interaction as answered, and leaves the tasks and the checkpoints.
  pub answer_lem :
      (id : String) (db : Db)
      → (answer f dumps c i id actor response db).0 ≡ return true
      → (row : InteractionRow) × (k : CheckpointRow) × Accepted id db row k
        × Written row db (answer f dumps c i id actor response db).1
  unfolding answer guarded_answer
  answer_lem id db returned =
      let (row, found, _) = some_required (Interactions.get id db) _ _ db returned in
      let (own, _) = required (row.task_id == i) _ _ db (rw found at returned) in
      let (waits, _) =
        required (has_status TaskStatus.waiting (Tasks.get i db)) _ _ db
          (rw (found, own) at returned) in
      let (k, active, _) =
        some_required (get_active i db) _ _ db (rw (found, own, waits) at returned) in
      let (token, _) =
        required (sql_eq k.wait_token row.wait_token) _ _ db
          (rw (found, own, waits, active) at returned) in
      let (reason, last) =
        required (sql_eq k.waiting_reason_code (expected_reason row.kind)) _ _ db
          (rw (found, own, waits, active, token) at returned) in
      let (pending, returned', same) =
        by_state_lem row db (rw (found, own, waits, active, token, reason) at returned) in
      let (valid, wrote) = written_lem row db returned' in
      (
        row,
        k,
        record {
          found = found;
          of_task = own;
          waits = waits;
          active = active;
          token = token;
          reason = reason;
          pending = pending;
          valid = valid;
        },
        rw (found, own, waits, active, token, reason, same) wrote,
      )

  module _ (id : String) (db after : Db) (row : InteractionRow) (k : CheckpointRow)
      (accepted : Accepted id db row k) (wrote : Written row db after) where
    abbrev answered_row : InteractionRow
    answered_row = set_answered c actor (dumps response) row

    found_after : Interactions.get id after ≡ some answered_row
    unfolding Interactions.get set_answered
    found_after =
        let hit : answer_where row row ≡ true = rw (beq_refl row.interaction_id) accepted.pending in
        rw (wrote.interactions) (
          fetchone-update (has_interaction_id id) (answer_where row)
            (set_answered c actor (dumps response)) (λ x. refl) db.interactions
          ∙ rw (accepted.found, hit) refl)

    waits_after : has_status TaskStatus.waiting (Tasks.get i after) ≡ true
    unfolding Tasks.get
    waits_after = rw (wrote.tasks) accepted.waits

    active_after : get_active i after ≡ some k
    unfolding get_active
    active_after = rw (wrote.checkpoints) accepted.active

    answered_again :
        (c' : Clock) (actor' : String) (response' : Json)
        → answer f dumps c' i id actor' response' after ≡ (
          if dumps response == dumps response' then return false else raise another_answer,
          after,
        )
    unfolding answer guarded_answer by_state set_answered
    answered_again c' actor' response' =
        rw
          (
            found_after, accepted.of_task, waits_after, active_after, accepted.token,
            accepted.reason,
          )
          (by_text (dumps response == dumps response'))
      where
        by_text :
            (b : Bool)
            → (require b another_answer >> pure false) after
              ≡ (if b then return false else raise another_answer, after)
        by_text true = refl
        by_text false = refl

  -- After an answer that returned true, any later answer to the interaction, by whomever, is answered
  -- with false if its text is the same, and with an error if not; both change nothing.
  pub answer-once :
      (id : String) (db : Db)
      → (answer f dumps c i id actor response db).0 ≡ return true
      → (c' : Clock) (actor' : String) (response' : Json)
      → let after = (answer f dumps c i id actor response db).1 in
        answer f dumps c' i id actor' response' after
        ≡ (if dumps response == dumps response' then return false else raise another_answer, after)
  answer-once id db returned =
      let (row, k, accepted, wrote) = answer_lem id db returned in
      answered_again id db (answer f dumps c i id actor response db).1 row k accepted wrote
