-- ===== src/Transaction/Cleanup.antt =====
-- `EngineUnitOfWork.cancel` of src/harness/storage/transaction.py: what is left of a task after it,
-- and the phases of its worker.
use md_harness.Storage.Tasks.Keys.{UniqueIds}
use md_harness.Transaction.{ExecutionOwner, Session, claim_held, claim_lost, phase, unfenced}
use md_harness.Transaction.Fence.{rolled_forward, phase-lost}
use md_harness.Sql.{fetchone}
use md_harness.Sql.Laws.{
  fetchone-update, fetchone-holds, fetchone-cleared, rowcount-none, update-Unique,
}
use md_harness.Prelude.{
  Bool-cases, Option-cases, ◌==◌, ℕ, String, ◌≡◌, refl, ◌∙◌, inl, inr, Bool, true, false, ◌&&◌,
  none, some, List, [], ◌∷◌, arith, nat_eq, string_eq,
}
use md_harness.Effects.{return, raise, Action}
use md_harness.Schema.{
  TaskStatus, AttemptStatus, InteractionStatus, Clock, TaskRow, AttemptRow, text, EventRow,
  InteractionRow, Db, task_status_eq, attempt_status_eq, interaction_status_eq,
}
use md_harness.Storage.Tasks.{
  has_id, can_move, update_tasks, get, require_task, set_cancelled, is_active,
  cancel_active_attempts, cancel,
}
use md_harness.Storage.Dependencies.{task_exists}
use md_harness.Storage.Checkpoints.{of_checkpoint, is_valid, get_active, set_invalid, invalidate}
use md_harness.Storage.Events.{record_event}
use md_harness.Storage.Attempts.{has_active}
use md_harness.Transaction.Decisions.{Payload, cancel_interactions, cancel_all, cancel_task}

abbrev pub open_interaction : ℕ → InteractionRow → Bool
open_interaction i x = x.task_id == i && x.status == InteractionStatus.pending

abbrev active_of : ℕ → AttemptRow → Bool
active_of i a = a.task_id == i && is_active a

abbrev set_stopped : Clock → String → AttemptRow → AttemptRow
set_stopped c reason a = record a {
  status = AttemptStatus.cancelled;
  completed_at = some c.current_timestamp;
  error_message = some reason;
}

-- Nothing of the task goes on: it is cancelled and unclaimed, in an epoch of its own, its
-- checkpoint is not active, no attempt runs and no interaction is open.
pub record Closed (i : ℕ) (t : TaskRow) (db : Db) : Type 0 where
  pub task : get i db ≡ some (set_cancelled t)
  pub checkpoint : get_active i db ≡ none
  pub attempts : has_active i db ≡ false
  pub interactions : fetchone (open_interaction i) db.interactions ≡ none

-- `record` writes only the table of events.
pub record_event-other :
    {B : Type 0} (f : Db → B)
    → ((db : Db) (rows : List EventRow) → f (record db { events = rows }) ≡ f db)
    → (i : ℕ) (event_type : String) (payload : Payload) (db : Db)
    → f (record_event i event_type payload db).1 ≡ f db
unfolding record_event
record_event-other f same i event_type payload db = elim (Bool-cases (task_exists i db)) [
  | inl known ↦ rw known (same db _)
  | inr unknown ↦ rw unknown refl
]

-- The state that `cancel_all` leaves before its event.
unfoldable pub cancelled_db : Clock → ℕ → String → Db → Db
unfolding cancel_active_attempts set_cancelled invalidate cancel_interactions
cancelled_db c i reason db =
    let stopped = (cancel_active_attempts c i reason db).1 in
    let over = (update_tasks (has_id i) set_cancelled stopped).1 in
    let closed = (invalidate c i (some reason) over).1 in (cancel_interactions c i closed).1

module _ (c : Clock) (i : ℕ) (reason : String) (db : Db) where
  -- `cancel_all` returns only for a task that may be cancelled.
  cancel_all-return :
      (cancel_all c i reason db).0 ≡ return tt
      → (t : TaskRow) × (get i db ≡ some t) × (can_move t TaskStatus.cancelled ≡ true)
  unfolding cancel_all cancel require_task
  cancel_all-return returned = elim (Option-cases (get i db)) [
    | inl missing ↦ cc (rw missing at returned)
    | inr (t, found) ↦ elim (Bool-cases (can_move t TaskStatus.cancelled)) [
      | inl legal ↦ (t, found, legal)
      | inr illegal ↦ cc (rw (found, illegal) at returned)
    ]
  ]

  cancel_all-writes :
      (t : TaskRow)
      → get i db ≡ some t
      → can_move t TaskStatus.cancelled ≡ true
      → (cancel_all c i reason db).1
        ≡ (record_event i "task.cancelled"
            (("reason", text reason) ∷ [])
            (cancelled_db c i reason db)).1
  unfolding cancel_all cancel require_task cancelled_db
  cancel_all-writes t found legal = rw (found, legal) refl

  stopped : has_active i (cancel_active_attempts c i reason db).1 ≡ false
  unfolding cancel_active_attempts
  stopped =
      rw
        (rowcount-none (active_of i) _ (
          fetchone-cleared (active_of i) (active_of i) (set_stopped c reason) (λ k h. h)
            (λ a. ground arith) db.attempts))
        refl

  Closed-cancelled_db : (t : TaskRow) → get i db ≡ some t → Closed i t (cancelled_db c i reason db)
  unfolding get get_active cancelled_db
  Closed-cancelled_db t found = record {
    task =
        unfold set_cancelled in
        rw
          (
            fetchone-update (has_id i) (has_id i) set_cancelled (λ x. refl) db.tasks,
            found,
            fetchone-holds (has_id i) db.tasks found,
          )
          refl;
    checkpoint =
        unfold set_invalid in
        fetchone-cleared (λ k. of_checkpoint i k && is_valid k)
          (λ k. of_checkpoint i k && is_valid k) _ (λ k h. h) (λ k. ground arith) db.checkpoints;
    attempts = stopped;
    interactions =
        fetchone-cleared (open_interaction i) (open_interaction i) _ (λ k h. h) (λ k. ground arith)
          db.interactions;
  }

  Closed-event :
      (t : TaskRow) (event_type : String) (payload : Payload) (after : Db)
      → Closed i t after
      → Closed i t (record_event i event_type payload after).1
  unfolding get get_active
  Closed-event t event_type payload after closed = record {
    task = record_event-other (get i) (λ d rows. refl) i event_type payload after ∙ closed.task;
    checkpoint =
        record_event-other (get_active i) (λ d rows. refl) i event_type payload after
        ∙ closed.checkpoint;
    attempts =
        record_event-other (has_active i) (λ d rows. refl) i event_type payload after
        ∙ closed.attempts;
    interactions =
        record_event-other (λ d. fetchone (open_interaction i) d.interactions) (λ d rows. refl) i
          event_type payload after
        ∙ closed.interactions;
  }

module _ (c : Clock) (i : ℕ) (reason : String) (s : Session) where
  pub cancel_task-Closed :
      (cancel_task c i reason s).0 ≡ return tt
      → (t : TaskRow) × (get i s.db ≡ some t)
        × (can_move t TaskStatus.cancelled ≡ true)
        × Closed i t (cancel_task c i reason s).1.db
  unfolding cancel_task unfenced
  cancel_task-Closed returned =
      let (inner, commits) = rolled_forward s.db (cancel_all c i reason s.db) returned in
      let (t, found, legal) = cancel_all-return c i reason s.db inner in
      (
        t,
        found,
        legal,
        rw (commits, cancel_all-writes c i reason s.db t found legal)
            (Closed-event c i reason s.db t _ _ _ (Closed-cancelled_db c i reason s.db t found)),
      )

  unique_after :
      UniqueIds s.db
      → (cancel_task c i reason s).0 ≡ return tt
      → UniqueIds (cancel_task c i reason s).1.db
  unfolding cancel_task unfenced cancelled_db set_cancelled
  unique_after unique returned =
      let (inner, commits) = rolled_forward s.db (cancel_all c i reason s.db) returned in
      let (t, found, legal) = cancel_all-return c i reason s.db inner in
      rw
        (
          commits,
          cancel_all-writes c i reason s.db t found legal,
          record_event-other (λ d. d.tasks) (λ d rows. refl) i "task.cancelled"
              (("reason", text reason) ∷ []) (cancelled_db c i reason s.db),
        )
        (update-Unique (λ (t : TaskRow). t.id) (has_id i) set_cancelled (λ t. refl) s.db.tasks
          unique)

  -- After a cancellation, every later phase of the run that worked on the task is refused and
  -- changes nothing, whatever its block does.
  pub cancel_task-fences :
      {A : Type 0} (block : Action Db A) (later : Clock) (o : ExecutionOwner)
      → UniqueIds s.db
      → (cancel_task c i reason s).0 ≡ return tt
      → o.task_id ≡ i
      → let worker : Session = record { db = (cancel_task c i reason s).1.db; owner = some o } in
        phase later block worker ≡ (raise claim_lost, worker)
  cancel_task-fences block later o unique returned at_task =
      let (t, found, legal, closed) = cancel_task-Closed returned in
      phase-lost later block _ (unique_after unique returned) refl
        (rw (at_task, closed.task) (unfold claim_held set_cancelled in ground arith))
