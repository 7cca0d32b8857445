-- ===== src/Witnesses/Transactions.antt =====
-- Phases, cancellation and takeover on two tasks.
use md_harness.Prelude.{◌⊎◌, ◌≡◌, refl, true, none, some, [], ◌∷◌, arith, nat_eq, string_eq}
use md_harness.Effects.{return, raise, Action, rollback_to, ◌>>◌}
use md_harness.Sql.{fetchone, update, rowcount}
use md_harness.Schema.{TaskStatus, NextAction, TaskRow, Db, task_status_eq, attempt_status_eq}
use md_harness.Samples.{at, task_row, checkpoint_row, two_tasks}
use md_harness.Storage.Tasks.{get}
use md_harness.Storage.Tasks.Keys.{UniqueIds}
use md_harness.Storage.Checkpoints.{get_active, resumable}
use md_harness.Storage.Invocations.{has_for_task}
use md_harness.Storage.Events.{record_event}
use md_harness.Transaction.{
  ExecutionOwner, Session, claim_held, claim_lost, phase, on_connection, renew_resume,
}
use md_harness.Transaction.Decisions.{cancel_task}
use md_harness.Transaction.Resume.{
  Expected, resumable_statuses, set_taken, new_owner, own_resumed, claim_resume_lease_phase,
}
use md_harness.Transaction.Orphans.{orphaned, claim_orphaned_run}
use md_harness.Transaction.Fence.{in_force, renewed}
use md_harness.Transaction.Held.{HeldBy, phase_lem}
use md_harness.Sql.Decides.{Has}
use md_harness.Transaction.Cleanup.{cancel_task-fences}
use md_harness.Transaction.Takeover.{
  Orphan, TakenOver, claim_orphaned_run_lem, claim_orphaned_run-fences, claim_orphaned_run-holds,
}
use md_harness.Transaction.Resumption.{claim_resume_lease_phase-fences}
use md_harness.Schema.{next_action_eq}

abbrev session : Session
session = record { db = two_tasks; owner = none }

abbrev old_owner : ExecutionOwner
old_owner = new_owner 2 "old" 3 30 none

abbrev owned_session : Session
owned_session = record { db = two_tasks; owner = some old_owner }

sample-UniqueIds : UniqueIds two_tasks
sample-UniqueIds = ground arith

abbrev note : Action Db (Unit {0})
note = record_event 2 "note" []

held_early : in_force (at 40) old_owner two_tasks ≡ true
unfolding get fetchone claim_held
held_early = refl

phase_lem_example :
    (Has (HeldBy 60 old_owner) (get 2 two_tasks)
      × (phase (at 60) note owned_session
          ≡ on_connection
              (λ db.
                rollback_to db
                  ((renew_resume (at 60) old_owner none >> note) (renewed (at 60) old_owner db)))
              owned_session))
    ⊎ ((¬ Has (HeldBy 60 old_owner) (get 2 two_tasks))
        × (phase (at 60) note owned_session ≡ (raise claim_lost, owned_session)))
phase_lem_example = phase_lem (at 60) note owned_session old_owner sample-UniqueIds refl

second_cancelled : (cancel_task (at 20) 2 "stop" session).0 ≡ return tt
unfolding cancel_task get fetchone rowcount update
second_cancelled = refl

cancel_task-fences_example :
    let worker : Session = record {
      db = (cancel_task (at 20) 2 "stop" session).1.db;
      owner = some old_owner;
    } in
    phase (at 21) note worker ≡ (raise claim_lost, worker)
cancel_task-fences_example =
    cancel_task-fences (at 20) 2 "stop" session note (at 21) old_owner sample-UniqueIds
      second_cancelled refl

second_adopted : (claim_orphaned_run (at 60) 2 "new" 30 session).0 ≡ return true
unfolding claim_orphaned_run get get_active has_for_task fetchone rowcount update orphaned set_taken
second_adopted = refl

claim_orphaned_run_lem_example :
    (t : TaskRow) × Orphan (at 60) 2 t two_tasks
    × TakenOver (at 60) 2 "new" 30 none t (claim_orphaned_run (at 60) 2 "new" 30 session).1
claim_orphaned_run_lem_example =
    claim_orphaned_run_lem (at 60) 2 "new" 30 session sample-UniqueIds second_adopted

claim_orphaned_run-fences_example :
    let worker : Session = record {
      db = (claim_orphaned_run (at 60) 2 "new" 30 session).1.db;
      owner = some old_owner;
    } in
    phase (at 61) note worker ≡ (raise claim_lost, worker)
claim_orphaned_run-fences_example =
    claim_orphaned_run-fences (at 60) 2 "new" 30 session sample-UniqueIds second_adopted note
      (at 40) (at 61) old_owner refl held_early

claim_orphaned_run-holds_example :
    let after = (claim_orphaned_run (at 60) 2 "new" 30 session).1 in
    (o : ExecutionOwner) × (after.owner ≡ some o) × (in_force (at 80) o after.db ≡ true)
claim_orphaned_run-holds_example =
    claim_orphaned_run-holds (at 60) 2 "new" 30 session sample-UniqueIds second_adopted (at 80)
      (omega arith)

abbrev paused : Session
paused = record {
  db = record two_tasks {
    checkpoints = checkpoint_row 2 NextAction.retry_execution none none ∷ [];
  };
  owner = none;
}

abbrev asked_for : Expected
asked_for = record {
  revision = some 0;
  action = some NextAction.retry_execution;
  attempt_id = none;
}

paused-found : get 2 paused.db ≡ some (task_row 2 TaskStatus.executing (some "old") (some 50) 3)
unfolding get fetchone
paused-found = refl

second_resumed : (claim_resume_lease_phase (at 60) 2 "new" 30 asked_for paused).0 ≡ return true
unfolding claim_resume_lease_phase get get_active fetchone rowcount update own_resumed resumable
    resumable_statuses
second_resumed = refl

paused-held : in_force (at 40) old_owner paused.db ≡ true
unfolding get fetchone claim_held
paused-held = refl

claim_resume_lease_phase-fences_example :
    let worker : Session = record {
      db = (claim_resume_lease_phase (at 60) 2 "new" 30 asked_for paused).1.db;
      owner = some old_owner;
    } in
    phase (at 61) note worker ≡ (raise claim_lost, worker)
claim_resume_lease_phase-fences_example =
    claim_resume_lease_phase-fences (at 60) 2 "new" 30 asked_for paused refl sample-UniqueIds
      paused-found second_resumed note (at 40) (at 61) old_owner refl paused-held
