-- ===== src/Transaction/Takeover.antt =====
-- `EngineUnitOfWork.claim_orphaned_run` of src/harness/storage/transaction.py: its guards, and the
-- phases of the old and the new worker.
use md_harness.Storage.Tasks.Rows.{row-update}
use md_harness.Transaction.Fence.{in_force, in_force-row, rolled_forward, phase-lost}
use md_harness.Effects.Returned.{then_pure}
use md_harness.Sql.Laws.{fetchone-holds, update-Unique}
use md_harness.Storage.Tasks.Keys.{UniqueIds}
use md_harness.Storage.Events.{record_event}
use md_harness.Transaction.Cleanup.{record_event-other}
use md_harness.Sql.{rowcount}
use md_harness.Prelude.{
  ltb, Bool-cases, is_some, or_false, is_some-none, not-false, ◌==◌, beq_refl, ℕ, ◌+◌, ◌≤◌, String,
  ◌≡◌, refl, sym, ◌∙◌, inl, inr, true, false, not, ◌||◌, Option, none, some, arith, nat_eq,
  string_eq,
}
use md_harness.Effects.{Result, return, raise, Action, rollback_on_error, and_then}
use md_harness.Schema.{Clock, TaskRow, Db, task_status_eq, attempt_status_eq}
use md_harness.Storage.Tasks.{has_id, update_tasks, get}
use md_harness.Storage.Checkpoints.{get_active}
use md_harness.Storage.Invocations.{has_for_task}
use md_harness.Transaction.{
  ExecutionOwner, Session, claim_held, claim_lost, on_connection, phase, unfenced,
}
use md_harness.Transaction.Resume.{
  claim_live, fail_attempts, set_taken, taken_over, take_over, new_owner, set_owner,
}
use md_harness.Transaction.Orphans.{
  is_working, unclaimed, orphaned, adopt, try_adopt, claim_orphaned_run,
}
use md_harness.Transaction.Guards.{skipped, present}

-- A block that names an owner, and `return True` behind it.
pub owner_set :
    (r : Result (Option (Option ExecutionOwner)) × Session)
    → (and_then r.0 set_owner r.1).0 ≡ return true
    → (owner : Option ExecutionOwner) × (r.0 ≡ return (some owner))
      × ((and_then r.0 set_owner r.1).1 ≡ record r.1 { owner = owner })
owner_set (return none, after) returned = cc
owner_set (return (some owner), after) returned = (owner, refl, refl)
owner_set (raise e, after) returned = cc

-- The guards in front of the takeover.
pub record Orphan (c : Clock) (i : ℕ) (t : TaskRow) (db : Db) : Type 0 where
  pub task : get i db ≡ some t
  pub working : is_working t.status ≡ true
  pub no_checkpoint : get_active i db ≡ none
  pub no_journal : has_for_task i db ≡ false
  pub unheld : claim_live c t ≡ false

module _ (c : Clock) (i : ℕ) (token : String) (lease : ℕ) (db : Db) where
  try_adopt-return :
      {owner : Option ExecutionOwner}
      → (try_adopt c i token lease db).0 ≡ return (some owner)
      → (t : TaskRow) × Orphan c i t db
        × (try_adopt c i token lease db ≡ adopt c i token lease t db)
  unfolding try_adopt
  try_adopt-return {owner} returned =
      let (t, found, at_task) = present (get i db) _ db returned in
      let (busy, at_work) = skipped (not (is_working t.status)) _ db (rw at_task at returned) in
      let (free, at_adopt) =
        skipped (is_some (get_active i db) || has_for_task i db || claim_live c t) _ db
          (rw (at_task, at_work) at returned) in
      let (idle, unheld) = or_false (is_some (get_active i db) || has_for_task i db) _ free in
      let (no_checkpoint, no_journal) = or_false (is_some (get_active i db)) _ idle in
      (
        t,
        record {
          task = found;
          working = not-false (is_working t.status) busy;
          no_checkpoint = is_some-none (get_active i db) no_checkpoint;
          no_journal = no_journal;
          unheld = unheld;
        },
        at_task ∙ at_work ∙ at_adopt,
      )

  -- The state that `adopt` leaves before its event.
  abbrev adopted : TaskRow → Db
  adopted t =
      let p = orphaned c i t.execution_epoch in
      (fail_attempts c i "process interrupted before checkpoint"
        (update_tasks p (set_taken c token (c.now + lease)) db).1).1

  adopt-return :
      (t : TaskRow) {owner : Option ExecutionOwner}
      → (adopt c i token lease t db).0 ≡ return (some owner)
      → (some (new_owner i token (t.execution_epoch + 1) lease none) ≡ owner)
        × ((adopt c i token lease t db).1.tasks ≡ (adopted t).tasks)
  unfolding adopt take_over fail_attempts
  adopt-return t {owner} returned =
      elim (Bool-cases (taken_over (orphaned c i t.execution_epoch) i token db)) [
        | inl refused ↦ cc (rw refused at returned)
        | inr free ↦
            let p = orphaned c i t.execution_epoch in
            let taken = (update_tasks p (set_taken c token (c.now + lease)) db).1 in
            let (missed, at_event) =
              skipped (not (rowcount p db.tasks == 1)) _ taken (rw free at returned) in
            let ended =
              then_pure (record_event i "task.recovery.claimed" _ (adopted t)) _
                (rw (free, at_event) at returned) in
            (
              cc ended.0,
              rw (free, at_event, ended.1, record_event-other (λ d. d.tasks) (λ d rows. refl) i)
                  refl,
            )
      ]

  Orphan-orphaned : (t : TaskRow) → Orphan c i t db → orphaned c i t.execution_epoch t ≡ true
  unfolding orphaned get
  Orphan-orphaned t orphan =
      rw
        (fetchone-holds (has_id i) db.tasks orphan.task, beq_refl t.execution_epoch, orphan.working)
        (lapsed t orphan.unheld)
    where
      lapsed : (u : TaskRow) → claim_live c u ≡ false → unclaimed c u ≡ true
      lapsed u h = ground arith

-- The state in which a run has taken the task over from the row `t`.
pub record TakenOver (c : Clock) (i : ℕ) (token : String) (lease : ℕ) (resume_token : Option String)
    (t : TaskRow) (s : Session) : Type 0 where
  pub unique : UniqueIds s.db
  pub task : get i s.db ≡ some (set_taken c token (c.now + lease) t)
  pub owner : s.owner ≡ some (new_owner i token (t.execution_epoch + 1) lease resume_token)

-- A claim that was held at any time is not held in the next epoch.
stale_claim :
    (c earlier later : Clock) (token : String) (expires : ℕ) (o : ExecutionOwner) (t : TaskRow)
    → claim_held earlier o t ≡ true
    → claim_held later o (set_taken c token expires t) ≡ false
unfolding claim_held set_taken
stale_claim c earlier later token expires o t held = ground arith

fresh_claim :
    (c later : Clock) (token : String) (i lease : ℕ) (t : TaskRow)
    → is_working t.status ≡ true
    → later.now ≤ c.now + lease
    → claim_held later
        (new_owner i token (t.execution_epoch + 1) lease none)
        (set_taken c token (c.now + lease) t)
      ≡ true
unfolding claim_held set_taken
fresh_claim c later token i lease t working early =
    rw (beq_refl token, beq_refl (t.execution_epoch + 1)) (ground arith)

-- A takeover fences off every run that held the claim before.
pub TakenOver-fences :
    (c : Clock) (i : ℕ) (token : String) (lease : ℕ) (resume_token : Option String) (before : Db)
    (s : Session) {t : TaskRow}
    → get i before ≡ some t
    → TakenOver c i token lease resume_token t s
    → {A : Type 0} (block : Action Db A) (earlier later : Clock) (o : ExecutionOwner)
    → o.task_id ≡ i
    → in_force earlier o before ≡ true
    → let worker : Session = record { db = s.db; owner = some o } in
      phase later block worker ≡ (raise claim_lost, worker)
TakenOver-fences c i token lease resume_token before s {t} found after block earlier later o at_task
      held =
    phase-lost later block _ after.unique refl (
      in_force-row later o _ (rw at_task after.task)
      ∙ stale_claim c earlier later token (c.now + lease) o t
          (sym (in_force-row earlier o before (rw at_task found)) ∙ held))

module _ (c : Clock) (i : ℕ) (token : String) (lease : ℕ) (s : Session)
    (unique : UniqueIds s.db) where
  adopted-TakenOver :
      (t : TaskRow) (after : Db)
      → Orphan c i t s.db
      → after.tasks ≡ (adopted c i token lease s.db t).tasks
      → TakenOver c i token lease none t (record {
        db = after;
        owner = some (new_owner i token (t.execution_epoch + 1) lease none);
      })
  unfolding get fail_attempts
  adopted-TakenOver t after orphan same = record {
    unique = rw same (
        unfold set_taken in
        update-Unique (λ (x : TaskRow). x.id) (orphaned c i t.execution_epoch)
          (set_taken c token (c.now + lease)) (λ x. refl) s.db.tasks unique);
    task =
        rw
          (
            same,
            row-update i (orphaned c i t.execution_epoch) (set_taken c token (c.now + lease))
                (λ x. unfold set_taken in refl) s.db,
            orphan.task,
            Orphan-orphaned c i token lease s.db t orphan,
          )
          refl;
    owner = refl;
  }

  -- A takeover that returns true found a task in work, with no active checkpoint, no journal of
  -- tool calls and no live claim; afterwards the row and the session carry the new claim, in the
  -- next epoch.
  pub claim_orphaned_run_lem :
      (claim_orphaned_run c i token lease s).0 ≡ return true
      → (t : TaskRow) × Orphan c i t s.db
        × TakenOver c i token lease none t (claim_orphaned_run c i token lease s).1
  unfolding claim_orphaned_run unfenced
  claim_orphaned_run_lem returned = elim (Bool-cases (ltb lease 1)) [
    | inl short ↦ cc (rw short at returned)
    | inr long ↦
        let (owner, answered, set) =
          owner_set (on_connection (rollback_on_error (try_adopt c i token lease)) s)
            (rw long at returned) in
        let (inner, commits) = rolled_forward s.db (try_adopt c i token lease s.db) answered in
        let (t, orphan, adopts) = try_adopt-return c i token lease s.db inner in
        let (named, tasks) = adopt-return c i token lease s.db t (rw adopts at inner) in
        (
          t,
          orphan,
          rw (long, set, commits, adopts, sym named)
              (adopted-TakenOver t (adopt c i token lease t s.db).1 orphan tasks),
        )
  ]

  module _ (taken : (claim_orphaned_run c i token lease s).0 ≡ return true) where
    -- A takeover fences off every run that held the claim before: its phases are refused and change
    -- nothing, at any later time and whatever their blocks do.
    pub claim_orphaned_run-fences :
        {A : Type 0} (block : Action Db A) (earlier later : Clock) (o : ExecutionOwner)
        → o.task_id ≡ i
        → in_force earlier o s.db ≡ true
        → let worker : Session = record {
          db = (claim_orphaned_run c i token lease s).1.db;
          owner = some o;
        } in
          phase later block worker ≡ (raise claim_lost, worker)
    claim_orphaned_run-fences block earlier later o at_task held =
        let (t, orphan, after) = claim_orphaned_run_lem taken in
        TakenOver-fences c i token lease none s.db (claim_orphaned_run c i token lease s).1
          orphan.task after block earlier later o at_task held

    -- The run that took the task over holds the claim in every phase up to the end of its lease.
    pub claim_orphaned_run-holds :
        (later : Clock)
        → later.now ≤ c.now + lease
        → let after = (claim_orphaned_run c i token lease s).1 in
          (o : ExecutionOwner) × (after.owner ≡ some o) × (in_force later o after.db ≡ true)
    claim_orphaned_run-holds later early =
        let (t, orphan, after) = claim_orphaned_run_lem taken in
        (
          _,
          after.owner,
          in_force-row later _ _ after.task
              ∙ fresh_claim c later token i lease t orphan.working early,
        )
