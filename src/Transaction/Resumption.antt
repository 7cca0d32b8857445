-- ===== src/Transaction/Resumption.antt =====
-- `EngineUnitOfWork.claim_resume_lease` of src/harness/storage/transaction.py: its guards, and the
-- phases of the old worker.
use md_harness.Sql.Laws.{fetchone-holds, update-Unique}
use md_harness.Storage.Tasks.Rows.{row-update}
use md_harness.Storage.Tasks.Keys.{UniqueIds}
use md_harness.Transaction.Fence.{in_force, rolled_forward}
use md_harness.Transaction.Takeover.{owner_set, TakenOver, TakenOver-fences}
use md_harness.Effects.Returned.{then_pure, bound}
use md_harness.Storage.Tasks.{has_id, get}
use md_harness.Storage.Approvals.{is_over}
use md_harness.Storage.Events.{record_event}
use md_harness.Transaction.Guards.{skipped, present}
use md_harness.Transaction.Cleanup.{record_event-other}
use md_harness.Prelude.{
  leb, Bool-cases, not-false, some_injective, ◌==◌, beq_refl, ℕ, ◌+◌, String, ◌≡◌, refl, sym, ◌∙◌,
  inl, inr, true, false, not, Option, none, some, [], ◌∷◌, nat_eq, string_eq,
}
use md_harness.Effects.{return, raise, Action}
use md_harness.Sql.{update, rowcount}
use md_harness.Schema.{
  TaskStatus, Clock, TaskRow, CheckpointRow, text, Db, task_status_eq, next_action_eq,
  attempt_status_eq,
}
use md_harness.Storage.Checkpoints.{get_active, claim_resume_lease}
use md_harness.Transaction.{ExecutionOwner, Session, claim_lost, assert_owner, phase}
use md_harness.Transaction.Resume.{
  Expected, as_expected, may_resume, fail_attempts, set_taken, at_epoch, taken_over, take_over,
  new_owner, own_resumed, try_resume, claim_resume_lease_phase,
}

-- The guards in front of the takeover of the row `t`, whose checkpoint is `k`.
pub record Resumable (c : Clock) (i : ℕ) (expected : Expected) (t : TaskRow) (k : CheckpointRow)
    (db : Db) : Type 0 where
  pub active : get_active i db ≡ some k
  pub goes_on : is_over t.status ≡ false
  pub as_asked : as_expected expected k ≡ true
  pub allowed : may_resume c i (some t) k db ≡ true

module _ (c : Clock) (i : ℕ) (token : String) (lease : ℕ) where
  -- The UPDATE of the task's row, on the state that the checkpoint's lease left.
  own_resumed-return :
      (t : TaskRow) (db : Db) {owner : Option ExecutionOwner}
      → (own_resumed c i token lease (some t) db).0 ≡ return owner
      → (owner ≡ some (new_owner i token (t.execution_epoch + 1) lease (some token)))
        × ((own_resumed c i token lease (some t) db).1.tasks
            ≡ update (at_epoch i t.execution_epoch) (set_taken c token (c.now + lease)) db.tasks)
  unfolding own_resumed take_over fail_attempts
  own_resumed-return t db returned =
      elim (Bool-cases (taken_over (at_epoch i t.execution_epoch) i token db)) [
        | inl refused ↦ elim (Bool-cases (t.status == TaskStatus.waiting)) [
          | inl waits ↦ cc (rw (waits, refused) at returned)
          | inr works ↦ cc (rw (works, refused) at returned)
        ]
        | inr free ↦ elim (Bool-cases (rowcount (at_epoch i t.execution_epoch) db.tasks == 1)) [
          | inr missed ↦ elim (Bool-cases (t.status == TaskStatus.waiting)) [
            | inl waits ↦ cc (rw (waits, free, missed) at returned)
            | inr works ↦ cc (rw (works, free, missed) at returned)
          ]
          | inl one ↦ elim (Bool-cases (t.status == TaskStatus.waiting)) [
            | inl waits ↦ (cc (rw (waits, free, one) at returned), rw (waits, free, one) refl)
            | inr works ↦ (cc (rw (works, free, one) at returned), rw (works, free, one) refl)
          ]
        ]
      ]

  claim_resume_lease-tasks : (db : Db) → (claim_resume_lease c i token lease db).1.tasks ≡ db.tasks
  unfolding claim_resume_lease
  claim_resume_lease-tasks db = elim (Bool-cases (leb 1 lease)) [
    | inl ok ↦ rw ok refl
    | inr bad ↦ rw bad refl
  ]

  try_resume-return :
      (expected : Expected) (t : TaskRow) (db : Db) {owner : Option ExecutionOwner}
      → get i db ≡ some t
      → (try_resume c i token lease expected db).0 ≡ return (some owner)
      → (k : CheckpointRow) × Resumable c i expected t k db
        × (owner ≡ some (new_owner i token (t.execution_epoch + 1) lease (some token)))
        × ((try_resume c i token lease expected db).1.tasks
            ≡ update (at_epoch i t.execution_epoch) (set_taken c token (c.now + lease)) db.tasks)
  unfolding try_resume
  try_resume-return expected t db {owner} found returned =
      let (over, e1) = skipped (is_over t.status) _ db (rw found at returned) in
      let (k, active, e2) = present (get_active i db) _ db (rw (found, e1) at returned) in
      let (odd, e3) =
        skipped (not (as_expected expected k)) _ db (rw (found, e1, e2) at returned) in
      let (banned, e4) =
        skipped (not (may_resume c i (some t) k db)) _ db (rw (found, e1, e2, e3) at returned) in
      let (claimed, _, e5) =
        bound (claim_resume_lease c i token lease db) _ (rw (found, e1, e2, e3, e4) at returned) in
      let leased = (claim_resume_lease c i token lease db).1 in
      let (_, _, e6) = present claimed _ leased (rw (found, e1, e2, e3, e4, e5) at returned) in
      let (next, owns, e7) =
        bound (own_resumed c i token lease (some t) leased) _
          (rw (found, e1, e2, e3, e4, e5, e6) at returned) in
      let taken = (own_resumed c i token lease (some t) leased).1 in
      let ended =
        then_pure (record_event i "task.resumed" (("claim_token", text token) ∷ []) taken) _
          (rw (found, e1, e2, e3, e4, e5, e6, e7) at returned) in
      let (named, rows) = own_resumed-return t leased owns in
      (
        k,
        record {
          active = active;
          goes_on = over;
          as_asked = not-false (as_expected expected k) odd;
          allowed = not-false (may_resume c i (some t) k db) banned;
        },
        sym (some_injective next owner ended.0) ∙ named,
        rw
            (
              found,
              e1,
              e2,
              e3,
              e4,
              e5,
              e6,
              e7,
              ended.1,
              record_event-other (λ d. d.tasks) (λ d r. refl) i,
              rows,
              claim_resume_lease-tasks db,
            )
            refl,
      )

  resumed-TakenOver :
      (t : TaskRow) (db after : Db)
      → UniqueIds db
      → get i db ≡ some t
      → after.tasks
        ≡ update (at_epoch i t.execution_epoch) (set_taken c token (c.now + lease)) db.tasks
      → TakenOver c i token lease (some token) t (record {
        db = after;
        owner = some (new_owner i token (t.execution_epoch + 1) lease (some token));
      })
  unfolding get
  resumed-TakenOver t db after unique found same = record {
    unique = rw same (
        unfold set_taken in
        update-Unique (λ (x : TaskRow). x.id) (at_epoch i t.execution_epoch)
          (set_taken c token (c.now + lease)) (λ x. refl) db.tasks unique);
    task =
        rw
          (
            same,
            row-update i (at_epoch i t.execution_epoch) (set_taken c token (c.now + lease))
                (λ x. unfold set_taken in refl) db,
            found,
            fetchone-holds (has_id i) db.tasks found,
            beq_refl t.execution_epoch,
          )
          refl;
    owner = refl;
  }

module _ (c : Clock) (i : ℕ) (token : String) (lease : ℕ) (expected : Expected) (s : Session)
    (free : s.owner ≡ none) (unique : UniqueIds s.db) {t : TaskRow} (found : get i s.db ≡ some t)
    (resumed : (claim_resume_lease_phase c i token lease expected s).0 ≡ return true) where
  pub claim_resume_lease_phase_lem :
      (k : CheckpointRow) × Resumable c i expected t k s.db
      × TakenOver c i token lease
          (some token)
          t
          (claim_resume_lease_phase c i token lease expected s).1
  unfolding claim_resume_lease_phase phase assert_owner
  claim_resume_lease_phase_lem =
      let (owner, answered, set) =
        owner_set (phase c (try_resume c i token lease expected) s) resumed in
      let (inner, commits) =
        rolled_forward s.db (try_resume c i token lease expected s.db) (rw free at answered) in
      let (k, guards, named, rows) =
        try_resume-return c i token lease expected t s.db found inner in
      (
        k,
        guards,
        rw (set, free, commits, named)
            (resumed-TakenOver c i token lease t s.db (try_resume c i token lease expected s.db).1
              unique found rows),
      )

  -- A resume that returns true in a session without an owner fences off every run that held the claim
  -- before: its phases are refused and change nothing, at any later time and whatever their blocks do.
  pub claim_resume_lease_phase-fences :
      {A : Type 0} (block : Action Db A) (earlier later : Clock) (o : ExecutionOwner)
      → o.task_id ≡ i
      → in_force earlier o s.db ≡ true
      → let worker : Session = record {
        db = (claim_resume_lease_phase c i token lease expected s).1.db;
        owner = some o;
      } in
        phase later block worker ≡ (raise claim_lost, worker)
  claim_resume_lease_phase-fences block earlier later o at_task held =
      let (k, guards, after) = claim_resume_lease_phase_lem in
      TakenOver-fences c i token lease (some token) s.db
        (claim_resume_lease_phase c i token lease expected s).1 found after block earlier later o
        at_task held
