-- ===== src/Transaction/Fence.antt =====
-- Phases and transactions of src/harness/storage/transaction.py around any block: the owner check
-- and the rollback.
use md_harness.Prelude.{
  Bool-cases, ◌==◌, ◌+◌, ◌≡◌, refl, ap, inl, inr, Bool, true, false, some, arith, nat_eq, string_eq,
}
use md_harness.Effects.{Error, Result, return, raise, Action, rollback_to, ◌>>◌}
use md_harness.Sql.{update, rowcount}
use md_harness.Sql.Laws.{matched, rowcount-key}
use md_harness.Schema.{Clock, TaskRow, Db, task_status_eq}
use md_harness.Storage.Tasks.{get}
use md_harness.Storage.Tasks.Keys.{UniqueIds}
use md_harness.Transaction.{
  ExecutionOwner, Session, claim_held, owned, renew_resume, claim_lost, assert_owner, on_connection,
  phase,
}

-- The row that `get` finds carries the owner's claim.
abbrev pub in_force : Clock → ExecutionOwner → Db → Bool
in_force c o db = matched (λ (t : TaskRow). t.id) (claim_held c o) (get o.task_id db) == 1

module _ (c : Clock) (o : ExecutionOwner) (db : Db) (unique : UniqueIds db) where
  renewed_rows : (rowcount (owned c o) db.tasks == 1) ≡ in_force c o db
  unfolding get
  renewed_rows =
      rw (rowcount-key (λ (t : TaskRow). t.id) o.task_id (claim_held c o) db.tasks unique) refl

rolled_back :
    {A : Type 0} (before : Db) (r : Result A × Db) {e : Error}
    → (rollback_to before r).0 ≡ raise e
    → (rollback_to before r).1 ≡ before
rolled_back before (return a, after) raised = cc
rolled_back before (raise e, after) raised = refl

pub in_force-row :
    (c : Clock) (o : ExecutionOwner) (db : Db) {t : TaskRow}
    → get o.task_id db ≡ some t
    → in_force c o db ≡ claim_held c o t
in_force-row c o db {t} found = rw found (ground arith)

-- What a transaction that returns leaves is what its block left.
pub rolled_forward :
    {A : Type 0} (before : Db) (r : Result A × Db) {a : A}
    → (rollback_to before r).0 ≡ return a
    → (r.0 ≡ return a) × ((rollback_to before r).1 ≡ r.1)
rolled_forward before (return a, after) returned = (returned, refl)
rolled_forward before (raise e, after) returned = cc

abbrev pub renewed : Clock → ExecutionOwner → Db → Db
renewed c o db = record db {
  tasks =
      update (owned c o) (λ t. record t { claim_expires_at = some (c.now + o.lease_seconds) })
        db.tasks;
}

module _ {A : Type 0} (c : Clock) (block : Action Db A) (s : Session) where
  -- When a phase raises, the connection is as it was before, whatever its block had written.
  phase-raise : {e : Error} → (phase c block s).0 ≡ raise e → (phase c block s).1 ≡ s
  unfolding phase
  phase-raise raised =
      ap (λ db. record s { db = db })
        (rolled_back s.db ((assert_owner c s.owner >> block) s.db) raised)

  -- A phase of a run that no longer holds the claim (another token, another epoch, a task that is
  -- over, or a lease that has ended) is refused and changes nothing, whatever its block does.
  pub phase-lost :
      {o : ExecutionOwner}
      → UniqueIds s.db
      → s.owner ≡ some o
      → in_force c o s.db ≡ false
      → phase c block s ≡ (raise claim_lost, s)
  unfolding phase assert_owner
  phase-lost {o} unique owner lost = rw (owner, renewed_rows c o s.db unique, lost) refl

  -- A phase that returns did so for a run that held the claim when it began.
  pub phase-return :
      {o : ExecutionOwner} {a : A}
      → UniqueIds s.db
      → s.owner ≡ some o
      → (phase c block s).0 ≡ return a
      → in_force c o s.db ≡ true
  phase-return {o} unique owner returned = elim (Bool-cases (in_force c o s.db)) [
    | inl held ↦ held
    | inr lost ↦ cc (phase-lost unique owner lost, returned)
  ]

  -- A phase of the run that holds the claim renews the claim, and the resume lease, and runs its
  -- block on that state, with a rollback when one raises.
  pub phase-held :
      {o : ExecutionOwner}
      → UniqueIds s.db
      → s.owner ≡ some o
      → in_force c o s.db ≡ true
      → phase c block s
        ≡ on_connection
            (λ db. rollback_to db ((renew_resume c o o.resume_token >> block) (renewed c o db)))
            s
  unfolding phase assert_owner
  phase-held {o} unique owner held = rw (owner, renewed_rows c o s.db unique, held) refl
