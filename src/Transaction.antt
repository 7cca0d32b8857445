-- ===== src/Transaction.antt =====
-- TransactionManager of src/harness/storage/transaction.py: the fence in front of each transaction.
-- Transactions are not nested, as in EngineUnitOfWork.
pub mod Resume
pub mod Guards
pub mod Orphans
pub mod Decisions
pub mod Validation
pub mod Tools
pub mod Fence
pub mod Held
pub mod External
pub mod Interactions
pub mod Answers
pub mod Takeover
pub mod Resumption
pub mod Cleanup
use md_harness.Prelude.{
  ◌==◌, sql_eq, ℕ, ◌+◌, String, Bool, not, ◌&&◌, Option, none, some, [], ◌∷◌, nat_eq, string_eq,
}
use md_harness.Effects.{
  Error, transaction_error, Result, return, raise, Action, pure, rollback_on_error, ◌>>=◌, ◌>>◌,
  require,
}
use md_harness.Schema.{TaskStatus, Clock, TaskRow, CheckpointRow, text, Db, task_status_eq}
use md_harness.Storage.Tasks.{has_id, update_tasks, transition, lease_live}
use md_harness.Storage.Checkpoints.{of_checkpoint, update_checkpoints, is_valid}
use md_harness.Storage.Approvals.{is_over}
use md_harness.Storage.Events.{record_event}

pub record ExecutionOwner : Type 0 where
  pub task_id : ℕ
  pub token : String
  pub epoch : ℕ
  pub lease_seconds : ℕ
  pub resume_token : Option String

-- The manager: its connection, and the context variable `execution_owner`.
pub record Session : Type 0 where
  pub db : Db
  pub owner : Option ExecutionOwner

-- What the renewal in `assert_owner` asks of the row, its id apart.
unfoldable pub claim_held : Clock → ExecutionOwner → TaskRow → Bool
claim_held c o t =
    sql_eq t.claim_token o.token
    && t.execution_epoch == o.epoch
    && not (is_over t.status)
    && lease_live c t.claim_expires_at

abbrev pub owned : Clock → ExecutionOwner → TaskRow → Bool
owned c o t = has_id o.task_id t && claim_held c o t

unfoldable pub resume_owned : Clock → ExecutionOwner → String → CheckpointRow → Bool
resume_owned c o token k =
    of_checkpoint o.task_id k
    && sql_eq k.resume_claim_token token
    && is_valid k
    && lease_live c k.resume_claim_expires_at

unfoldable pub renew_resume : Clock → ExecutionOwner → Option String → Action Db (Unit {0})
unfolding resume_owned
renew_resume c o none = pure tt
renew_resume c o (some token) = do
  rows ←
      update_checkpoints (resume_owned c o token)
        (λ k. record k { resume_claim_expires_at = some (c.now + o.lease_seconds) })
  require (rows == 1) (transaction_error "resume checkpoint claim was lost")

abbrev pub claim_lost : Error
claim_lost = transaction_error "task execution claim was lost"

unfoldable pub assert_owner : Clock → Option ExecutionOwner → Action Db (Unit {0})
unfolding claim_held renew_resume
assert_owner c none = pure tt
assert_owner c (some o) = do
  rows ←
      update_tasks (owned c o) (λ t. record t { claim_expires_at = some (c.now + o.lease_seconds) })
  require (rows == 1) claim_lost
  renew_resume c o o.resume_token

-- The block's changes are the connection's, committed or rolled back.
abbrev pub on_connection {ℓ} : {A : Type ℓ} → Action Db A → Action Session A
on_connection block s = let (r, db) = block s.db in (r, record s { db = db })

-- `with self.phase()`, that is `with self.manager.atomic()`
unfoldable pub phase {ℓ} : {A : Type ℓ} → Clock → Action Db A → Action Session A
unfolding assert_owner
phase c block s = on_connection (rollback_on_error (assert_owner c s.owner >> block)) s

-- `with self.manager.atomic(fenced=False)`
unfoldable pub unfenced {ℓ} : {A : Type ℓ} → Action Db A → Action Session A
unfenced block = on_connection (rollback_on_error block)

abbrev pub not_persisted : Result (Unit {0}) → Result (Unit {0})
not_persisted (return a) = return a
not_persisted (raise e) = raise (transaction_error "could not persist transaction failure")

unfoldable pub fail_task : Clock → ℕ → String → Action Db (Unit {0})
unfolding transition record_event
fail_task c task_id message = do
  transition c task_id TaskStatus.failed
  record_event task_id "task.persistence.failed" (("error", text message) ∷ [])

unfoldable pub record_failure : Clock → ℕ → String → Action Session (Unit {0})
unfolding phase fail_task
record_failure c task_id message s =
    let (r, s') = phase c (fail_task c task_id message) s in (not_persisted r, s')
