-- ===== src/Storage/Tasks.antt =====
-- TaskStore of src/harness/storage/task_store.py. A method is an action on the connection; its
-- guards stand in the order of the source. `get` reads the row that a later UPDATE changes.
pub mod Rows
pub mod Keys
pub mod Claims
pub mod Granted
pub mod Exclusion
pub mod Fencing
use md_harness.Prelude.{
  ltb, leb, if◌then◌else◌, is_some, any, ◌==◌, contains, sql_eq, ℕ, ◌+◌, String, Bool, true, false,
  not, ◌&&◌, Option, none, some, List, [], ◌∷◌, ◌++◌, nat_eq, string_eq,
}
use md_harness.Effects.{
  Error, value_error, runtime_error, integrity_error, return, Action, pure, gets, ◌>>=◌, ◌>>◌,
  modify, require, require_some,
}
use md_harness.Sql.{fetchone, update, rowcount}
use md_harness.Schema.{
  TaskStatus, ApprovalStatus, AttemptStatus, Clock, TaskRow, AttemptRow, Db, task_status_eq,
  approval_status_eq, attempt_status_eq,
}

-- TRANSITIONS, with the default `set()` of its `get` for a status that is no key.
unfoldable pub transitions : TaskStatus → List TaskStatus
transitions TaskStatus.created = TaskStatus.ready ∷ TaskStatus.failed ∷ TaskStatus.cancelled ∷ []
transitions TaskStatus.ready = TaskStatus.planning ∷ TaskStatus.failed ∷ TaskStatus.cancelled ∷ []
transitions TaskStatus.planning =
    TaskStatus.executing ∷ TaskStatus.waiting ∷ TaskStatus.failed ∷ TaskStatus.cancelled ∷ []
transitions TaskStatus.executing =
    TaskStatus.validating ∷ TaskStatus.planning ∷ TaskStatus.waiting ∷ TaskStatus.failed
    ∷ TaskStatus.cancelled ∷ []
transitions TaskStatus.validating =
    TaskStatus.done ∷ TaskStatus.executing ∷ TaskStatus.planning ∷ TaskStatus.waiting
    ∷ TaskStatus.failed ∷ TaskStatus.cancelled ∷ []
transitions TaskStatus.waiting =
    TaskStatus.planning ∷ TaskStatus.executing ∷ TaskStatus.validating ∷ TaskStatus.failed
    ∷ TaskStatus.cancelled ∷ []
transitions TaskStatus.done = []
transitions TaskStatus.failed = []
transitions TaskStatus.cancelled = []

abbrev pub has_id : ℕ → TaskRow → Bool
has_id task_id t = t.id == task_id

-- `status in self.TRANSITIONS.get(task["status"], set())`
abbrev pub can_move : TaskRow → TaskStatus → Bool
can_move task status = contains (transitions task.status) status

-- The approval guard of `transition`.
abbrev pub lacks_approval : TaskRow → TaskStatus → Bool
lacks_approval task status =
    contains (TaskStatus.planning ∷ TaskStatus.executing ∷ []) status
    && not (task.approval_status == ApprovalStatus.approved)

-- An UPDATE on `tasks`; the value is its rowcount.
abbrev pub update_tasks : (TaskRow → Bool) → (TaskRow → TaskRow) → Action Db ℕ
update_tasks p f db = (return (rowcount p db.tasks), record db { tasks = update p f db.tasks })

abbrev pub update_attempts : (AttemptRow → Bool) → (AttemptRow → AttemptRow) → Action Db ℕ
update_attempts p f db =
    (return (rowcount p db.attempts), record db { attempts = update p f db.attempts })

unfoldable pub get : ℕ → Db → Option TaskRow
get task_id db = fetchone (has_id task_id) db.tasks

abbrev pub not_found : Error
not_found = value_error "task not found"

unfoldable pub require_task : ℕ → Action Db TaskRow
unfolding get
require_task task_id = do task ← gets (get task_id); require_some task not_found

-- COALESCE(column, CURRENT_TIMESTAMP)
abbrev pub coalesce {ℓ} : {A : Type ℓ} → Option A → A → Option A
coalesce (some a) b = some a
coalesce none b = some b

abbrev pub clear_claim : TaskRow → TaskRow
clear_claim t = record t { claim_token = none; claimed_at = none; claim_expires_at = none }

abbrev pub release_where : ℕ → String → TaskRow → Bool
release_where task_id run_id t = has_id task_id t && sql_eq t.claim_token run_id

unfoldable pub release_claim : ℕ → String → Action Db Bool
release_claim task_id run_id = do
  rows ← update_tasks (release_where task_id run_id) clear_claim
  pure (rows == 1)

-- The SET clause of `cancel`.
unfoldable pub set_cancelled : TaskRow → TaskRow
set_cancelled t = record t {
  status = TaskStatus.cancelled;
  claim_token = none;
  execution_epoch = t.execution_epoch + 1;
  claimed_at = none;
  claim_expires_at = none;
}

-- The unique index on `tasks.claim_token`: another row already holds the token.
abbrev pub token_taken : ℕ → String → List TaskRow → Bool
token_taken task_id token = any (λ t. not (has_id task_id t) && sql_eq t.claim_token token)

-- `completed_at IS NULL AND status = 'running'`
abbrev pub is_active : AttemptRow → Bool
is_active a = not (is_some a.completed_at) && a.status == AttemptStatus.running

module _ (c : Clock) where
  -- The SET clause of `transition`.
  unfoldable pub set_status : TaskStatus → TaskRow → TaskRow
  set_status status t = record t {
    status = status;
    started_at =
        if status == TaskStatus.executing
        then coalesce t.started_at c.current_timestamp
        else t.started_at;
    planning_started_at =
        if status == TaskStatus.planning
        then coalesce t.planning_started_at c.current_timestamp
        else t.planning_started_at;
    validation_started_at =
        if status == TaskStatus.validating
        then coalesce t.validation_started_at c.current_timestamp
        else t.validation_started_at;
    failed_at = if status == TaskStatus.failed then some c.current_timestamp else t.failed_at;
    completed_at = if status == TaskStatus.done then some c.current_timestamp else t.completed_at;
  }

  unfoldable pub transition : ℕ → TaskStatus → Action Db (Unit {0})
  unfolding require_task set_status transitions
  transition task_id status = do
    task ← require_task task_id
    require (contains (transitions task.status) status) (value_error "invalid transition")
    require
        (not (
          contains (TaskStatus.planning ∷ TaskStatus.executing ∷ []) status
          && not (task.approval_status == ApprovalStatus.approved)))
        (value_error "task must be approved before planning or execution")
    update_tasks (has_id task_id) (set_status status)
    pure tt

  -- `(claim_expires_at IS NULL OR claim_expires_at < ?)`
  abbrev pub lease_free : Option ℕ → Bool
  lease_free none = true
  lease_free (some expires) = ltb expires c.now

  abbrev pub claimable_statuses : List TaskStatus
  claimable_statuses =
      TaskStatus.ready ∷ TaskStatus.planning ∷ TaskStatus.executing ∷ TaskStatus.validating ∷ []

  -- What the WHERE clause of `claim` asks of the row, its id apart.
  unfoldable pub claimable : TaskRow → Bool
  claimable t =
      contains claimable_statuses t.status
      && t.approval_status == ApprovalStatus.approved
      && lease_free t.claim_expires_at

  -- The SET clause of `claim`.
  unfoldable pub set_claim : String → ℕ → TaskRow → TaskRow
  set_claim token expires t = record t {
    status = if t.status == TaskStatus.ready then TaskStatus.planning else t.status;
    planning_started_at = coalesce t.planning_started_at c.current_timestamp;
    claim_token = some token;
    claimed_at = some c.current_timestamp;
    claim_expires_at = some expires;
    execution_epoch = t.execution_epoch + 1;
  }

  abbrev pub claim_where : ℕ → TaskRow → Bool
  claim_where task_id t = has_id task_id t && claimable t

  -- The UPDATE of `claim` would break the unique index.
  abbrev pub claim_conflict : ℕ → String → Db → Bool
  claim_conflict task_id token db =
      token_taken task_id token db.tasks && ltb 0 (rowcount (claim_where task_id) db.tasks)

  unfoldable pub claim : ℕ → String → ℕ → Action Db Bool
  unfolding claimable set_claim
  claim task_id token lease_seconds = do
    refused ← gets (claim_conflict task_id token)
    require (not refused) (integrity_error "tasks.claim_token")
    rows ← update_tasks (claim_where task_id) (set_claim token (c.now + lease_seconds))
    pure (rows == 1)

  -- `claim_expires_at >= ?`, which is not true of NULL
  abbrev pub lease_live : Option ℕ → Bool
  lease_live none = false
  lease_live (some expires) = leb c.now expires

  abbrev pub renew_where : ℕ → String → TaskRow → Bool
  renew_where task_id run_id t =
      has_id task_id t && sql_eq t.claim_token run_id && lease_live t.claim_expires_at

  unfoldable pub renew_claim : ℕ → String → ℕ → Action Db Bool
  renew_claim task_id run_id lease_seconds = do
    rows ←
        update_tasks (renew_where task_id run_id)
          (λ t. record t { claim_expires_at = some (c.now + lease_seconds) })
    pure (rows == 1)

  unfoldable pub cancel_active_attempts : ℕ → String → Action Db ℕ
  cancel_active_attempts task_id reason =
      update_attempts (λ a. a.task_id == task_id && is_active a)
        λ a. record a {
          status = AttemptStatus.cancelled;
          completed_at = some c.current_timestamp;
          error_message = some reason;
        }

  unfoldable pub cancel : ℕ → String → Action Db ℕ
  unfolding require_task cancel_active_attempts transitions set_cancelled
  cancel task_id reason = do
    task ← require_task task_id
    require (can_move task TaskStatus.cancelled) (value_error "invalid transition")
    cancel_active_attempts task_id reason
    update_tasks (has_id task_id) set_cancelled

  -- `claim_expires_at is not None and claim_expires_at < now`
  abbrev pub lease_expired : Option ℕ → Bool
  lease_expired none = false
  lease_expired (some expires) = ltb expires c.now

  abbrev pub not_owned : Error
  not_owned = runtime_error "task claim is not owned by this run"

  unfoldable pub assert_claim : ℕ → String → Action Db (Unit {0})
  unfolding get
  assert_claim task_id run_id = do
    found ← gets (get task_id)
    task ← require_some found not_owned
    require (sql_eq task.claim_token run_id) not_owned
    require (not (lease_expired task.claim_expires_at)) (runtime_error "task claim has expired")

unfoldable pub set_approval : ApprovalStatus → ℕ → String → Option String → Action Db (Unit {0})
unfolding require_task
set_approval status task_id approved_by reason = do
  require_task task_id
  update_tasks (has_id task_id) (λ t. record t { approval_status = status })
  modify λ db. record db {
    approvals =
        db.approvals
        ++ record { task_id = task_id; status = status; approved_by = approved_by; reason = reason }
          ∷ [];
  }

unfoldable pub approve : ℕ → String → Option String → Action Db (Unit {0})
unfolding set_approval
approve = set_approval ApprovalStatus.approved

unfoldable pub revoke_approval : ℕ → String → Option String → Action Db (Unit {0})
unfolding set_approval
revoke_approval = set_approval ApprovalStatus.revoked
