-- ===== src/Storage/Approvals.antt =====
-- ApprovalStore of src/harness/storage/approval_store.py, and `request_for_step` of
-- src/harness/security/approval.py: grants bound to one wait and one planned tool call.
pub mod Grants
use md_harness.Storage.Tasks
use md_harness.Storage.Checkpoints
use md_harness.Prelude.{
  if◌then◌else◌, is_some, ◌==◌, contains, sql_eq, ℕ, String, Bool, true, false, not, ◌&&◌, ◌||◌,
  Option, none, some, [], ◌∷◌, ◌++◌, nat_eq, string_eq,
}
use md_harness.Effects.{
  Error, value_error, integrity_error, return, Action, pure, throw, gets, ◌>>=◌, ◌>>◌, modify,
  require, require_some,
}
use md_harness.Sql.{fetchone, update, rowcount}
use md_harness.Schema.{
  TaskStatus, ApprovalStatus, WaitReason, Clock, TaskRow, CheckpointRow, StepApprovalRow, Db,
  task_status_eq, approval_status_eq, wait_reason_eq,
}
use md_harness.Text.{is_blank}
use md_harness.Storage.Dependencies.{task_exists}
use md_harness.Storage.Checkpoints.{is_valid}

-- The dictionary that `request_for_step` gives.
pub record ApprovalRequest : Type 0 where
  pub plan_version : ℕ
  pub plan_fingerprint : String
  pub step_id : String
  pub tool : String
  pub arguments_fingerprint : String
  pub permission_scope : String

abbrev pub has_wait_token : String → StepApprovalRow → Bool
has_wait_token wait_token a = a.wait_token == wait_token

abbrev pub update_approvals :
    (StepApprovalRow → Bool) → (StepApprovalRow → StepApprovalRow) → Action Db ℕ
update_approvals p f db = (
  return (rowcount p db.step_approvals),
  record db { step_approvals = update p f db.step_approvals },
)

unfoldable pub get_grant : String → Db → Option StepApprovalRow
get_grant wait_token db = fetchone (has_wait_token wait_token) db.step_approvals

-- The status is the column's default.
unfoldable pub requested : ℕ → String → ApprovalRequest → StepApprovalRow
requested task_id wait_token r = record {
  wait_token = wait_token;
  task_id = task_id;
  plan_version = r.plan_version;
  plan_fingerprint = r.plan_fingerprint;
  step_id = r.step_id;
  tool = r.tool;
  arguments_fingerprint = r.arguments_fingerprint;
  permission_scope = r.permission_scope;
  status = ApprovalStatus.pending;
  decided_by = none;
  decided_at = none;
}

-- A NULL wait token breaks NOT NULL, a used one the primary key.
unfoldable pub create : ℕ → Option String → ApprovalRequest → Action Db (Unit {0})
unfolding get_grant requested
create task_id none r = throw (integrity_error "task_step_approvals")
create task_id (some wait_token) r = do
  known ← gets (task_exists task_id)
  taken ← gets (get_grant wait_token)
  require (known && not (is_some taken)) (integrity_error "task_step_approvals")
  modify
      λ db. record db { step_approvals = db.step_approvals ++ requested task_id wait_token r ∷ [] }

abbrev pub same_request : ApprovalRequest → StepApprovalRow → Bool
same_request r a =
    a.plan_version == r.plan_version
    && a.plan_fingerprint == r.plan_fingerprint
    && a.step_id == r.step_id
    && a.tool == r.tool
    && a.arguments_fingerprint == r.arguments_fingerprint
    && a.permission_scope == r.permission_scope

abbrev pub holds {ℓ} : {A : Type ℓ} → (A → Bool) → Option A → Bool
holds p none = false
holds p (some a) = p a

unfoldable pub matches : ℕ → String → ApprovalRequest → Db → Bool
unfolding get_grant
matches task_id wait_token r db =
    holds (λ a. a.task_id == task_id && same_request r a) (get_grant wait_token db)

abbrev pub is_over : TaskStatus → Bool
is_over = contains (TaskStatus.done ∷ TaskStatus.failed ∷ TaskStatus.cancelled ∷ [])

-- The row of `tasks JOIN task_checkpoints`, under the test of its columns.
abbrev pub joined : ℕ → (TaskRow → CheckpointRow → Bool) → Db → Bool
joined task_id p db = holds (λ t. holds (p t) (Checkpoints.get task_id db)) (Tasks.get task_id db)

-- The wait that the token names is the current one, for an approval, of a task that goes on.
abbrev pub awaits : String → TaskRow → CheckpointRow → Bool
awaits wait_token t k =
    not (is_over t.status)
    && sql_eq k.wait_token wait_token
    && sql_eq k.waiting_reason_code WaitReason.approval
    && is_valid k

unfoldable pub ready : ℕ → String → ApprovalRequest → Db → Bool
unfolding get_grant matches Tasks.get Checkpoints.get
ready task_id wait_token r db =
    matches task_id wait_token r db
    && holds (λ a. a.status == ApprovalStatus.approved) (get_grant wait_token db)
    && joined task_id (λ t k. t.approval_status == ApprovalStatus.approved && awaits wait_token t k)
        db

abbrev pub stale_request : Error
stale_request = value_error "stale or mismatched approval request"

abbrev pub expected_status : ApprovalStatus → ApprovalStatus
expected_status status =
    if status == ApprovalStatus.revoked then ApprovalStatus.approved else ApprovalStatus.pending

unfoldable pub set_decided : Clock → String → ApprovalStatus → StepApprovalRow → StepApprovalRow
set_decided c actor status a = record a {
  status = status;
  decided_by = some actor;
  decided_at = some c.current_timestamp;
}

abbrev pub undecided : String → ApprovalStatus → StepApprovalRow → Bool
undecided wait_token status a = has_wait_token wait_token a && a.status == expected_status status

-- From the comparison of the row's status on.
unfoldable pub settle : Clock → String → String → ApprovalStatus → StepApprovalRow → Action Db Bool
unfolding set_decided
settle c wait_token actor status row = if row.status == status then pure false else do
  require (row.status == expected_status status)
      (value_error "approval decision is no longer available")
  rows ← update_approvals (undecided wait_token status) (set_decided c actor status)
  require (rows == 1) (value_error "approval decision lost a race")
  pure true

unfoldable pub decide : Clock → ℕ → String → String → String → ApprovalStatus → Action Db Bool
unfolding get_grant settle Tasks.get Checkpoints.get
decide c task_id wait_token actor scope status = do
  require (not (is_blank actor || is_blank wait_token || is_blank scope))
      (value_error "actor, wait_token and scope are required")
  require (not (status == ApprovalStatus.pending)) (value_error "invalid approval decision")
  found ← gets (get_grant wait_token)
  row ← require_some found stale_request
  require (row.task_id == task_id && row.permission_scope == scope) stale_request
  current ← gets (joined task_id (awaits wait_token))
  require current stale_request
  eligible ← gets (
      joined task_id
        λ t k. t.status == TaskStatus.waiting && t.approval_status == ApprovalStatus.approved)
  require (not (status == ApprovalStatus.approved) || eligible)
      (value_error "task is not eligible for approval")
  settle c wait_token actor status row
