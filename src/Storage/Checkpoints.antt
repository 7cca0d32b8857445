-- ===== src/Storage/Checkpoints.antt =====
-- CheckpointStore of src/harness/storage/checkpoint_store.py over the current schema: the branches
-- for databases of earlier schema versions are not modelled.
pub mod Waits
pub mod Leases
pub mod Decided
use md_harness.Prelude.{
  leb, if◌then◌else◌, is_some, any, ◌==◌, sql_eq, ℕ, ◌+◌, String, Bool, not, ◌&&◌, ◌||◌, Option,
  none, some, List, [], ◌∷◌, ◌++◌, nat_eq, string_eq,
}
use md_harness.Effects.{
  value_error, integrity_error, return, Action, pure, gets, ◌>>=◌, ◌>>◌, modify, require,
}
use md_harness.Sql.{fetchone, update, rowcount}
use md_harness.Schema.{
  TaskStatus, NextAction, WaitReason, Clock, ContextData, CheckpointRow, Db, task_status_eq,
  next_action_eq, wait_reason_eq,
}
use md_harness.Storage.Tasks.{has_id, coalesce, lease_expired}
use md_harness.Storage.Dependencies.{task_exists}

-- The arguments of `save`, its task apart.
pub record Checkpoint : Type 0 where
  pub phase : String
  pub next_action : NextAction
  pub plan_version : Option ℕ
  pub attempt_id : Option ℕ
  pub reason : Option String
  pub context_data : Option ContextData
  pub next_step_id : Option String
  pub completed_step_ids : List String
  pub plan_fingerprint : Option String
  pub execution_result : Option String
  pub validation_result : Option String
  pub waiting_reason_code : Option WaitReason

abbrev pub of_checkpoint : ℕ → CheckpointRow → Bool
of_checkpoint task_id k = k.task_id == task_id

abbrev pub update_checkpoints :
    (CheckpointRow → Bool) → (CheckpointRow → CheckpointRow) → Action Db ℕ
update_checkpoints p f db =
    (return (rowcount p db.checkpoints), record db { checkpoints = update p f db.checkpoints })

unfoldable pub get : ℕ → Db → Option CheckpointRow
get task_id db = fetchone (of_checkpoint task_id) db.checkpoints

abbrev pub is_valid : CheckpointRow → Bool
is_valid k = not (is_some k.invalidated_at)

unfoldable pub get_active : ℕ → Db → Option CheckpointRow
get_active task_id db = fetchone (λ k. of_checkpoint task_id k && is_valid k) db.checkpoints

-- `str(uuid.uuid4()) if next_action == "wait" else None`, for the next UUID `fresh`
abbrev pub new_wait_token : NextAction → String → Option String
new_wait_token action fresh = if action == NextAction.wait then some fresh else none

-- The row of the INSERT.
unfoldable pub inserted : ℕ → Checkpoint → String → CheckpointRow
inserted task_id k fresh = record {
  task_id = task_id;
  phase = k.phase;
  next_action = k.next_action;
  plan_version = k.plan_version;
  attempt_id = k.attempt_id;
  reason = k.reason;
  context_data = k.context_data;
  next_step_id = k.next_step_id;
  completed_step_ids = k.completed_step_ids;
  plan_fingerprint = k.plan_fingerprint;
  execution_result = k.execution_result;
  validation_result = k.validation_result;
  resumed_at = none;
  resume_count = 0;
  invalidated_at = none;
  waiting_reason_code = k.waiting_reason_code;
  resume_claim_token = none;
  resume_claim_expires_at = none;
  wait_token = new_wait_token k.next_action fresh;
  external_resolved_at = none;
  resolved_by = none;
  information_ref = none;
  revision = 0;
}

-- `CASE WHEN excluded.next_action = 'wait' THEN NULL ELSE …`
abbrev pub unless_wait {ℓ} : {A : Type ℓ} → NextAction → Option A → Option A
unless_wait action old = if action == NextAction.wait then none else old

-- ON CONFLICT(task_id) DO UPDATE: the lease of a resumer is left as it is.
unfoldable pub conflicting : Checkpoint → String → CheckpointRow → CheckpointRow
conflicting k fresh old = record {
  task_id = old.task_id;
  phase = k.phase;
  next_action = k.next_action;
  plan_version = k.plan_version;
  attempt_id = k.attempt_id;
  reason = k.reason;
  context_data = k.context_data;
  next_step_id = k.next_step_id;
  completed_step_ids = k.completed_step_ids;
  plan_fingerprint = k.plan_fingerprint;
  execution_result = k.execution_result;
  validation_result = k.validation_result;
  resumed_at = none;
  resume_count = 0;
  invalidated_at = none;
  waiting_reason_code = k.waiting_reason_code;
  resume_claim_token = old.resume_claim_token;
  resume_claim_expires_at = old.resume_claim_expires_at;
  wait_token = new_wait_token k.next_action fresh;
  external_resolved_at = unless_wait k.next_action old.external_resolved_at;
  resolved_by = unless_wait k.next_action old.resolved_by;
  information_ref = unless_wait k.next_action old.information_ref;
  revision = old.revision + 1;
}

abbrev pub upsert :
    ℕ → Checkpoint → String → Option CheckpointRow → List CheckpointRow → List CheckpointRow
upsert task_id k fresh none rows = rows ++ inserted task_id k fresh ∷ []
upsert task_id k fresh (some old) rows = update (of_checkpoint task_id) (conflicting k fresh) rows

unfoldable pub save : ℕ → Checkpoint → String → Action Db (Unit {0})
unfolding get inserted conflicting
save task_id k fresh = do
  known ← gets (task_exists task_id)
  require known (integrity_error "task_checkpoints")
  modify λ db. record db { checkpoints = upsert task_id k fresh (get task_id db) db.checkpoints }

-- EXISTS (SELECT 1 FROM tasks WHERE id = ? AND status = 'waiting')
abbrev pub task_waits : ℕ → Db → Bool
task_waits task_id db = any (λ t. has_id task_id t && t.status == TaskStatus.waiting) db.tasks

-- What the WHERE clause of `resolve_external_wait` asks of the row, its task apart.
unfoldable pub open_wait : String → CheckpointRow → Bool
open_wait wait_token k =
    sql_eq k.wait_token wait_token
    && k.next_action == NextAction.wait
    && sql_eq k.waiting_reason_code WaitReason.external_information
    && is_valid k
    && not (is_some k.external_resolved_at)

unfoldable pub set_resolved : Clock → String → String → CheckpointRow → CheckpointRow
set_resolved c actor information_ref k = record k {
  external_resolved_at = some c.current_timestamp;
  resolved_by = some actor;
  information_ref = some information_ref;
}

unfoldable pub resolve_external_wait : Clock → ℕ → String → String → String → Action Db Bool
unfolding open_wait set_resolved
resolve_external_wait c task_id wait_token actor information_ref = do
  waits ← gets (task_waits task_id)
  rows ←
      update_checkpoints (λ k. of_checkpoint task_id k && (open_wait wait_token k && waits))
        (set_resolved c actor information_ref)
  pure (rows == 1)

unfoldable pub set_resumed : Clock → CheckpointRow → CheckpointRow
set_resumed c k = record k {
  resumed_at = some c.current_timestamp;
  resume_count = k.resume_count + 1;
}

unfoldable pub mark_resumed : Clock → ℕ → Action Db Bool
unfolding set_resumed
mark_resumed c task_id = do
  rows ←
      update_checkpoints (λ k. of_checkpoint task_id k && not (is_some k.resumed_at))
        (set_resumed c)
  pure (rows == 1)

unfoldable pub claim_resume : Clock → ℕ → Action Db Bool
unfolding set_resumed
claim_resume c task_id = do
  rows ←
      update_checkpoints (λ k. of_checkpoint task_id k && not (is_some k.resumed_at) && is_valid k)
        (set_resumed c)
  pure (rows == 1)

-- `(resume_claim_token IS NULL OR resume_claim_expires_at < ?) AND invalidated_at IS NULL`
unfoldable pub resumable : Clock → CheckpointRow → Bool
resumable c k =
    (not (is_some k.resume_claim_token) || lease_expired c k.resume_claim_expires_at) && is_valid k

unfoldable pub set_resume_lease : Clock → String → ℕ → CheckpointRow → CheckpointRow
set_resume_lease c token expires k = record k {
  resume_claim_token = some token;
  resume_claim_expires_at = some expires;
  resumed_at = coalesce k.resumed_at c.current_timestamp;
  resume_count = k.resume_count + 1;
}

-- The caller's token, or the UUID that the call makes, is `token`.
unfoldable pub claim_resume_lease : Clock → ℕ → String → ℕ → Action Db (Option String)
unfolding resumable set_resume_lease
claim_resume_lease c task_id token lease_seconds = do
  require (leb 1 lease_seconds) (value_error "lease_seconds must be positive")
  rows ←
      update_checkpoints (λ k. of_checkpoint task_id k && resumable c k)
        (set_resume_lease c token (c.now + lease_seconds))
  pure (if rows == 1 then some token else none)

abbrev pub clear_lease : CheckpointRow → CheckpointRow
clear_lease k = record k { resume_claim_token = none; resume_claim_expires_at = none }

unfoldable pub release_resume_lease : ℕ → String → Action Db Bool
release_resume_lease task_id token = do
  rows ←
      update_checkpoints (λ k. of_checkpoint task_id k && sql_eq k.resume_claim_token token)
        clear_lease
  pure (rows == 1)

unfoldable pub ensure_resumed : Clock → ℕ → Action Db (Unit {0})
ensure_resumed c task_id = do
  update_checkpoints (of_checkpoint task_id)
      (λ k. record k { resumed_at = coalesce k.resumed_at c.current_timestamp })
  pure tt

-- `COALESCE(?, reason)`
abbrev pub or_else {ℓ} : {A : Type ℓ} → Option A → Option A → Option A
or_else none b = b
or_else (some a) b = some a

unfoldable pub set_invalid : Clock → Option String → CheckpointRow → CheckpointRow
set_invalid c reason k = record k {
  invalidated_at = some c.current_timestamp;
  resume_claim_token = none;
  resume_claim_expires_at = none;
  reason = or_else reason k.reason;
}

unfoldable pub invalidate : Clock → ℕ → Option String → Action Db Bool
unfolding set_invalid
invalidate c task_id reason = do
  rows ← update_checkpoints (λ k. of_checkpoint task_id k && is_valid k) (set_invalid c reason)
  pure (rows == 1)
