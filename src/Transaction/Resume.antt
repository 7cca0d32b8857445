-- ===== src/Transaction/Resume.antt =====
-- The methods of EngineUnitOfWork, in src/harness/storage/transaction.py, that take over a run or
-- give it back. The unit of work has a checkpoint store, and each store has the current methods.
use md_harness.Storage.Tasks
use md_harness.Storage.Checkpoints
use md_harness.Storage.Tasks.{
  has_id, update_tasks, update_attempts, release_claim, token_taken, is_active, lease_live,
}
use md_harness.Storage.Checkpoints.{
  get_active, claim_resume, claim_resume_lease, release_resume_lease,
}
use md_harness.Prelude.{
  ltb, if◌then◌else◌, is_some, ◌==◌, contains, sql_eq, option_eq, ℕ, ◌+◌, String, Bool, true, false,
  not, ◌&&◌, ◌||◌, Option, none, some, List, [], ◌∷◌, nat_eq, string_eq,
}
use md_harness.Effects.{
  transaction_error, integrity_error, return, Action, pure, gets, ◌>>=◌, ◌>>◌, require,
}
use md_harness.Sql.{fetchone, rowcount}
use md_harness.Schema.{
  TaskStatus, AttemptStatus, NextAction, Clock, TaskRow, AttemptRow, CheckpointRow, text, Db,
  task_status_eq, attempt_status_eq, next_action_eq,
}
use md_harness.Storage.Attempts.{has_attempt_id, of_task}
use md_harness.Storage.Approvals.{holds, is_over}
use md_harness.Storage.Events.{record_event}
use md_harness.Transaction.{ExecutionOwner, Session, phase}

-- `if test: return answer`
abbrev pub return_if {ℓ κ} : {S : Type ℓ} {A : Type κ} → Bool → A → Action S A → Action S A
return_if true answer rest = pure answer
return_if false answer rest = rest

-- `if value is None: return answer`
abbrev pub return_if_none {ℓ κ μ} :
    {S : Type ℓ} {A : Type κ} {B : Type μ} → Option B → A → (B → Action S A) → Action S A
return_if_none none answer rest = pure answer
return_if_none (some b) answer rest = rest b

-- `json.dumps(next_action)` of the enumeration
unfoldable pub action_name : NextAction → String
action_name NextAction.validate = "validate"
action_name NextAction.retry_execution = "retry_execution"
action_name NextAction.replan = "replan"
action_name NextAction.wait = "wait"
action_name NextAction.stop = "stop"

unfoldable pub status_name : TaskStatus → String
status_name TaskStatus.created = "created"
status_name TaskStatus.ready = "ready"
status_name TaskStatus.planning = "planning"
status_name TaskStatus.executing = "executing"
status_name TaskStatus.validating = "validating"
status_name TaskStatus.waiting = "waiting"
status_name TaskStatus.done = "done"
status_name TaskStatus.failed = "failed"
status_name TaskStatus.cancelled = "cancelled"

unfoldable pub resume : Clock → ℕ → NextAction → Action Session Bool
unfolding phase claim_resume record_event action_name
resume c task_id next_action = phase c do
  resumed ← claim_resume c task_id
  return_if (not resumed) false do
    record_event task_id "task.resumed" (("next_action", text (action_name next_action)) ∷ [])
    pure true

-- The keyword arguments of `claim_resume_lease`; the attempt's may be left out, or be None.
pub record Expected : Type 0 where
  pub revision : Option ℕ
  pub action : Option NextAction
  pub attempt_id : Option (Option ℕ)

abbrev pub agrees {ℓ} : {A : Type ℓ} → (A → Bool) → Option A → Bool
agrees p none = true
agrees p (some a) = p a

abbrev pub as_expected : Expected → CheckpointRow → Bool
as_expected e k =
    agrees (λ action. k.next_action == action) e.action
    && agrees (λ revision. k.revision == revision) e.revision
    && agrees (option_eq k.attempt_id) e.attempt_id

-- The table `allowed`.
unfoldable pub resumable_statuses : NextAction → List TaskStatus
resumable_statuses NextAction.wait =
    TaskStatus.waiting ∷ TaskStatus.executing ∷ TaskStatus.validating ∷ []
resumable_statuses NextAction.validate =
    TaskStatus.executing ∷ TaskStatus.validating ∷ TaskStatus.waiting ∷ []
resumable_statuses NextAction.retry_execution = TaskStatus.executing ∷ TaskStatus.validating ∷ []
resumable_statuses NextAction.replan =
    TaskStatus.planning ∷ TaskStatus.executing ∷ TaskStatus.validating ∷ []
resumable_statuses NextAction.stop = []

-- What the row of the checkpoint's attempt must be.
abbrev pub attempt_fits : ℕ → CheckpointRow → AttemptRow → Bool
attempt_fits task_id k a =
    of_task task_id a && not (k.next_action == NextAction.wait && a.status == AttemptStatus.running)

unfoldable pub attempt_allows : ℕ → CheckpointRow → Db → Bool
attempt_allows task_id k db = elim k.attempt_id [
  | none ↦ true
  | some id ↦ holds (attempt_fits task_id k) (fetchone (has_attempt_id id) db.attempts)
]

-- A claim whose lease still runs.
abbrev pub claim_live : Clock → TaskRow → Bool
claim_live c t = is_some t.claim_token && lease_live c t.claim_expires_at

unfoldable pub may_resume : Clock → ℕ → Option TaskRow → CheckpointRow → Db → Bool
unfolding resumable_statuses attempt_allows
may_resume c task_id none k db = true
may_resume c task_id (some t) k db =
    contains (resumable_statuses k.next_action) t.status
    && attempt_allows task_id k db
    && (t.status == TaskStatus.waiting || not (claim_live c t))

abbrev pub set_interrupted : Clock → String → AttemptRow → AttemptRow
set_interrupted c message a = record a {
  status = AttemptStatus.failed;
  completed_at = some c.current_timestamp;
  error_message = some message;
}

unfoldable pub fail_attempts : Clock → ℕ → String → Action Db ℕ
fail_attempts c task_id message =
    update_attempts (λ a. of_task task_id a && is_active a) (set_interrupted c message)

-- The SET clause of the UPDATE that takes a task over.
unfoldable pub set_taken : Clock → String → ℕ → TaskRow → TaskRow
set_taken c token expires t = record t {
  claim_token = some token;
  claimed_at = some c.current_timestamp;
  claim_expires_at = some expires;
  execution_epoch = t.execution_epoch + 1;
}

abbrev pub at_epoch : ℕ → ℕ → TaskRow → Bool
at_epoch task_id epoch t = has_id task_id t && t.execution_epoch == epoch

abbrev pub taken_over : (TaskRow → Bool) → ℕ → String → Db → Bool
taken_over p task_id token db = token_taken task_id token db.tasks && ltb 0 (rowcount p db.tasks)

-- The UPDATE, and the unique index on `claim_token`.
unfoldable pub take_over : Clock → ℕ → String → ℕ → (TaskRow → Bool) → Action Db ℕ
unfolding set_taken
take_over c task_id token lease_seconds p = do
  refused ← gets (taken_over p task_id token)
  require (not refused) (integrity_error "tasks.claim_token")
  update_tasks p (set_taken c token (c.now + lease_seconds))

abbrev pub new_owner : ℕ → String → ℕ → ℕ → Option String → ExecutionOwner
new_owner task_id token epoch lease_seconds resume_token = record {
  task_id = task_id;
  token = token;
  epoch = epoch;
  lease_seconds = lease_seconds;
  resume_token = resume_token;
}

-- What follows the checkpoint's lease, for a task that `get` found.
unfoldable pub own_resumed :
    Clock → ℕ → String → ℕ → Option TaskRow → Action Db (Option ExecutionOwner)
unfolding fail_attempts take_over
own_resumed c task_id token lease_seconds none = pure none
own_resumed c task_id token lease_seconds (some t) = do
  return_if (t.status == TaskStatus.waiting) 0 (fail_attempts c task_id "resume lease takeover")
  rows ← take_over c task_id token lease_seconds (at_epoch task_id t.execution_epoch)
  require (rows == 1) (transaction_error "task changed during resume claim")
  pure (some (new_owner task_id token (t.execution_epoch + 1) lease_seconds (some token)))

abbrev pub is_over_task : Option TaskRow → Bool
is_over_task = holds (λ t. is_over t.status)

-- The block of `claim_resume_lease`: nothing for `return False`, else the owner to be set.
unfoldable pub try_resume :
    Clock → ℕ → String → ℕ → Expected → Action Db (Option (Option ExecutionOwner))
unfolding Tasks.get Checkpoints.get_active may_resume claim_resume_lease own_resumed record_event
try_resume c task_id token lease_seconds expected = do
  task ← gets (Tasks.get task_id)
  return_if (is_over_task task) none do
    checkpoint ← gets (get_active task_id)
    return_if_none checkpoint none λ k. return_if (not (as_expected expected k)) none do
      ok ← gets (may_resume c task_id task k)
      return_if (not ok) none do
        claimed ← claim_resume_lease c task_id token lease_seconds
        return_if_none claimed none λ _. do
          owner ← own_resumed c task_id token lease_seconds task
          record_event task_id "task.resumed" (("claim_token", text token) ∷ [])
          pure (some owner)

-- `self.manager.owner = owner; return True`, behind the block.
abbrev pub set_owner : Option (Option ExecutionOwner) → Action Session Bool
set_owner none s = (return false, s)
set_owner (some owner) s = (return true, record s { owner = owner })

unfoldable pub claim_resume_lease_phase : Clock → ℕ → String → ℕ → Expected → Action Session Bool
unfolding phase try_resume
claim_resume_lease_phase c task_id token lease_seconds expected =
    phase c (try_resume c task_id token lease_seconds expected) >>= set_owner

unfoldable pub release_resume_lease_phase : Clock → ℕ → String → Action Session Bool
unfolding phase release_resume_lease release_claim
release_resume_lease_phase c task_id token s =
    let resumer = holds (λ o. o.task_id == task_id && sql_eq o.resume_token token) s.owner in
    let claimer = holds (λ o. o.task_id == task_id && o.token == token) s.owner in
    let owner = if resumer then none else s.owner in
    phase c
      (do
        released ← release_resume_lease task_id token
        return_if (not claimer) released do release_claim task_id token; pure released)
      (record s { owner = owner })
