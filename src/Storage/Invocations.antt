-- ===== src/Storage/Invocations.antt =====
-- ToolInvocationStore of src/harness/storage/tool_invocation_store.py: the journal of tool calls
-- that may have an effect outside.
pub mod Journal
pub mod Pending
use md_harness.Prelude.{
  if◌then◌else◌, is_some, ◌==◌, ℕ, ◌+◌, String, Bool, not, ◌&&◌, Option, none, some, [], ◌∷◌, ◌++◌,
  nat_eq, string_eq,
}
use md_harness.Effects.{
  value_error, type_error, integrity_error, return, Action, pure, throw, gets, ◌>>=◌, ◌>>◌, modify,
  require,
}
use md_harness.Sql.{fetchone, update, rowcount}
use md_harness.Schema.{InvocationStatus, Clock, StepResult, InvocationRow, Db, invocation_status_eq}
use md_harness.Storage.Dependencies.{task_exists}

-- What a journal row is bound to.
pub record Binding : Type 0 where
  pub plan_fingerprint : String
  pub plan_version : ℕ
  pub step_id : String
  pub tool_name : String
  pub arguments_fingerprint : String
  pub permission_scope : String

pub data Reservation : Type 0 where
  new : String → Reservation
  completed : StepResult → Reservation
  uncertain : String → Reservation

abbrev pub has_invocation_id : String → InvocationRow → Bool
has_invocation_id invocation_id r = r.invocation_id == invocation_id

abbrev pub is_started : InvocationRow → Bool
is_started r = r.status == InvocationStatus.started

abbrev pub of_invocation_task : ℕ → InvocationRow → Bool
of_invocation_task task_id r = r.task_id == task_id

abbrev pub update_invocations :
    (InvocationRow → Bool) → (InvocationRow → InvocationRow) → Action Db ℕ
update_invocations p f db =
    (return (rowcount p db.invocations), record db { invocations = update p f db.invocations })

unfoldable pub get : String → Db → Option InvocationRow
get invocation_id db = fetchone (has_invocation_id invocation_id) db.invocations

abbrev pub pending_row : ℕ → InvocationRow → Bool
pending_row task_id r = of_invocation_task task_id r && is_started r

abbrev pub id_of : Option InvocationRow → Option String
id_of none = none
id_of (some r) = some r.invocation_id

unfoldable pub pending_for_task : ℕ → Db → Option String
pending_for_task task_id db = id_of (fetchone (pending_row task_id) db.invocations)

unfoldable pub has_for_plan : ℕ → String → Db → Bool
has_for_plan task_id plan_fingerprint db = is_some (
    fetchone (λ r. of_invocation_task task_id r && r.plan_fingerprint == plan_fingerprint)
      db.invocations)

unfoldable pub has_for_task : ℕ → Db → Bool
has_for_task task_id db = is_some (fetchone (of_invocation_task task_id) db.invocations)

-- The row of a step: UNIQUE(task_id, plan_fingerprint, step_id).
abbrev pub for_step : ℕ → Binding → InvocationRow → Bool
for_step task_id b r =
    of_invocation_task task_id r
    && r.plan_fingerprint == b.plan_fingerprint
    && r.step_id == b.step_id

abbrev pub same_binding : Binding → InvocationRow → Bool
same_binding b r =
    r.plan_version == b.plan_version
    && r.tool_name == b.tool_name
    && r.arguments_fingerprint == b.arguments_fingerprint
    && r.permission_scope == b.permission_scope

unfoldable pub restarted : InvocationRow → InvocationRow
restarted r = record r {
  status = InvocationStatus.started;
  run_count = r.run_count + 1;
  step_result = none;
  completed_at = none;
  resolved_at = none;
  resolved_by = none;
  evidence_ref = none;
}

unfoldable pub started_row : ℕ → Binding → String → InvocationRow
started_row task_id b fresh = record {
  invocation_id = fresh;
  task_id = task_id;
  plan_fingerprint = b.plan_fingerprint;
  plan_version = b.plan_version;
  step_id = b.step_id;
  tool_name = b.tool_name;
  arguments_fingerprint = b.arguments_fingerprint;
  permission_scope = b.permission_scope;
  status = InvocationStatus.started;
  run_count = 1;
  step_result = none;
  completed_at = none;
  resolved_at = none;
  resolved_by = none;
  evidence_ref = none;
}

-- `UPDATE … WHERE invocation_id = ? AND status = 'no_effect'`
unfoldable pub restart : InvocationRow → Action Db Reservation
unfolding restarted
restart row = do
  update_invocations
      (λ r. has_invocation_id row.invocation_id r && r.status == InvocationStatus.no_effect)
      restarted
  pure (new row.invocation_id)

-- The INSERT, with the primary key and the foreign key that it must meet; `fresh` is the UUID.
unfoldable pub insert_started : ℕ → Binding → String → Action Db Reservation
unfolding get started_row
insert_started task_id b fresh = do
  taken ← gets (get fresh)
  known ← gets (task_exists task_id)
  require (known && not (is_some taken)) (integrity_error "task_tool_invocations")
  modify (λ db. record db { invocations = db.invocations ++ started_row task_id b fresh ∷ [] })
  pure (new fresh)

abbrev pub start : ℕ → Binding → String → Option InvocationRow → Action Db Reservation
start task_id b fresh none = insert_started task_id b fresh
start task_id b fresh (some row) = restart row

-- The journal has no open call, or the answer is `uncertain`.
abbrev pub unless_pending : Option String → Action Db Reservation → Action Db Reservation
unless_pending none rest = rest
unless_pending (some unresolved) rest = pure (uncertain unresolved)

abbrev pub recorded : Option StepResult → Action Db Reservation
recorded none = throw (type_error "the JSON object must be str, bytes or bytearray, not NoneType")
recorded (some result) = pure (completed result)

-- What an existing row of the step answers, if it does.
abbrev pub by_status :
    InvocationStatus → InvocationRow → Action Db Reservation → Action Db Reservation
by_status InvocationStatus.completed row rest = recorded row.step_result
by_status InvocationStatus.started row rest = pure (uncertain row.invocation_id)
by_status InvocationStatus.no_effect row rest = rest

abbrev pub answer_row :
    Binding → Option InvocationRow → Action Db Reservation → Action Db Reservation
answer_row b none rest = rest
answer_row b (some row) rest = do
  require (same_binding b row) (value_error "tool invocation binding changed")
  by_status row.status row rest

unfoldable pub reserve : ℕ → Binding → String → Action Db Reservation
unfolding restart insert_started pending_for_task
reserve task_id b fresh = do
  row ← gets (λ db. fetchone (for_step task_id b) db.invocations)
  answer_row b row do
    unresolved ← gets (pending_for_task task_id)
    unless_pending unresolved (start task_id b fresh row)

abbrev pub open_call : ℕ → String → InvocationRow → Bool
open_call task_id invocation_id r =
    of_invocation_task task_id r && has_invocation_id invocation_id r && is_started r

unfoldable pub set_result : Clock → StepResult → InvocationRow → InvocationRow
set_result c result r = record r {
  status = InvocationStatus.completed;
  step_result = some result;
  completed_at = some c.current_timestamp;
}

unfoldable pub complete : Clock → ℕ → String → StepResult → Action Db Bool
unfolding set_result
complete c task_id invocation_id result = do
  rows ← update_invocations (open_call task_id invocation_id) (set_result c result)
  pure (rows == 1)

unfoldable pub set_reconciled :
    Clock → String → InvocationStatus → String → Option StepResult → InvocationRow → InvocationRow
set_reconciled c actor outcome evidence_ref result r = record r {
  status = outcome;
  step_result = result;
  completed_at = if outcome == InvocationStatus.completed then some c.current_timestamp else none;
  resolved_at = some c.current_timestamp;
  resolved_by = some actor;
  evidence_ref = some evidence_ref;
}

unfoldable pub resolve :
    Clock → ℕ → String → String → InvocationStatus → String → Option StepResult → Action Db Bool
unfolding set_reconciled
resolve c task_id invocation_id actor outcome evidence_ref result = do
  rows ←
      update_invocations (open_call task_id invocation_id)
        (set_reconciled c actor outcome evidence_ref result)
  pure (rows == 1)
