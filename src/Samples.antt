-- ===== src/Samples.antt =====
-- Concrete states that the tests share.
use md_harness.Prelude.{ℕ, String, Option, none, some, [], ◌∷◌}
use md_harness.Schema.{
  TaskStatus, ApprovalStatus, AttemptStatus, NextAction, WaitReason, Clock, TaskRow, AttemptRow,
  CheckpointRow, Db,
}

abbrev pub at : ℕ → Clock
at n = record { now = n; current_timestamp = n }

abbrev pub task_row : ℕ → TaskStatus → Option String → Option ℕ → ℕ → TaskRow
task_row id status token expires epoch = record {
  id = id;
  project_id = none;
  title = "task";
  priority = "high";
  status = status;
  approval_status = ApprovalStatus.approved;
  assigned_agent = none;
  started_at = none;
  planning_started_at = none;
  validation_started_at = none;
  failed_at = none;
  completed_at = none;
  claim_token = token;
  claimed_at = none;
  claim_expires_at = expires;
  execution_epoch = epoch;
}

abbrev pub attempt_row : ℕ → ℕ → AttemptStatus → AttemptRow
attempt_row id task_id status = record {
  id = id;
  task_id = task_id;
  agent = none;
  status = status;
  completed_at = none;
  error_message = none;
  run_id = none;
  claim_token = none;
  claim_expires_at = none;
}

abbrev pub checkpoint_row : ℕ → NextAction → Option WaitReason → Option String → CheckpointRow
checkpoint_row task_id action reason wait_token = record {
  task_id = task_id;
  phase = "execution";
  next_action = action;
  plan_version = some 1;
  attempt_id = none;
  reason = none;
  context_data = none;
  next_step_id = none;
  completed_step_ids = [];
  plan_fingerprint = none;
  execution_result = none;
  validation_result = none;
  resumed_at = none;
  resume_count = 0;
  invalidated_at = none;
  waiting_reason_code = reason;
  resume_claim_token = none;
  resume_claim_expires_at = none;
  wait_token = wait_token;
  external_resolved_at = none;
  resolved_by = none;
  information_ref = none;
  revision = 0;
}

abbrev pub empty_db : Db
empty_db = record {
  tasks = [];
  attempts = [];
  dependencies = [];
  approvals = [];
  checkpoints = [];
  step_approvals = [];
  invocations = [];
  bindings = [];
  replans = [];
  events = [];
  interactions = [];
  artifacts = [];
  projects = [];
  outbox = [];
}

-- Two tasks: the first one is ready, the second one is in work, under a claim that ends at 50.
abbrev pub two_tasks : Db
two_tasks = record empty_db {
  tasks =
      task_row 1 TaskStatus.ready none none 0
      ∷ task_row 2 TaskStatus.executing (some "old") (some 50) 3
      ∷ [];
  attempts = attempt_row 1 2 AttemptStatus.running ∷ [];
}

-- The first task waits for an answer from outside, the second one for an approval.
abbrev pub waiting_db : Db
waiting_db = record empty_db {
  tasks =
      task_row 1 TaskStatus.waiting none none 1 ∷ task_row 2 TaskStatus.waiting none none 1 ∷ [];
  checkpoints =
      checkpoint_row 1 NextAction.wait (some WaitReason.external_information) (some "w1")
      ∷ checkpoint_row 2 NextAction.wait (some WaitReason.approval) (some "w2")
      ∷ [];
}
