-- ===== src/Schema/Statuses.antt =====
-- The enumerated columns, each with its `==`. Constructors that several enumerations share are
-- written behind their type.
use md_harness.Prelude.{Eq, nat_beq, nat_beq_iff, ℕ, ◌≡◌, ap, ◌↔◌, true, arith}

-- tasks.status
pub data TaskStatus : Type 0 where
  created ready planning executing validating waiting done failed cancelled : TaskStatus

abbrev pub task_status_code : TaskStatus → ℕ
task_status_code TaskStatus.created = 0
task_status_code TaskStatus.ready = 1
task_status_code TaskStatus.planning = 2
task_status_code TaskStatus.executing = 3
task_status_code TaskStatus.validating = 4
task_status_code TaskStatus.waiting = 5
task_status_code TaskStatus.done = 6
task_status_code TaskStatus.failed = 7
task_status_code TaskStatus.cancelled = 8

task_status_code-injective : (a b : TaskStatus) → task_status_code a ≡ task_status_code b → a ≡ b
task_status_code-injective TaskStatus.created b h = ground arith
task_status_code-injective TaskStatus.ready b h = ground arith
task_status_code-injective TaskStatus.planning b h = ground arith
task_status_code-injective TaskStatus.executing b h = ground arith
task_status_code-injective TaskStatus.validating b h = ground arith
task_status_code-injective TaskStatus.waiting b h = ground arith
task_status_code-injective TaskStatus.done b h = ground arith
task_status_code-injective TaskStatus.failed b h = ground arith
task_status_code-injective TaskStatus.cancelled b h = ground arith

pub task_status_beq_iff :
    (a b : TaskStatus) → (nat_beq (task_status_code a) (task_status_code b) ≡ true) ↔ (a ≡ b)
task_status_beq_iff a b = (
  λ h. task_status_code-injective a b ((nat_beq_iff _ _).0 h),
  λ e. (nat_beq_iff _ _).1 (ap task_status_code e),
)

instance abbrev pub task_status_eq : Eq TaskStatus
task_status_eq = record {
  beq = λ a b. nat_beq (task_status_code a) (task_status_code b);
  beq_iff = task_status_beq_iff;
}

-- tasks.approval_status, task_approvals.status and task_step_approvals.status
pub data ApprovalStatus : Type 0 where
  pending approved rejected revoked : ApprovalStatus

abbrev pub approval_status_code : ApprovalStatus → ℕ
approval_status_code ApprovalStatus.pending = 0
approval_status_code ApprovalStatus.approved = 1
approval_status_code ApprovalStatus.rejected = 2
approval_status_code ApprovalStatus.revoked = 3

approval_status_code-injective :
    (a b : ApprovalStatus) → approval_status_code a ≡ approval_status_code b → a ≡ b
approval_status_code-injective ApprovalStatus.pending b h = ground arith
approval_status_code-injective ApprovalStatus.approved b h = ground arith
approval_status_code-injective ApprovalStatus.rejected b h = ground arith
approval_status_code-injective ApprovalStatus.revoked b h = ground arith

pub approval_status_beq_iff :
    (a b : ApprovalStatus)
    → (nat_beq (approval_status_code a) (approval_status_code b) ≡ true) ↔ (a ≡ b)
approval_status_beq_iff a b = (
  λ h. approval_status_code-injective a b ((nat_beq_iff _ _).0 h),
  λ e. (nat_beq_iff _ _).1 (ap approval_status_code e),
)

instance abbrev pub approval_status_eq : Eq ApprovalStatus
approval_status_eq = record {
  beq = λ a b. nat_beq (approval_status_code a) (approval_status_code b);
  beq_iff = approval_status_beq_iff;
}

-- task_attempts.status (the values that the code writes)
pub data AttemptStatus : Type 0 where
  running completed failed waiting cancelled : AttemptStatus

abbrev pub attempt_status_code : AttemptStatus → ℕ
attempt_status_code AttemptStatus.running = 0
attempt_status_code AttemptStatus.completed = 1
attempt_status_code AttemptStatus.failed = 2
attempt_status_code AttemptStatus.waiting = 3
attempt_status_code AttemptStatus.cancelled = 4

attempt_status_code-injective :
    (a b : AttemptStatus) → attempt_status_code a ≡ attempt_status_code b → a ≡ b
attempt_status_code-injective AttemptStatus.running b h = ground arith
attempt_status_code-injective AttemptStatus.completed b h = ground arith
attempt_status_code-injective AttemptStatus.failed b h = ground arith
attempt_status_code-injective AttemptStatus.waiting b h = ground arith
attempt_status_code-injective AttemptStatus.cancelled b h = ground arith

pub attempt_status_beq_iff :
    (a b : AttemptStatus)
    → (nat_beq (attempt_status_code a) (attempt_status_code b) ≡ true) ↔ (a ≡ b)
attempt_status_beq_iff a b = (
  λ h. attempt_status_code-injective a b ((nat_beq_iff _ _).0 h),
  λ e. (nat_beq_iff _ _).1 (ap attempt_status_code e),
)

instance abbrev pub attempt_status_eq : Eq AttemptStatus
attempt_status_eq = record {
  beq = λ a b. nat_beq (attempt_status_code a) (attempt_status_code b);
  beq_iff = attempt_status_beq_iff;
}

-- engine/result.py NextAction, and task_checkpoints.next_action
pub data NextAction : Type 0 where
  validate retry_execution replan wait stop : NextAction

abbrev pub next_action_code : NextAction → ℕ
next_action_code NextAction.validate = 0
next_action_code NextAction.retry_execution = 1
next_action_code NextAction.replan = 2
next_action_code NextAction.wait = 3
next_action_code NextAction.stop = 4

next_action_code-injective : (a b : NextAction) → next_action_code a ≡ next_action_code b → a ≡ b
next_action_code-injective NextAction.validate b h = ground arith
next_action_code-injective NextAction.retry_execution b h = ground arith
next_action_code-injective NextAction.replan b h = ground arith
next_action_code-injective NextAction.wait b h = ground arith
next_action_code-injective NextAction.stop b h = ground arith

pub next_action_beq_iff :
    (a b : NextAction) → (nat_beq (next_action_code a) (next_action_code b) ≡ true) ↔ (a ≡ b)
next_action_beq_iff a b = (
  λ h. next_action_code-injective a b ((nat_beq_iff _ _).0 h),
  λ e. (nat_beq_iff _ _).1 (ap next_action_code e),
)

instance abbrev pub next_action_eq : Eq NextAction
next_action_eq = record {
  beq = λ a b. nat_beq (next_action_code a) (next_action_code b);
  beq_iff = next_action_beq_iff;
}

-- engine/result.py WaitReason, and task_checkpoints.waiting_reason_code
pub data WaitReason : Type 0 where
  approval external_information temporary_error workspace_missing manual_replan human_input
        plan_review tool_outcome_unknown :
      WaitReason

abbrev pub wait_reason_code : WaitReason → ℕ
wait_reason_code WaitReason.approval = 0
wait_reason_code WaitReason.external_information = 1
wait_reason_code WaitReason.temporary_error = 2
wait_reason_code WaitReason.workspace_missing = 3
wait_reason_code WaitReason.manual_replan = 4
wait_reason_code WaitReason.human_input = 5
wait_reason_code WaitReason.plan_review = 6
wait_reason_code WaitReason.tool_outcome_unknown = 7

wait_reason_code-injective : (a b : WaitReason) → wait_reason_code a ≡ wait_reason_code b → a ≡ b
wait_reason_code-injective WaitReason.approval b h = ground arith
wait_reason_code-injective WaitReason.external_information b h = ground arith
wait_reason_code-injective WaitReason.temporary_error b h = ground arith
wait_reason_code-injective WaitReason.workspace_missing b h = ground arith
wait_reason_code-injective WaitReason.manual_replan b h = ground arith
wait_reason_code-injective WaitReason.human_input b h = ground arith
wait_reason_code-injective WaitReason.plan_review b h = ground arith
wait_reason_code-injective WaitReason.tool_outcome_unknown b h = ground arith

pub wait_reason_beq_iff :
    (a b : WaitReason) → (nat_beq (wait_reason_code a) (wait_reason_code b) ≡ true) ↔ (a ≡ b)
wait_reason_beq_iff a b = (
  λ h. wait_reason_code-injective a b ((nat_beq_iff _ _).0 h),
  λ e. (nat_beq_iff _ _).1 (ap wait_reason_code e),
)

instance abbrev pub wait_reason_eq : Eq WaitReason
wait_reason_eq = record {
  beq = λ a b. nat_beq (wait_reason_code a) (wait_reason_code b);
  beq_iff = wait_reason_beq_iff;
}

-- task_tool_invocations.status
pub data InvocationStatus : Type 0 where
  started completed no_effect : InvocationStatus

abbrev pub invocation_status_code : InvocationStatus → ℕ
invocation_status_code InvocationStatus.started = 0
invocation_status_code InvocationStatus.completed = 1
invocation_status_code InvocationStatus.no_effect = 2

invocation_status_code-injective :
    (a b : InvocationStatus) → invocation_status_code a ≡ invocation_status_code b → a ≡ b
invocation_status_code-injective InvocationStatus.started b h = ground arith
invocation_status_code-injective InvocationStatus.completed b h = ground arith
invocation_status_code-injective InvocationStatus.no_effect b h = ground arith

pub invocation_status_beq_iff :
    (a b : InvocationStatus)
    → (nat_beq (invocation_status_code a) (invocation_status_code b) ≡ true) ↔ (a ≡ b)
invocation_status_beq_iff a b = (
  λ h. invocation_status_code-injective a b ((nat_beq_iff _ _).0 h),
  λ e. (nat_beq_iff _ _).1 (ap invocation_status_code e),
)

instance abbrev pub invocation_status_eq : Eq InvocationStatus
invocation_status_eq = record {
  beq = λ a b. nat_beq (invocation_status_code a) (invocation_status_code b);
  beq_iff = invocation_status_beq_iff;
}

-- task_human_interactions.status
pub data InteractionStatus : Type 0 where
  pending answered rejected cancelled expired superseded : InteractionStatus

abbrev pub interaction_status_code : InteractionStatus → ℕ
interaction_status_code InteractionStatus.pending = 0
interaction_status_code InteractionStatus.answered = 1
interaction_status_code InteractionStatus.rejected = 2
interaction_status_code InteractionStatus.cancelled = 3
interaction_status_code InteractionStatus.expired = 4
interaction_status_code InteractionStatus.superseded = 5

interaction_status_code-injective :
    (a b : InteractionStatus) → interaction_status_code a ≡ interaction_status_code b → a ≡ b
interaction_status_code-injective InteractionStatus.pending b h = ground arith
interaction_status_code-injective InteractionStatus.answered b h = ground arith
interaction_status_code-injective InteractionStatus.rejected b h = ground arith
interaction_status_code-injective InteractionStatus.cancelled b h = ground arith
interaction_status_code-injective InteractionStatus.expired b h = ground arith
interaction_status_code-injective InteractionStatus.superseded b h = ground arith

pub interaction_status_beq_iff :
    (a b : InteractionStatus)
    → (nat_beq (interaction_status_code a) (interaction_status_code b) ≡ true) ↔ (a ≡ b)
interaction_status_beq_iff a b = (
  λ h. interaction_status_code-injective a b ((nat_beq_iff _ _).0 h),
  λ e. (nat_beq_iff _ _).1 (ap interaction_status_code e),
)

instance abbrev pub interaction_status_eq : Eq InteractionStatus
interaction_status_eq = record {
  beq = λ a b. nat_beq (interaction_status_code a) (interaction_status_code b);
  beq_iff = interaction_status_beq_iff;
}

-- task_human_interactions.kind
pub data InteractionKind : Type 0 where
  information_request human_decision plan_review : InteractionKind

abbrev pub interaction_kind_code : InteractionKind → ℕ
interaction_kind_code InteractionKind.information_request = 0
interaction_kind_code InteractionKind.human_decision = 1
interaction_kind_code InteractionKind.plan_review = 2

interaction_kind_code-injective :
    (a b : InteractionKind) → interaction_kind_code a ≡ interaction_kind_code b → a ≡ b
interaction_kind_code-injective InteractionKind.information_request b h = ground arith
interaction_kind_code-injective InteractionKind.human_decision b h = ground arith
interaction_kind_code-injective InteractionKind.plan_review b h = ground arith

pub interaction_kind_beq_iff :
    (a b : InteractionKind)
    → (nat_beq (interaction_kind_code a) (interaction_kind_code b) ≡ true) ↔ (a ≡ b)
interaction_kind_beq_iff a b = (
  λ h. interaction_kind_code-injective a b ((nat_beq_iff _ _).0 h),
  λ e. (nat_beq_iff _ _).1 (ap interaction_kind_code e),
)

instance abbrev pub interaction_kind_eq : Eq InteractionKind
interaction_kind_eq = record {
  beq = λ a b. nat_beq (interaction_kind_code a) (interaction_kind_code b);
  beq_iff = interaction_kind_beq_iff;
}
