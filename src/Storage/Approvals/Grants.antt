-- ===== src/Storage/Approvals/Grants.antt =====
-- Decisions on a grant: what one takes, and what `ready` says behind it.
use md_harness.Sql.Laws.{fetchone-update, fetchone-holds, matched}
use md_harness.Storage.Tasks
use md_harness.Storage.Checkpoints
use md_harness.Prelude.{
  Bool-cases, and_right, ◌==◌, beq_refl, ℕ, String, ◌≡◌, refl, ◌∙◌, inl, inr, Bool, true, false,
  not, ◌&&◌, ◌||◌, Option, none, some, arith, nat_eq, string_eq,
}
use md_harness.Effects.{return}
use md_harness.Effects.Returned.{required, some_required}
use md_harness.Sql.{update, rowcount}
use md_harness.Schema.{
  TaskStatus, ApprovalStatus, approval_status_beq_iff, Clock, TaskRow, CheckpointRow,
  StepApprovalRow, Db, task_status_eq, approval_status_eq, wait_reason_eq,
}
use md_harness.Text.{is_blank}
use md_harness.Storage.Approvals.{
  ApprovalRequest, has_wait_token, get_grant, holds, matches, joined, awaits, ready,
  expected_status, set_decided, undecided, settle, decide,
}

abbrev approved_wait : TaskRow → CheckpointRow → Bool
approved_wait t k = t.status == TaskStatus.waiting && t.approval_status == ApprovalStatus.approved

abbrev ready_wait : String → TaskRow → CheckpointRow → Bool
ready_wait wait_token t k = t.approval_status == ApprovalStatus.approved && awaits wait_token t k

waits_ready :
    (wait_token : String) (t : Option TaskRow) (k : Option CheckpointRow)
    → holds (λ t. holds (approved_wait t) k) t ≡ true
    → holds (λ t. holds (awaits wait_token t) k) t ≡ true
    → holds (λ t. holds (ready_wait wait_token t) k) t ≡ true
waits_ready wait_token none k hp hq = hp
waits_ready wait_token (some t) none hp hq = hp
waits_ready wait_token (some t) (some k) hp hq =
    rw (and_right (t.status == TaskStatus.waiting) _ hp, hq) refl

module _ (c : Clock) (i : ℕ) (wait_token actor scope : String) (status : ApprovalStatus)
    (db : Db) where
  -- The guards in front of the comparison of the statuses.
  record Decidable (row : StepApprovalRow) : Type 0 where
    found : get_grant wait_token db ≡ some row
    current : joined i (awaits wait_token) db ≡ true
    eligible : (not (status == ApprovalStatus.approved) || joined i approved_wait db) ≡ true

  decide-return :
      {answer : Bool}
      → (decide c i wait_token actor scope status db).0 ≡ return answer
      → (row : StepApprovalRow) × Decidable row
        × (decide c i wait_token actor scope status db ≡ settle c wait_token actor status row db)
  unfolding decide
  decide-return returned =
      let (_, e1) =
        required (not (is_blank actor || is_blank wait_token || is_blank scope)) _ _ db returned in
      let (_, e2) = required (not (status == ApprovalStatus.pending)) _ _ db (rw e1 at returned) in
      let (row, found, e3) =
        some_required (get_grant wait_token db) _ _ db (rw (e1, e2) at returned) in
      let (bound, e4) =
        required (row.task_id == i && row.permission_scope == scope) _ _ db
          (rw (e1, e2, e3) at returned) in
      let (current, e5) =
        required (joined i (awaits wait_token) db) _ _ db (rw (e1, e2, e3, e4) at returned) in
      let (eligible, e6) =
        required (not (status == ApprovalStatus.approved) || joined i approved_wait db) _ _ db
          (rw (e1, e2, e3, e4, e5) at returned) in
      (
        row,
        record { found = found; current = current; eligible = eligible },
        e1 ∙ e2 ∙ e3 ∙ e4 ∙ e5 ∙ e6,
      )

  -- The state behind a decision that changed the grant.
  abbrev settled : Db
  settled = record db {
    step_approvals =
        update (undecided wait_token status) (set_decided c actor status) db.step_approvals;
  }

  settle-return :
      (row : StepApprovalRow)
      → (settle c wait_token actor status row db).0 ≡ return true
      → (row.status ≡ expected_status status)
        × ((settle c wait_token actor status row db).1 ≡ settled)
  unfolding settle
  settle-return row returned = elim (Bool-cases (row.status == status)) [
    | inl same ↦ cc (rw same at returned)
    | inr other ↦
        let (expected, e1) =
          required (row.status == expected_status status) _ _ db (rw other at returned) in
        let (one, e2) =
          required (rowcount (undecided wait_token status) db.step_approvals == 1) _ _ settled
            (rw (other, e1) at returned) in
        (
          (approval_status_beq_iff row.status (expected_status status)).0 expected,
          rw (other, e1, e2) refl,
        )
  ]

  -- The grant behind such a decision.
  settled_grant :
      (row : StepApprovalRow)
      → get_grant wait_token db ≡ some row
      → row.status ≡ expected_status status
      → get_grant wait_token settled ≡ some (set_decided c actor status row)
  unfolding get_grant set_decided
  settled_grant row found expected =
      rw
        (
          fetchone-update (has_wait_token wait_token) (undecided wait_token status)
              (set_decided c actor status) (λ x. refl) db.step_approvals,
          found,
          fetchone-holds (has_wait_token wait_token) db.step_approvals found,
          expected,
          beq_refl (expected_status status),
        )
        refl

  -- A decision that changed something: the guards held, and this is the grant afterwards.
  decide-settled :
      (decide c i wait_token actor scope status db).0 ≡ return true
      → (row : StepApprovalRow) × Decidable row
        × ((decide c i wait_token actor scope status db).1 ≡ settled)
        × (get_grant wait_token settled ≡ some (set_decided c actor status row))
  decide-settled returned =
      let (row, guards, same) = decide-return returned in
      let (expected, after) = settle-return row (rw same at returned) in
      (row, guards, rw (same, after) refl, settled_grant row guards.found expected)

module _ (c : Clock) (i : ℕ) (wait_token actor scope : String) (db : Db) where
  -- An approval that changes a grant makes it ready for the request that it was made for.
  pub decide-ready :
      (r : ApprovalRequest)
      → matches i wait_token r db ≡ true
      → (decide c i wait_token actor scope ApprovalStatus.approved db).0 ≡ return true
      → ready i wait_token r (decide c i wait_token actor scope ApprovalStatus.approved db).1 ≡ true
  unfolding ready matches set_decided
  decide-ready r matched returned =
      let (row, guards, after, grant) =
        decide-settled c i wait_token actor scope ApprovalStatus.approved db returned in
      rw (after, grant)
        (rw
          (
            rw guards.found at matched,
            waits_ready wait_token (Tasks.get i db) (Checkpoints.get i db) guards.eligible
                guards.current,
          )
          refl)

  -- After a revocation the grant is ready for no request.
  decide-revoked :
      (decide c i wait_token actor scope ApprovalStatus.revoked db).0 ≡ return true
      → (r : ApprovalRequest)
      → ready i wait_token r (decide c i wait_token actor scope ApprovalStatus.revoked db).1 ≡ false
  unfolding ready
  decide-revoked returned r =
      let (row, guards, after, grant) =
        decide-settled c i wait_token actor scope ApprovalStatus.revoked db returned in
      rw (after, grant) (unfold set_decided in ground arith)
