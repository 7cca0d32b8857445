-- ===== src/Transaction/Held.antt =====
-- The fence of a phase of src/harness/storage/transaction.py, said of the columns of the task's row.
use md_harness.Prelude.{
  ◌==◌, nat_beq_iff, beq_refl, sql_eq_iff, ℕ, ◌≤◌, ◌≡◌, refl, ◌∙◌, ◌↔◌, ◌⊎◌, inl, inr, true, not,
  Option, none, some, arith, nat_eq, string_eq,
}
use md_harness.Effects.{raise, Action, rollback_to, ◌>>◌}
use md_harness.Sql.Decides.{Has, hits, row_decides}
use md_harness.Sql.Laws.{matched}
use md_harness.Schema.{TaskStatus, Clock, TaskRow, Db, task_status_eq}
use md_harness.Storage.Tasks.{get, lease_live}
use md_harness.Storage.Tasks.Keys.{UniqueIds}
use md_harness.Storage.Approvals.{is_over}
use md_harness.Transaction.{
  ExecutionOwner, Session, claim_held, renew_resume, claim_lost, on_connection, phase,
}
use md_harness.Transaction.Fence.{renewed, phase-lost, phase-held}

abbrev pub Running : TaskStatus → Type 0
Running TaskStatus.created = Unit {0}
Running TaskStatus.ready = Unit {0}
Running TaskStatus.planning = Unit {0}
Running TaskStatus.executing = Unit {0}
Running TaskStatus.validating = Unit {0}
Running TaskStatus.waiting = Unit {0}
Running TaskStatus.done = ⊥
Running TaskStatus.failed = ⊥
Running TaskStatus.cancelled = ⊥

-- The owner's claim on the row: its token, its epoch, a task that is not over, and a lease that runs.
pub record HeldBy (now : ℕ) (o : ExecutionOwner) (t : TaskRow) : Type 0 where
  pub holder : t.claim_token ≡ some o.token
  pub in_epoch : t.execution_epoch ≡ o.epoch
  pub running : Running t.status
  pub lease : (e : ℕ) × (t.claim_expires_at ≡ some e) × (now ≤ e)

Running-iff : (s : TaskStatus) → (not (is_over s) ≡ true) ↔ Running s
Running-iff TaskStatus.created = (λ _. tt, λ _. refl)
Running-iff TaskStatus.ready = (λ _. tt, λ _. refl)
Running-iff TaskStatus.planning = (λ _. tt, λ _. refl)
Running-iff TaskStatus.executing = (λ _. tt, λ _. refl)
Running-iff TaskStatus.validating = (λ _. tt, λ _. refl)
Running-iff TaskStatus.waiting = (λ _. tt, λ _. refl)
Running-iff TaskStatus.done = (λ h. cc, λ h. elim h [ ])
Running-iff TaskStatus.failed = (λ h. cc, λ h. elim h [ ])
Running-iff TaskStatus.cancelled = (λ h. cc, λ h. elim h [ ])

live_iff :
    (c : Clock) (o : Option ℕ) → (lease_live c o ≡ true) ↔ ((e : ℕ) × (o ≡ some e) × (c.now ≤ e))
live_iff c none = (λ h. cc, λ (e, same, late). cc)
live_iff c (some e) = (λ h. (e, refl, ground arith), back)
  where
    back : ((x : ℕ) × (some e ≡ some x) × (c.now ≤ x)) → lease_live c (some e) ≡ true
    back (x, same, late) = let here : e ≡ x = cc same in ground arith

HeldBy-iff :
    (c : Clock) (o : ExecutionOwner) (t : TaskRow) → (claim_held c o t ≡ true) ↔ HeldBy c.now o t
unfolding claim_held
HeldBy-iff c o t = (
  λ h. record {
    holder = (sql_eq_iff t.claim_token o.token).0 (ground (arith, h));
    in_epoch = (nat_beq_iff t.execution_epoch o.epoch).0 (ground (arith, h));
    running = (Running-iff t.status).0 (ground (arith, h));
    lease = (live_iff c t.claim_expires_at).0 (ground (arith, h));
  },
  λ h.
      rw
        (
          h.holder,
          h.in_epoch,
          beq_refl o.token,
          beq_refl o.epoch,
          (Running-iff t.status).1 h.running,
        )
        ((live_iff c t.claim_expires_at).1 h.lease),
)

held_in_force :
    (c : Clock) (o : ExecutionOwner) (found : Option TaskRow)
    → (matched (λ (t : TaskRow). t.id) (claim_held c o) found == 1) ≡ hits (claim_held c o) found
held_in_force c o none = refl
held_in_force c o (some t) = ground arith

-- A phase of a run that holds its claim (its token, its epoch, a task that is not over, and a lease
-- that runs) renews the lease, then the resume lease if the run has one, and runs its block, with a
-- rollback when one of these raises. A phase of a run that does not hold it is refused and changes
-- nothing, whatever its block does.
pub phase_lem :
    {A : Type 0} (c : Clock) (block : Action Db A) (s : Session) (o : ExecutionOwner)
    → UniqueIds s.db
    → s.owner ≡ some o
    → (Has (HeldBy c.now o) (get o.task_id s.db)
        × (phase c block s
            ≡ on_connection
                (λ db. rollback_to db ((renew_resume c o o.resume_token >> block) (renewed c o db)))
                s))
      ⊎ ((¬ Has (HeldBy c.now o) (get o.task_id s.db)) × (phase c block s ≡ (raise claim_lost, s)))
phase_lem c block s o unique owner =
    elim (row_decides (claim_held c o) (HeldBy c.now o) (HeldBy-iff c o) (λ t. t)
      (get o.task_id s.db)) [
        | inl (t, found, holds, hit, _) ↦ inl (
          (t, found, holds),
          phase-held c block s unique owner (held_in_force c o (get o.task_id s.db) ∙ hit),
        )
        | inr (none_there, miss, _) ↦ inr (
          none_there,
          phase-lost c block s unique owner (held_in_force c o (get o.task_id s.db) ∙ miss),
        )
      ]
