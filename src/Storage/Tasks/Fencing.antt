-- ===== src/Storage/Tasks/Fencing.antt =====
-- What holds of a task's row through any sequence of calls of TaskStore, by any callers at any
-- times: each call in a transaction of its own.
use md_harness.Prelude.{
  ℕ, ◌≤◌, String, ◌≡◌, refl, ◌⊎◌, inl, true, not, Option, none, some, List, [], ◌∷◌, arith, nat_eq,
  string_eq,
}
use md_harness.Effects.{rollback_on_error}
use md_harness.Schema.{
  TaskStatus, ApprovalStatus, Clock, TaskRow, Db, task_status_eq, approval_status_eq,
  attempt_status_eq,
}
use md_harness.Storage.Tasks.{
  transitions, can_move, lacks_approval, get, clear_claim, release_claim, set_cancelled, set_status,
  transition, claimable, set_claim, claim, renew_claim, cancel, set_approval,
}
use md_harness.Storage.Tasks.Rows.{
  Leads, rollback-Leads, transition-Leads, claim-Leads, renew_claim-Leads, cancel-Leads,
  release_claim-Leads, set_approval-Leads,
}

pub data Call : Type 0 where
  transition_call : Clock → ℕ → TaskStatus → Call
  claim_call : Clock → ℕ → String → ℕ → Call
  renew_call : Clock → ℕ → String → ℕ → Call
  release_call : ℕ → String → Call
  cancel_call : Clock → ℕ → String → Call
  decide_call : ApprovalStatus → ℕ → String → Option String → Call

-- One call, its result dropped. No exception leaves a change behind.
unfoldable pub call : Call → Db → Db
call (transition_call c i status) db = (rollback_on_error (transition c i status) db).1
call (claim_call c i token lease) db = (rollback_on_error (claim c i token lease) db).1
call (renew_call c i token lease) db = (rollback_on_error (renew_claim c i token lease) db).1
call (release_call i token) db = (rollback_on_error (release_claim i token) db).1
call (cancel_call c i reason) db = (rollback_on_error (cancel c i reason) db).1
call (decide_call status i actor reason) db =
    (rollback_on_error (set_approval status i actor reason) db).1

unfoldable pub calls : List Call → Db → Db
calls [] db = db
calls (x ∷ xs) db = calls xs (call x db)

-- The ways in which a row can change, each with the guard that lets it.
pub data RowStep : TaskRow → TaskRow → Type 0 where
  unchanged : {t : TaskRow} → RowStep t t
  moved :
      {t : TaskRow} (c : Clock) (status : TaskStatus)
      → can_move t status ≡ true
      → not (lacks_approval t status) ≡ true
      → RowStep t (set_status c status t)
  claimed :
      {t : TaskRow} (c : Clock) (token : String) (expires : ℕ)
      → claimable c t ≡ true
      → RowStep t (set_claim c token expires t)
  renewed : {t : TaskRow} (expires : ℕ) → RowStep t (record t { claim_expires_at = some expires })
  released : {t : TaskRow} → RowStep t (clear_claim t)
  cancelled : {t : TaskRow} → can_move t TaskStatus.cancelled ≡ true → RowStep t (set_cancelled t)
  decided :
      {t : TaskRow} (status : ApprovalStatus) → RowStep t (record t { approval_status = status })

module _ (i : ℕ) (db : Db) {t : TaskRow} (found : get i db ≡ some t) where
  call-RowStep : (x : Call) → Leads i (RowStep t) (call x db)
  unfolding call
  call-RowStep (transition_call c j status) =
      rollback-Leads (RowStep t) i db found unchanged _
        (transition-Leads (RowStep t) i db found unchanged c j status (moved c status))
  call-RowStep (claim_call c j token lease) =
      rollback-Leads (RowStep t) i db found unchanged _
        (claim-Leads (RowStep t) i db found unchanged c j token lease (claimed c token _))
  call-RowStep (renew_call c j token lease) =
      rollback-Leads (RowStep t) i db found unchanged _
        (renew_claim-Leads (RowStep t) i db found unchanged c j token lease (λ _ _. renewed _))
  call-RowStep (release_call j token) =
      rollback-Leads (RowStep t) i db found unchanged _
        (release_claim-Leads (RowStep t) i db found unchanged j token (λ _. released))
  call-RowStep (cancel_call c j reason) =
      rollback-Leads (RowStep t) i db found unchanged _
        (cancel-Leads (RowStep t) i db found unchanged c j reason cancelled)
  call-RowStep (decide_call status j actor reason) =
      rollback-Leads (RowStep t) i db found unchanged _
        (set_approval-Leads (RowStep t) i db found unchanged j status actor reason (decided status))

-- A relation between a row and a later one that every step keeps holds through any calls.
module _ (R : TaskRow → TaskRow → Type 0) where
  calls-relate :
      ((t : TaskRow) → R t t)
      → ((t u v : TaskRow) → R t u → RowStep u v → R t v)
      → (xs : List Call) (i : ℕ) (db : Db) {s t : TaskRow} → get i db ≡ some t
      → R s t
      → (u : TaskRow) × (get i (calls xs db) ≡ some u) × R s u
  unfolding calls
  calls-relate start keep [] i db {s} {t} found r = (t, found, r)
  calls-relate start keep (x ∷ xs) i db {s} {t} found r =
      let (u, found', step) = call-RowStep i db found x in
      calls-relate start keep xs i (call x db) found' (keep s t u r step)

abbrev pub IsTerminal : TaskStatus → Type 0
IsTerminal s = (s ≡ TaskStatus.done) ⊎ (s ≡ TaskStatus.failed) ⊎ (s ≡ TaskStatus.cancelled)

-- What fencing promises of the row `u` that follows `t`: epochs never fall; while the epoch is
-- the same, the claim is the same or gone; a task that was over stays as it was.
pub record Fenced (t u : TaskRow) : Type 0 where
  pub epoch_grows : t.execution_epoch ≤ u.execution_epoch
  pub same_epoch :
      u.execution_epoch ≡ t.execution_epoch
      → (u.claim_token ≡ t.claim_token) ⊎ (u.claim_token ≡ none)
  pub absorbed : IsTerminal t.status → u.status ≡ t.status

Fenced-step : {t u v : TaskRow} → Fenced t u → RowStep u v → Fenced t v
unfolding set_status set_claim set_cancelled transitions claimable
Fenced-step f unchanged = f
Fenced-step f (moved c status legal granted) = ground arith
Fenced-step f (claimed c token expires ok) = ground arith
Fenced-step f (renewed expires) = ground arith
Fenced-step f released = ground arith
Fenced-step f (cancelled legal) = ground arith
Fenced-step f (decided status) = ground arith

-- Through any calls, by any callers at any times, a task's row stays, its epoch never falls, its
-- claim is unchanged or gone while the epoch is the same, and a status that was `done`, `failed`
-- or `cancelled` never changes.
pub calls-Fenced :
    (xs : List Call) (i : ℕ) (db : Db) {t : TaskRow}
    → get i db ≡ some t
    → (u : TaskRow) × (get i (calls xs db) ≡ some u) × Fenced t u
calls-Fenced xs i db {t} found =
    calls-relate Fenced
      (λ t. record { epoch_grows = omega arith; same_epoch = λ _. inl refl; absorbed = λ _. refl })
      (λ t u v. Fenced-step) xs i db found
      (record { epoch_grows = omega arith; same_epoch = λ _. inl refl; absorbed = λ _. refl })
