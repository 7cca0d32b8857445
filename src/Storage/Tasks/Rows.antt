-- ===== src/Storage/Tasks/Rows.antt =====
-- What each method of TaskStore does to the row of one task, whatever task it is called for: a
-- statement that holds of the row, and of the row as each UPDATE would leave it, holds afterwards.
use mathlib.Core.Option
use md_harness.Prelude.{
  Bool-cases, nat_beq_iff, sql_eq, ℕ, ◌+◌, String, ◌≡◌, refl, sym, ◌∙◌, inl, inr, Bool, true, false,
  not, Option, none, some, arith, nat_eq, string_eq,
}
use md_harness.Effects.{
  Error, Result, return, raise, Action, rollback_to, ◌>>=◌, ◌>>◌, require, require_some,
}
use md_harness.Sql.Laws.{when, fetchone-update, fetchone-holds}
use md_harness.Schema.{
  TaskStatus, ApprovalStatus, Clock, TaskRow, Db, task_status_eq, approval_status_eq,
  attempt_status_eq,
}
use md_harness.Storage.Tasks.{
  has_id, can_move, lacks_approval, update_tasks, get, not_found, clear_claim, release_where,
  release_claim, set_cancelled, set_status, transition, claimable, set_claim, claim_where,
  claim_conflict, claim, lease_live, renew_where, renew_claim, cancel, set_approval,
}

-- The row of `i` after an UPDATE that keeps the ids.
pub row-update :
    (i : ℕ) (p : TaskRow → Bool) (f : TaskRow → TaskRow)
    → ((x : TaskRow) → (f x).id ≡ x.id)
    → (db : Db) → get i (update_tasks p f db).1 ≡ Option.map (when p f) (get i db)
unfolding get
row-update i p f same db = fetchone-update (has_id i) p f (λ x. rw (same x)) db.tasks

-- `R` holds of the row of `i`.
abbrev pub Leads : ℕ → (TaskRow → Type 0) → Db → Type 0
Leads i R db = (t : TaskRow) × (get i db ≡ some t) × R t

module _ (i : ℕ) (db : Db) {t : TaskRow} (found : get i db ≡ some t) where
  pub same_row : (j : ℕ) {u : TaskRow} → get j db ≡ some u → has_id j t ≡ true → u ≡ t
  unfolding get
  same_row j {u} other hit =
      let at_i : has_id i t ≡ true = fetchone-holds (has_id i) db.tasks found in
      let same : i ≡ j = sym ((nat_beq_iff t.id i).0 at_i) ∙ (nat_beq_iff t.id j).0 hit in
      let at_j : get i db ≡ some u = rw same other in cc

module _ (R : TaskRow → Type 0) (i : ℕ) (db : Db) {t : TaskRow} (found : get i db ≡ some t)
    (stay : R t) where
  pub update-Leads :
      (p : TaskRow → Bool) (f : TaskRow → TaskRow)
      → ((x : TaskRow) → (f x).id ≡ x.id)
      → (p t ≡ true → R (f t))
      → Leads i R (update_tasks p f db).1
  update-Leads p f same step = elim (Bool-cases (p t)) [
    | inl hit ↦ (f t, rw (row-update i p f same db, found, hit), step hit)
    | inr miss ↦ (t, rw (row-update i p f same db, found, miss), stay)
  ]

  pub require-Leads :
      {A : Type 0} (b : Bool) (e : Error) (k : Action Db A)
      → (b ≡ true → Leads i R (k db).1)
      → Leads i R ((require b e >> k) db).1
  require-Leads true e k rest = rest refl
  require-Leads false e k rest = (t, found, stay)

  pub require_some-Leads :
      {A B : Type 0} (o : Option A) (e : Error) (k : A → Action Db B)
      → ((a : A) → o ≡ some a → Leads i R (k a db).1)
      → Leads i R ((require_some o e >>= k) db).1
  require_some-Leads none e k rest = (t, found, stay)
  require_some-Leads (some a) e k rest = rest a refl

  pub rollback-Leads :
      {A : Type 0} (r : Result A × Db) → Leads i R r.1 → Leads i R (rollback_to db r).1
  rollback-Leads (return a, after) h = h
  rollback-Leads (raise e, after) h = (t, found, stay)

  module _ (c : Clock) (task_id : ℕ) where
    pub transition-Leads :
        (status : TaskStatus)
        → (can_move t status ≡ true
            → not (lacks_approval t status) ≡ true
            → R (set_status c status t))
        → Leads i R (transition c task_id status db).1
    unfolding transition
    transition-Leads status step = require_some-Leads (get task_id db) not_found _ λ task here.
        require-Leads (can_move task status) _ _ λ legal.
          require-Leads (not (lacks_approval task status)) _ _ λ granted.
            update-Leads (has_id task_id) (set_status c status) (λ x. refl)
              λ hit.
                let same = same_row i db found task_id here hit in
                step (rw same at legal) (rw same at granted)

    pub claim-Leads :
        (token : String) (lease : ℕ)
        → (claimable c t ≡ true → R (set_claim c token (c.now + lease) t))
        → Leads i R (claim c task_id token lease db).1
    unfolding claim
    claim-Leads token lease step = require-Leads (not (claim_conflict c task_id token db)) _ _ λ _.
        update-Leads (claim_where c task_id) (set_claim c token (c.now + lease)) (λ x. refl)
          λ hit. step (ground arith)

    pub renew_claim-Leads :
        (run_id : String) (lease : ℕ)
        → (sql_eq t.claim_token run_id ≡ true
            → lease_live c t.claim_expires_at ≡ true
            → R (record t { claim_expires_at = some (c.now + lease) }))
        → Leads i R (renew_claim c task_id run_id lease db).1
    unfolding renew_claim
    renew_claim-Leads run_id lease step =
        update-Leads (renew_where c task_id run_id) _ (λ x. refl)
          λ hit. step (ground arith) (ground arith)

    pub cancel-Leads :
        (reason : String)
        → (can_move t TaskStatus.cancelled ≡ true → R (set_cancelled t))
        → Leads i R (cancel c task_id reason db).1
    unfolding cancel
    cancel-Leads reason step = require_some-Leads (get task_id db) not_found _ λ task here.
        require-Leads (can_move task TaskStatus.cancelled) _ _ λ legal.
          update-Leads (has_id task_id) set_cancelled (λ x. refl)
            λ hit. step (rw (same_row i db found task_id here hit) at legal)

  module _ (task_id : ℕ) where
    pub release_claim-Leads :
        (run_id : String)
        → (sql_eq t.claim_token run_id ≡ true → R (clear_claim t))
        → Leads i R (release_claim task_id run_id db).1
    unfolding release_claim
    release_claim-Leads run_id step =
        update-Leads (release_where task_id run_id) clear_claim (λ x. refl)
          λ hit. step (ground arith)

    pub set_approval-Leads :
        (status : ApprovalStatus) (actor : String) (reason : Option String)
        → R (record t { approval_status = status })
        → Leads i R (set_approval status task_id actor reason db).1
    unfolding set_approval
    set_approval-Leads status actor reason step =
        require_some-Leads (get task_id db) not_found _
          λ task here. update-Leads (has_id task_id) _ (λ x. refl) (λ _. step)
