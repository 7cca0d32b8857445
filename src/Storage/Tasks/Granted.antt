-- ===== src/Storage/Tasks/Granted.antt =====
-- When `claim` of src/harness/storage/task_store.py is granted, said of the row's columns.
use md_harness.Prelude.{
  if◌then◌else◌, Bool-cases, ◌==◌, nat_beq_iff, sql_eq, sql_eq_iff, and_left, and_right, All,
  contains, ℕ, ◌+◌, ◌<◌, String, ◌≡◌, refl, ap, ◌∙◌, ◌≢◌, ◌↔◌, ◌⊎◌, inl, inr, true, false, not,
  ◌&&◌, ◌||◌, Option, none, some, List, [], ◌∷◌, arith, nat_eq, string_eq,
}
use md_harness.Effects.{return}
use md_harness.Sql.Decides.{Has, row_decides}
use md_harness.Sql.Laws.{fetchone-update_ne}
use md_harness.Schema.{
  TaskStatus, ApprovalStatus, Clock, TaskRow, Db, task_status_eq, approval_status_eq,
  attempt_status_eq,
}
use md_harness.Storage.Tasks.{
  has_id, get, coalesce, token_taken, lease_free, claimable_statuses, claimable, set_claim,
  claim_where, claim_conflict, claim,
}
use md_harness.Storage.Tasks.Keys.{UniqueIds}
use md_harness.Storage.Tasks.Claims.{claim_answers}

abbrev pub Active : TaskStatus → Type 0
Active TaskStatus.ready = Unit {0}
Active TaskStatus.planning = Unit {0}
Active TaskStatus.executing = Unit {0}
Active TaskStatus.validating = Unit {0}
Active TaskStatus.created = ⊥
Active TaskStatus.waiting = ⊥
Active TaskStatus.done = ⊥
Active TaskStatus.failed = ⊥
Active TaskStatus.cancelled = ⊥

-- A task that may be claimed at the time `now`.
pub record Claimable (now : ℕ) (t : TaskRow) : Type 0 where
  pub approved : t.approval_status ≡ ApprovalStatus.approved
  pub active : Active t.status
  pub free : (t.claim_expires_at ≡ none) ⊎ ((e : ℕ) × (t.claim_expires_at ≡ some e) × (e < now))

-- The status behind a claim.
abbrev pub claimed_status : TaskStatus → TaskStatus
claimed_status TaskStatus.ready = TaskStatus.planning
claimed_status status = status

-- The row behind a claim by `token`.
abbrev pub claimed : Clock → String → ℕ → TaskRow → TaskRow
claimed c token expires t = record t {
  status = claimed_status t.status;
  planning_started_at = coalesce t.planning_started_at c.current_timestamp;
  claim_token = some token;
  claimed_at = some c.current_timestamp;
  claim_expires_at = some expires;
  execution_epoch = t.execution_epoch + 1;
}

-- No other task has the token.
abbrev pub Unused : ℕ → String → List TaskRow → Type 0
Unused i token = All (λ (t : TaskRow). (t.id ≡ i) ⊎ (t.claim_token ≢ some token))

Active-iff : (c : Clock) (s : TaskStatus) → (contains (claimable_statuses c) s ≡ true) ↔ Active s
Active-iff c TaskStatus.ready = (λ _. tt, λ _. refl)
Active-iff c TaskStatus.planning = (λ _. tt, λ _. refl)
Active-iff c TaskStatus.executing = (λ _. tt, λ _. refl)
Active-iff c TaskStatus.validating = (λ _. tt, λ _. refl)
Active-iff c TaskStatus.created = (λ h. cc, λ h. elim h [ ])
Active-iff c TaskStatus.waiting = (λ h. cc, λ h. elim h [ ])
Active-iff c TaskStatus.done = (λ h. cc, λ h. elim h [ ])
Active-iff c TaskStatus.failed = (λ h. cc, λ h. elim h [ ])
Active-iff c TaskStatus.cancelled = (λ h. cc, λ h. elim h [ ])

approved_iff :
    (s : ApprovalStatus) → ((s == ApprovalStatus.approved) ≡ true) ↔ (s ≡ ApprovalStatus.approved)
approved_iff s = approval_status_eq.beq_iff s ApprovalStatus.approved

free_iff :
    (c : Clock) (o : Option ℕ)
    → (lease_free c o ≡ true) ↔ ((o ≡ none) ⊎ ((e : ℕ) × (o ≡ some e) × (e < c.now)))
free_iff c none = (λ _. inl refl, λ _. refl)
free_iff c (some e) = (λ h. inr (e, refl, ground arith), back)
  where
    back :
        ((some e ≡ none) ⊎ ((e' : ℕ) × (some e ≡ some e') × (e' < c.now)))
        → lease_free c (some e) ≡ true
    back (inl same) = cc
    back (inr (e', same, early)) = let here : e ≡ e' = cc same in ground arith

pub Claimable-iff : (c : Clock) (t : TaskRow) → (claimable c t ≡ true) ↔ Claimable c.now t
unfolding claimable
Claimable-iff c t = (
  λ h.
      let front =
        and_left
          (contains (claimable_statuses c) t.status && t.approval_status == ApprovalStatus.approved)
          _ h in
      record {
        approved =
            (approved_iff t.approval_status).0
              (and_right (contains (claimable_statuses c) t.status) _ front);
        active =
            (Active-iff c t.status).0 (and_left (contains (claimable_statuses c) t.status) _ front);
        free = (free_iff c t.claim_expires_at).0 (
            and_right
              (contains (claimable_statuses c) t.status
                && t.approval_status == ApprovalStatus.approved)
              _ h);
      },
  λ h.
      rw ((Active-iff c t.status).1 h.active, (approved_iff t.approval_status).1 h.approved)
        ((free_iff c t.claim_expires_at).1 h.free),
)

claimed-set :
    (c : Clock) (token : String) (expires : ℕ) (t : TaskRow)
    → set_claim c token expires t ≡ claimed c token expires t
unfolding set_claim
claimed-set c token expires t = by_status t.status
  where
    by_status :
        (s : TaskStatus)
        → record (claimed c token expires t) {
          status = if s == TaskStatus.ready then TaskStatus.planning else s;
        }
          ≡ record (claimed c token expires t) { status = claimed_status s }
    by_status TaskStatus.ready = refl
    by_status TaskStatus.planning = refl
    by_status TaskStatus.executing = refl
    by_status TaskStatus.validating = refl
    by_status TaskStatus.created = refl
    by_status TaskStatus.waiting = refl
    by_status TaskStatus.done = refl
    by_status TaskStatus.failed = refl
    by_status TaskStatus.cancelled = refl

token_free :
    (i : ℕ) (token : String) (tasks : List TaskRow)
    → Unused i token tasks
    → token_taken i token tasks ≡ false
token_free i token [] h = refl
token_free i token (t ∷ tasks) h = rw (token_free i token tasks h.1) (by_row h.0)
  where
    by_row :
        (t.id ≡ i) ⊎ (t.claim_token ≢ some token)
        → (not (has_id i t) && sql_eq t.claim_token token || false) ≡ false
    by_row (inl same) = ground (arith, same)
    by_row (inr apart) = elim (Bool-cases (sql_eq t.claim_token token)) [
      | inl e ↦ absurd (apart ((sql_eq_iff t.claim_token token).0 e))
      | inr e ↦ ground (arith, e)
    ]

claim_others :
    (c : Clock) (i : ℕ) (token : String) (lease : ℕ) (db : Db)
    → claim_conflict c i token db ≡ false
    → (j : ℕ) → j ≢ i
    → get j (claim c i token lease db).1 ≡ get j db
unfolding claim get set_claim
claim_others c i token lease db free j apart = rw free (
    fetchone-update_ne (has_id j) (claim_where c i) (set_claim c token (c.now + lease))
      (λ t h.
        ground (arith, and_left (has_id i t) _ h, nat_beq_iff t.id i, nat_beq_iff t.id j, apart))
      (λ t. refl) db.tasks)

-- For a token that no other task has, `claim` is granted exactly if the task is there, approved, in
-- an active status, and its lease is absent or over; then the row has the token, the new lease and
-- the next epoch, and is planned if it was ready. Else it is refused and the row stays. The rows of
-- other tasks stay in both cases.
pub claim_lem :
    (c : Clock) (i : ℕ) (token : String) (lease : ℕ) (db : Db)
    → UniqueIds db
    → Unused i token db.tasks
    → (((t : TaskRow) × (get i db ≡ some t)
          × Claimable c.now t
          × ((claim c i token lease db).0 ≡ return true)
          × (get i (claim c i token lease db).1 ≡ some (claimed c token (c.now + lease) t)))
        ⊎ ((¬ Has (Claimable c.now) (get i db))
            × ((claim c i token lease db).0 ≡ return false)
            × (get i (claim c i token lease db).1 ≡ get i db)))
      × ((j : ℕ) → j ≢ i → get j (claim c i token lease db).1 ≡ get j db)
claim_lem c i token lease db unique unused =
    let no_conflict : claim_conflict c i token db ≡ false =
      rw (token_free i token db.tasks unused) refl in
    let (answer, row) = claim_answers c i token lease db unique no_conflict in
    (
      elim (row_decides (claimable c) (Claimable c.now) (Claimable-iff c)
          (set_claim c token (c.now + lease)) (get i db)) [
            | inl (t, found, ok, hit, changed) ↦ inl (
              t,
              found,
              ok,
              rw (answer, hit) refl,
              row ∙ changed ∙ ap some (claimed-set c token (c.now + lease) t),
            )
            | inr (none_there, miss, kept) ↦ inr (none_there, rw (answer, miss) refl, row ∙ kept)
          ],
      claim_others c i token lease db no_conflict,
    )
