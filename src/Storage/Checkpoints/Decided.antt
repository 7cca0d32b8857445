-- ===== src/Storage/Checkpoints/Decided.antt =====
-- When a wait is resolved and a resume lease is granted, by src/harness/storage/checkpoint_store.py, said
-- of the columns of the rows.
use md_harness.Prelude.{
  Bool-cases, ◌==◌, beq_refl, nat_beq_iff, sql_eq_iff, is_some, and_left, and_right, any, leb, ℕ,
  ◌+◌, ◌<◌, String, ◌≡◌, refl, ◌∙◌, ◌≢◌, ◌↔◌, ◌⊎◌, inl, inr, true, false, not, ◌&&◌, ◌||◌, Option,
  none, some, List, [], ◌∷◌, arith, nat_eq, string_eq,
}
use md_harness.Effects.{return}
use md_harness.Sql.Decides.{Has, row_decides}
use md_harness.Sql.Laws.{fetchone-update_ne}
use md_harness.Schema.{
  TaskStatus, NextAction, WaitReason, Clock, TaskRow, CheckpointRow, Db, task_status_eq,
  next_action_eq, wait_reason_eq,
}
use md_harness.Storage.Tasks.{coalesce, has_id, lease_expired}
use md_harness.Storage.Checkpoints.{
  of_checkpoint, get, is_valid, task_waits, open_wait, set_resolved, resolve_external_wait,
  resumable, set_resume_lease, claim_resume_lease,
}
use md_harness.Storage.Checkpoints.Waits.{UniqueTasks, resolve_answers}
use md_harness.Storage.Checkpoints.Leases.{lease_answers}

-- Some row of the task waits.
abbrev pub Waiting : ℕ → List TaskRow → Type 0
Waiting i [] = ⊥
Waiting i (t ∷ tasks) = ((t.id ≡ i) × (t.status ≡ TaskStatus.waiting)) ⊎ Waiting i tasks

-- A checkpoint that waits under the token for information from outside, while its task waits.
pub record OpenWait (i : ℕ) (token : String) (tasks : List TaskRow) (k : CheckpointRow)
    : Type 0 where
  pub under : k.wait_token ≡ some token
  pub waits : k.next_action ≡ NextAction.wait
  pub external : k.waiting_reason_code ≡ some WaitReason.external_information
  pub valid : k.invalidated_at ≡ none
  pub unresolved : k.external_resolved_at ≡ none
  pub task : Waiting i tasks

-- A valid checkpoint without a resume lease that runs at the time `now`.
pub record Resumable (now : ℕ) (k : CheckpointRow) : Type 0 where
  pub free :
      (k.resume_claim_token ≡ none) ⊎ ((e : ℕ) × (k.resume_claim_expires_at ≡ some e) × (e < now))
  pub valid : k.invalidated_at ≡ none

none_iff {ℓ} : {A : Type ℓ} (o : Option A) → (not (is_some o) ≡ true) ↔ (o ≡ none)
none_iff none = (λ _. refl, λ _. refl)
none_iff (some a) = (λ h. cc, λ h. cc)

waits_into :
    (i : ℕ) (tasks : List TaskRow)
    → any (λ t. has_id i t && t.status == TaskStatus.waiting) tasks ≡ true
    → Waiting i tasks
waits_into i [] h = cc
waits_into i (t ∷ tasks) h = elim (Bool-cases (has_id i t && t.status == TaskStatus.waiting)) [
  | inl e ↦ inl (
    (nat_beq_iff t.id i).0 (and_left (has_id i t) _ e),
    (task_status_eq.beq_iff t.status TaskStatus.waiting).0 (and_right (has_id i t) _ e),
  )
  | inr e ↦ inr (waits_into i tasks (rw e at h))
]

waits_back :
    (i : ℕ) (tasks : List TaskRow)
    → Waiting i tasks
    → any (λ t. has_id i t && t.status == TaskStatus.waiting) tasks ≡ true
waits_back i [] h = elim h [ ]
waits_back i (t ∷ tasks) (inl (same, waits)) = rw waits (ground (arith, same))
waits_back i (t ∷ tasks) (inr later) = ground (arith, waits_back i tasks later)

OpenWait-iff :
    (i : ℕ) (token : String) (db : Db) (k : CheckpointRow)
    → ((open_wait token k && task_waits i db) ≡ true) ↔ OpenWait i token db.tasks k
unfolding open_wait
OpenWait-iff i token db k = (
  λ h.
      let wait = and_left (open_wait token k) _ h in
      record {
        under = (sql_eq_iff k.wait_token token).0 (ground (arith, wait));
        waits = (next_action_eq.beq_iff k.next_action NextAction.wait).0 (ground (arith, wait));
        external =
            (sql_eq_iff k.waiting_reason_code WaitReason.external_information).0
              (ground (arith, wait));
        valid = (none_iff k.invalidated_at).0 (ground (arith, wait));
        unresolved = (none_iff k.external_resolved_at).0 (ground (arith, wait));
        task = waits_into i db.tasks (and_right (open_wait token k) _ h);
      },
  λ h.
      rw (h.under, h.waits, h.external, h.valid, h.unresolved, beq_refl token)
        (waits_back i db.tasks h.task),
)

free_iff :
    (c : Clock) (k : CheckpointRow)
    → ((not (is_some k.resume_claim_token) || lease_expired c k.resume_claim_expires_at) ≡ true) ↔ (
        (k.resume_claim_token ≡ none)
        ⊎ ((e : ℕ) × (k.resume_claim_expires_at ≡ some e) × (e < c.now)))
free_iff c k = (λ h. into k.resume_claim_token k.resume_claim_expires_at h, back)
  where
    into :
        (o : Option String) (e : Option ℕ)
        → (not (is_some o) || lease_expired c e) ≡ true
        → (o ≡ none) ⊎ ((x : ℕ) × (e ≡ some x) × (x < c.now))
    into none e h = inl refl
    into (some o) none h = cc
    into (some o) (some e) h = inr (e, refl, ground arith)

    back :
        ((k.resume_claim_token ≡ none)
          ⊎ ((e : ℕ) × (k.resume_claim_expires_at ≡ some e) × (e < c.now)))
        → (not (is_some k.resume_claim_token) || lease_expired c k.resume_claim_expires_at) ≡ true
    back (inl free) = rw free refl
    back (inr (e, same, early)) = rw same (ground arith)

Resumable-iff : (c : Clock) (k : CheckpointRow) → (resumable c k ≡ true) ↔ Resumable c.now k
unfolding resumable
Resumable-iff c k = (
  λ h. record {
    free = (free_iff c k).0 (and_left _ (is_valid k) h);
    valid = (none_iff k.invalidated_at).0 (and_right _ (is_valid k) h);
  },
  λ h. rw ((free_iff c k).1 h.free, h.valid) refl,
)

resolve_others :
    (c : Clock) (i : ℕ) (token actor information_ref : String) (db : Db) (j : ℕ)
    → j ≢ i
    → get j (resolve_external_wait c i token actor information_ref db).1 ≡ get j db
unfolding resolve_external_wait get set_resolved
resolve_others c i token actor information_ref db j apart =
    fetchone-update_ne (of_checkpoint j) _ (set_resolved c actor information_ref)
      (λ k h. ground (arith, and_left (of_checkpoint i k) _ h, apart)) (λ k. refl) db.checkpoints

-- A wait is resolved exactly if the checkpoint of the task waits under the token for information
-- from outside, is valid and not resolved yet, and the task waits; then the row says when, by whom
-- and with which reference. Else the answer is false and the row stays. The checkpoints of other
-- tasks stay in both cases.
pub resolve_external_wait_lem :
    (c : Clock) (i : ℕ) (token actor information_ref : String) (db : Db)
    → UniqueTasks db
    → (((k : CheckpointRow) × (get i db ≡ some k)
          × OpenWait i token db.tasks k
          × ((resolve_external_wait c i token actor information_ref db).0 ≡ return true)
          × (get i (resolve_external_wait c i token actor information_ref db).1
              ≡ some (record k {
                external_resolved_at = some c.current_timestamp;
                resolved_by = some actor;
                information_ref = some information_ref;
              })))
        ⊎ ((¬ Has (OpenWait i token db.tasks) (get i db))
            × ((resolve_external_wait c i token actor information_ref db).0 ≡ return false)
            × (get i (resolve_external_wait c i token actor information_ref db).1 ≡ get i db)))
      × ((j : ℕ)
          → j ≢ i
          → get j (resolve_external_wait c i token actor information_ref db).1 ≡ get j db)
unfolding set_resolved
resolve_external_wait_lem c i token actor information_ref db unique =
    let (answer, row) = resolve_answers c i token actor information_ref db unique in
    (
      elim (row_decides (λ k. open_wait token k && task_waits i db) (OpenWait i token db.tasks)
          (OpenWait-iff i token db) (set_resolved c actor information_ref) (get i db)) [
            | inl (k, found, ok, hit, changed) ↦
                inl (k, found, ok, rw (answer, hit) refl, row ∙ changed)
            | inr (none_there, miss, kept) ↦ inr (none_there, rw (answer, miss) refl, row ∙ kept)
          ],
      resolve_others c i token actor information_ref db,
    )

lease_others :
    (c : Clock) (i : ℕ) (token : String) (lease : ℕ) (db : Db) (j : ℕ)
    → j ≢ i
    → get j (claim_resume_lease c i token lease db).1 ≡ get j db
unfolding claim_resume_lease get set_resume_lease
lease_others c i token lease db j apart = elim (Bool-cases (leb 1 lease)) [
  | inr bad ↦ rw bad refl
  | inl ok ↦ rw ok (
      fetchone-update_ne (of_checkpoint j) _ (set_resume_lease c token (c.now + lease))
        (λ k h. ground (arith, and_left (of_checkpoint i k) _ h, apart)) (λ k. refl) db.checkpoints)
]

-- A resume lease of a positive length is granted exactly if the checkpoint of the task is valid and
-- has no resume token or one whose lease is over; then the row has the token, the new lease and the
-- next count. Else nothing is granted and the row stays. The checkpoints of other tasks stay in
-- both cases.
pub claim_resume_lease_lem :
    (c : Clock) (i : ℕ) (token : String) (lease : ℕ) (db : Db)
    → UniqueTasks db
    → 0 < lease
    → (((k : CheckpointRow) × (get i db ≡ some k)
          × Resumable c.now k
          × ((claim_resume_lease c i token lease db).0 ≡ return (some token))
          × (get i (claim_resume_lease c i token lease db).1
              ≡ some (record k {
                resume_claim_token = some token;
                resume_claim_expires_at = some (c.now + lease);
                resumed_at = coalesce k.resumed_at c.current_timestamp;
                resume_count = k.resume_count + 1;
              })))
        ⊎ ((¬ Has (Resumable c.now) (get i db))
            × ((claim_resume_lease c i token lease db).0 ≡ return none)
            × (get i (claim_resume_lease c i token lease db).1 ≡ get i db)))
      × ((j : ℕ) → j ≢ i → get j (claim_resume_lease c i token lease db).1 ≡ get j db)
unfolding set_resume_lease
claim_resume_lease_lem c i token lease db unique positive =
    let (answer, row) = lease_answers c i token lease db unique positive in
    (
      elim (row_decides (resumable c) (Resumable c.now) (Resumable-iff c)
          (set_resume_lease c token (c.now + lease)) (get i db)) [
            | inl (k, found, ok, hit, changed) ↦
                inl (k, found, ok, rw (answer, hit) refl, row ∙ changed)
            | inr (none_there, miss, kept) ↦ inr (none_there, rw (answer, miss) refl, row ∙ kept)
          ],
      lease_others c i token lease db,
    )
