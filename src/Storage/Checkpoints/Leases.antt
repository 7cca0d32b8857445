-- ===== src/Storage/Checkpoints/Leases.antt =====
-- Resume leases and invalidation, of src/harness/storage/checkpoint_store.py.
use mathlib.Core.Option
use md_harness.Prelude.{
  ltb, leb, if◌then◌else◌, lt→leb, Bool-cases, ℕ, ◌+◌, ◌<◌, String, ◌≡◌, refl, ap, ◌∙◌, inl, inr,
  Bool, false, ◌&&◌, Option, none, some, arith, nat_eq, string_eq,
}
use md_harness.Effects.{return}
use md_harness.Sql.Decides.{hits}
use md_harness.Sql.Laws.{when, fetchone-cleared}
use md_harness.Schema.{Clock, CheckpointRow, Db}
use md_harness.Storage.Checkpoints.{
  of_checkpoint, get, is_valid, get_active, task_waits, open_wait, resolve_external_wait, resumable,
  set_resume_lease, claim_resume_lease, set_invalid, invalidate,
}
use md_harness.Storage.Checkpoints.Waits.{
  UniqueTasks, get-update, rowcount-hits, update-UniqueTasks, resolve_answers,
}

module _ (c : Clock) (i : ℕ) (token : String) (lease : ℕ) (db : Db) (unique : UniqueTasks db) where
  abbrev leased : CheckpointRow → CheckpointRow
  leased = set_resume_lease c token (c.now + lease)

  -- The answer and the row by the WHERE clause.
  pub lease_answers :
      0 < lease
      → ((claim_resume_lease c i token lease db).0
          ≡ return (if hits (resumable c) (get i db) then some token else none))
        × (get i (claim_resume_lease c i token lease db).1
            ≡ Option.map (when (resumable c) leased) (get i db))
  unfolding claim_resume_lease
  lease_answers positive = rw (lt→leb lease positive) (
    ap (λ (b : Bool). return (if b then some token else none))
        (rowcount-hits i (resumable c) db unique),
    get-update i (resumable c) leased (λ k. refl) db,
  )

  pub lease-UniqueTasks : UniqueTasks (claim_resume_lease c i token lease db).1
  unfolding claim_resume_lease
  lease-UniqueTasks = elim (Bool-cases (leb 1 lease)) [
    | inl ok ↦ rw ok (update-UniqueTasks _ leased db (λ k. refl) unique)
    | inr bad ↦ rw bad unique
  ]

-- While a resume lease runs, no other resume lease of the task is granted; when it has expired,
-- the next one is, unless the checkpoint was invalidated.
pub resume_exclusion :
    (c : Clock) (i : ℕ) (token : String) (lease : ℕ) (db : Db)
    → UniqueTasks db
    → 0 < lease
    → (claim_resume_lease c i token lease db).0 ≡ return (some token)
    → (later : Clock) (other : String) (more : ℕ) → 0 < more
    → (claim_resume_lease later i other more (claim_resume_lease c i token lease db).1).0
      ≡ return (if ltb (c.now + lease) later.now then some other else none)
resume_exclusion c i token lease db unique positive granted later other more positive' =
    let (answer, row) = lease_answers c i token lease db unique positive in
    let after = (claim_resume_lease c i token lease db).1 in
    let (answer', _) =
      lease_answers later i other more after (lease-UniqueTasks c i token lease db unique)
        positive' in
    rw (answer', row)
      (ap (λ (b : Bool). return (if b then some other else none))
        (expiry (get i db) (cc (answer, granted))))
  where
    expiry :
        (o : Option CheckpointRow)
        → return (if hits (resumable c) o then some token else none) ≡ return (some token)
        → hits
            (resumable later)
            (Option.map (when (resumable c) (set_resume_lease c token (c.now + lease))) o)
          ≡ ltb (c.now + lease) later.now
    expiry none h = cc
    expiry (some k) h = unfold resumable set_resume_lease in ground arith

module _ (c : Clock) (i : ℕ) (reason : Option String) (db : Db) where
  -- No statement that asks for a valid checkpoint hits the row after `invalidate`.
  invalid-misses :
      (r : CheckpointRow → Bool)
      → ((k : CheckpointRow) → r (set_invalid c reason k) ≡ false)
      → ((k : CheckpointRow) → is_valid k ≡ false → r k ≡ false)
      → hits r (get i (invalidate c i reason db).1) ≡ false
  unfolding invalidate
  invalid-misses r after never =
      rw (get-update i is_valid (set_invalid c reason) (λ k. refl) db) (by_row (get i db))
    where
      by_row :
          (o : Option CheckpointRow)
          → hits r (Option.map (when is_valid (set_invalid c reason)) o) ≡ false
      by_row none = refl
      by_row (some k) = elim (Bool-cases (is_valid k)) [
        | inl valid ↦ rw valid (after k)
        | inr invalid ↦ rw invalid (never k invalid)
      ]

  get_active-invalidate : get_active i (invalidate c i reason db).1 ≡ none
  unfolding get_active invalidate
  get_active-invalidate =
      fetchone-cleared (λ k. of_checkpoint i k && is_valid k) (λ k. of_checkpoint i k && is_valid k)
        (set_invalid c reason) (λ k h. h) (λ k. ground arith) db.checkpoints

  invalidate-UniqueTasks : UniqueTasks db → UniqueTasks (invalidate c i reason db).1
  unfolding invalidate
  invalidate-UniqueTasks unique =
      update-UniqueTasks (λ k. of_checkpoint i k && is_valid k) (set_invalid c reason) db
        (λ k. refl) unique

-- After `invalidate` no checkpoint of the task is active, no resume lease is granted and no wait
-- is resolved, whoever asks and whenever.
pub invalidate-blocks :
    (c : Clock) (i : ℕ) (reason : Option String) (db : Db)
    → UniqueTasks db
    → let after = (invalidate c i reason db).1 in
      (get_active i after ≡ none)
      × ((later : Clock) (token : String) (lease : ℕ)
          → 0 < lease
          → (claim_resume_lease later i token lease after).0 ≡ return none)
      × ((later : Clock) (w a r : String)
          → (resolve_external_wait later i w a r after).0 ≡ return false)
invalidate-blocks c i reason db unique =
    let after = (invalidate c i reason db).1 in
    let unique' = invalidate-UniqueTasks c i reason db unique in
    (
      get_active-invalidate c i reason db,
      λ later token lease positive.
          (lease_answers later i token lease after unique' positive).0
          ∙ ap (λ (b : Bool). return (if b then some token else none))
              (invalid-misses c i reason db (resumable later)
                (λ k. unfold resumable set_invalid in ground arith)
                (λ k invalid. unfold resumable in ground (arith, invalid))),
      λ later w a r.
          (resolve_answers later i w a r after unique').0
          ∙ ap return (
              invalid-misses c i reason db (λ k. open_wait w k && task_waits i after)
                (λ k. unfold open_wait set_invalid in ground arith)
                (λ k invalid. unfold open_wait in ground (arith, invalid))),
    )
