-- ===== src/Storage/Tasks/Claims.antt =====
-- The answer of `claim`, of src/harness/storage/task_store.py.
use mathlib.Core.Option
use md_harness.Prelude.{
  Bool-cases, Option-cases, ◌==◌, ℕ, ◌+◌, String, ◌≡◌, refl, ap, inl, inr, true, false, Option,
  none, some, arith, nat_eq, string_eq,
}
use md_harness.Effects.{integrity_error, return, raise}
use md_harness.Sql.{fetchone}
use md_harness.Sql.Decides.{hits}
use md_harness.Sql.Laws.{when, fetchone-holds, matched, rowcount-key}
use md_harness.Schema.{Clock, TaskRow, Db, task_status_eq, approval_status_eq, attempt_status_eq}
use md_harness.Storage.Tasks.Rows.{row-update}
use md_harness.Storage.Tasks.{has_id, get, claimable, set_claim, claim_where, claim_conflict, claim}
use md_harness.Storage.Tasks.Keys.{UniqueIds}

at_key :
    (i : ℕ) (c : Clock) (f : TaskRow → TaskRow) (db : Db) (o : Option TaskRow)
    → get i db ≡ o
    → Option.map (when (claim_where c i) f) o ≡ Option.map (when (claimable c) f) o
unfolding get
at_key i c f db none found = refl
at_key i c f db (some t) found = rw (fetchone-holds (has_id i) db.tasks found)

module _ (c : Clock) (i : ℕ) (token : String) (lease : ℕ) (db : Db) (unique : UniqueIds db) where
  abbrev update_claim : TaskRow → TaskRow
  update_claim = set_claim c token (c.now + lease)

  granted_by :
      (o : Option TaskRow)
      → (matched (λ (t : TaskRow). t.id) (claimable c) o == 1) ≡ hits (claimable c) o
  granted_by none = refl
  granted_by (some t) = ground arith

  -- The answer and the row by the WHERE clause.
  pub claim_answers :
      claim_conflict c i token db ≡ false
      → ((claim c i token lease db).0 ≡ return (hits (claimable c) (get i db)))
        × (get i (claim c i token lease db).1
            ≡ Option.map (when (claimable c) update_claim) (get i db))
  unfolding claim get
  claim_answers free = (
    rw (free, rowcount-key (λ (t : TaskRow). t.id) i (claimable c) db.tasks unique)
        (ap return (granted_by (fetchone (has_id i) db.tasks))),
    rw (free, row-update i (claim_where c i) update_claim (λ x. refl) db)
        (at_key i c update_claim db (get i db) refl),
  )

  claim-conflict :
      claim_conflict c i token db ≡ true
      → (claim c i token lease db).0 ≡ raise (integrity_error "tasks.claim_token")
  unfolding claim
  claim-conflict taken = rw taken

  -- A claim that was granted: the row was claimable, and now holds the token and the lease.
  pub claim-granted :
      (claim c i token lease db).0 ≡ return true
      → (t : TaskRow) × (get i db ≡ some t)
        × (claimable c t ≡ true)
        × (get i (claim c i token lease db).1 ≡ some (update_claim t))
  claim-granted granted = elim (Bool-cases (claim_conflict c i token db)) [
    | inl taken ↦ cc (claim-conflict taken, granted)
    | inr free ↦ elim (Option-cases (get i db)) [
      | inl missing ↦ cc ((claim_answers free).0, granted, missing)
      | inr (t, found) ↦
          let ok : claimable c t ≡ true =
            cc ((claim_answers free).0, granted, ap (hits (claimable c)) found) in
          (t, found, ok, rw ((claim_answers free).1, found, ok))
    ]
  ]
