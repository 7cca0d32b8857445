-- ===== src/Storage/Tasks/Exclusion.antt =====
-- A claim of src/harness/storage/task_store.py while its lease runs, and what other runs do meanwhile.
use md_harness.Prelude.{
  All, eq_iff, sql_eq, beq_refl, ℕ, ◌≤◌, String, ◌≡◌, ap, ◌≢◌, true, false, some, List, [], ◌∷◌,
  arith, nat_eq, string_eq,
}
use md_harness.Effects.{return}
use md_harness.Schema.{Clock, TaskRow, Db, task_status_eq, approval_status_eq, attempt_status_eq}
use md_harness.Storage.Tasks.{
  get, release_claim, set_status, transition, claimable, claim, renew_claim, assert_claim,
  set_approval,
}
use md_harness.Storage.Tasks.Rows.{
  Leads, rollback-Leads, transition-Leads, claim-Leads, renew_claim-Leads, release_claim-Leads,
  set_approval-Leads,
}
use md_harness.Storage.Tasks.Fencing.{
  Call, transition_call, claim_call, renew_call, release_call, cancel_call, decide_call, call,
  calls,
}
use md_harness.Storage.Tasks.Keys.{UniqueIds}
use md_harness.Storage.Tasks.Claims.{claim-granted}

-- What other parties may do while the lease of `token` runs, which is up to the time `until`:
-- anything but cancel the task. A claim, renewal or release by another run has another token.
abbrev pub Foreign : String → ℕ → Call → Type 0
Foreign token until (transition_call c i status) = Unit {0}
Foreign token until (claim_call c i other lease) = c.now ≤ until
Foreign token until (renew_call c i other lease) = token ≢ other
Foreign token until (release_call i other) = token ≢ other
Foreign token until (cancel_call c i reason) = ⊥
Foreign token until (decide_call status i actor reason) = Unit {0}

-- The row is claimed by `token` up to `until` in the given epoch.
pub record Holds (token : String) (until epoch : ℕ) (t : TaskRow) : Type 0 where
  pub holder : t.claim_token ≡ some token
  pub lease : t.claim_expires_at ≡ some until
  pub in_epoch : t.execution_epoch ≡ epoch

module _ (token : String) (until epoch : ℕ) where
  abbrev H : TaskRow → Type 0
  H = Holds token until epoch

  not_claimable : (c : Clock) (t : TaskRow) → c.now ≤ until → H t → claimable c t ≡ false
  unfolding claimable
  not_claimable c t early h = ground arith

  other_token :
      (t : TaskRow) (other : String) → token ≢ other → H t → sql_eq t.claim_token other ≡ false
  other_token t other differs h = ground (arith, eq_iff token other)

  module _ (i : ℕ) (db : Db) {t : TaskRow} (found : get i db ≡ some t) (h : H t) where
    call-Holds : (x : Call) → Foreign token until x → Leads i H (call x db)
    unfolding call
    call-Holds (transition_call c j status) foreign =
        rollback-Leads H i db found h (transition c j status db) (
          transition-Leads H i db found h c j status (λ _ _.
            unfold set_status in
            record { holder = h.holder; lease = h.lease; in_epoch = h.in_epoch }))
    call-Holds (claim_call c j other lease) foreign =
        rollback-Leads H i db found h (claim c j other lease db)
          (claim-Leads H i db found h c j other lease (λ ok. cc (ok, not_claimable c t foreign h)))
    call-Holds (renew_call c j other lease) foreign =
        rollback-Leads H i db found h (renew_claim c j other lease db) (
          renew_claim-Leads H i db found h c j other lease
            (λ ours _. cc (ours, other_token t other foreign h)))
    call-Holds (release_call j other) foreign =
        rollback-Leads H i db found h (release_claim j other db) (
          release_claim-Leads H i db found h j other
            (λ ours. cc (ours, other_token t other foreign h)))
    call-Holds (cancel_call c j reason) foreign = elim foreign [ ]
    call-Holds (decide_call status j actor reason) foreign =
        rollback-Leads H i db found h (set_approval status j actor reason db) (
          set_approval-Leads H i db found h j status actor reason
            (record { holder = h.holder; lease = h.lease; in_epoch = h.in_epoch }))

  pub calls-Holds :
      (xs : List Call) (i : ℕ) (db : Db) {t : TaskRow}
      → All (Foreign token until) xs
      → get i db ≡ some t
      → H t
      → Leads i H (calls xs db)
  unfolding calls
  calls-Holds [] i db {t} foreign found h = (t, found, h)
  calls-Holds (x ∷ xs) i db foreign found h =
      let (u, found', h') = call-Holds i db found h x foreign.0 in
      calls-Holds xs i (call x db) foreign.1 found' h'

  pub Holds-asserts :
      (c : Clock) (i : ℕ) (db : Db) {t : TaskRow}
      → c.now ≤ until
      → get i db ≡ some t
      → H t
      → (assert_claim c i token db).0 ≡ return tt
  unfolding assert_claim
  Holds-asserts c i db {t} early found h =
      rw (found, h.holder, h.lease, beq_refl token) (ground arith)

  pub Holds-excludes :
      (c : Clock) (i : ℕ) (db : Db) {t : TaskRow} (other : String) (lease : ℕ)
      → UniqueIds db
      → c.now ≤ until
      → get i db ≡ some t
      → H t
      → (claim c i other lease db).0 ≢ return true
  Holds-excludes c i db {t} other lease unique early found h granted =
      let (u, found', ok, _) = claim-granted c i other lease db unique granted in
      let same : u ≡ t = cc (found, found') in
      cc (not_claimable c t early h, ap (claimable c) same, ok)
