-- ===== src/Witnesses/Checkpoints.antt =====
-- CheckpointStore and ApprovalStore on two tasks that wait.
use md_harness.Prelude.{
  ◌⊎◌, ◌+◌, ltb, if◌then◌else◌, eq_iff, ℕ, ◌<◌, String, ◌≡◌, refl, ◌≢◌, true, false, Option, none,
  some, [], arith, nat_eq, string_eq,
}
use md_harness.Effects.{return}
use md_harness.Sql.{rowcount}
use md_harness.Sql.Decides.{Has}
use md_harness.Storage.Tasks.{coalesce}
use md_harness.Schema.{
  NextAction, WaitReason, Clock, CheckpointRow, task_status_eq, approval_status_eq, next_action_eq,
  wait_reason_eq,
}
use md_harness.Samples.{at, waiting_db}
use md_harness.Storage.Checkpoints.{
  Checkpoint, get, get_active, save, open_wait, resolve_external_wait, resumable,
  claim_resume_lease, invalidate,
}
use md_harness.Storage.Checkpoints.Waits.{UniqueTasks, resolve-once, save-stale}
use md_harness.Storage.Checkpoints.Leases.{resume_exclusion, invalidate-blocks}
use md_harness.Storage.Checkpoints.Decided.{
  OpenWait, Resumable, resolve_external_wait_lem, claim_resume_lease_lem,
}

waiting_db-UniqueTasks : UniqueTasks waiting_db
waiting_db-UniqueTasks = ground arith

resolved : (resolve_external_wait (at 5) 1 "w1" "ada" "ticket" waiting_db).0 ≡ return true
unfolding resolve_external_wait open_wait rowcount
resolved = refl

resolve-once_example :
    (resolve_external_wait
      (at 9)
      1
      "w1"
      "bob"
      "other"
      (resolve_external_wait (at 5) 1 "w1" "ada" "ticket" waiting_db).1).0
    ≡ return false
resolve-once_example =
    resolve-once (at 5) 1 "w1" "ada" "ticket" waiting_db waiting_db-UniqueTasks resolved (at 9) "w1"
      "bob" "other"

resolve_external_wait_lem_example :
    let (answer, after) = resolve_external_wait (at 5) 1 "w1" "ada" "ticket" waiting_db in
    (((k : CheckpointRow) × (get 1 waiting_db ≡ some k)
        × OpenWait 1 "w1" waiting_db.tasks k
        × (answer ≡ return true)
        × (get 1 after
            ≡ some (record k {
              external_resolved_at = some 5;
              resolved_by = some "ada";
              information_ref = some "ticket";
            })))
      ⊎ ((¬ Has (OpenWait 1 "w1" waiting_db.tasks) (get 1 waiting_db))
          × (answer ≡ return false)
          × (get 1 after ≡ get 1 waiting_db)))
    × ((j : ℕ) → j ≢ 1 → get j after ≡ get j waiting_db)
resolve_external_wait_lem_example =
    resolve_external_wait_lem (at 5) 1 "w1" "ada" "ticket" waiting_db waiting_db-UniqueTasks

abbrev next_wait : Checkpoint
next_wait = record {
  phase = "execution";
  next_action = NextAction.wait;
  plan_version = some 1;
  attempt_id = none;
  reason = none;
  context_data = none;
  next_step_id = none;
  completed_step_ids = [];
  plan_fingerprint = none;
  execution_result = none;
  validation_result = none;
  waiting_reason_code = some WaitReason.external_information;
}

fresh_apart : ◌≢◌ {A = String} "w3" "w1"
fresh_apart e = cc ((eq_iff "w3" "w1").1 e)

save-stale_example :
    (resolve_external_wait (at 5) 1 "w1" "ada" "ticket" (save 1 next_wait "w3" waiting_db).1).0
    ≡ return false
save-stale_example =
    save-stale 1 next_wait "w3" waiting_db waiting_db-UniqueTasks refl (at 5) "w1" "ada" "ticket"
      fresh_apart

claim_resume_lease_lem_example :
    let (answer, after) = claim_resume_lease (at 5) 1 "run" 30 waiting_db in
    (((k : CheckpointRow) × (get 1 waiting_db ≡ some k)
        × Resumable 5 k
        × (answer ≡ return (some "run"))
        × (get 1 after
            ≡ some (record k {
              resume_claim_token = some "run";
              resume_claim_expires_at = some 35;
              resumed_at = coalesce k.resumed_at 5;
              resume_count = k.resume_count + 1;
            })))
      ⊎ ((¬ Has (Resumable 5) (get 1 waiting_db))
          × (answer ≡ return none)
          × (get 1 after ≡ get 1 waiting_db)))
    × ((j : ℕ) → j ≢ 1 → get j after ≡ get j waiting_db)
claim_resume_lease_lem_example =
    claim_resume_lease_lem (at 5) 1 "run" 30 waiting_db waiting_db-UniqueTasks (omega arith)

leased_first : (claim_resume_lease (at 5) 1 "run" 30 waiting_db).0 ≡ return (some "run")
unfolding claim_resume_lease resumable rowcount
leased_first = refl

resume_exclusion_example :
    (claim_resume_lease (at 20) 1 "other" 30 (claim_resume_lease (at 5) 1 "run" 30 waiting_db).1).0
    ≡ return (if ltb 35 20 then some "other" else none)
resume_exclusion_example =
    resume_exclusion (at 5) 1 "run" 30 waiting_db waiting_db-UniqueTasks (omega arith) leased_first
      (at 20) "other" 30 (omega arith)

abbrev given_up : Option String
given_up = some "given up"

invalidate-blocks_example :
    let after = (invalidate (at 5) 1 given_up waiting_db).1 in
    (get_active 1 after ≡ none)
    × ((later : Clock) (token : String) (lease : ℕ)
        → 0 < lease
        → (claim_resume_lease later 1 token lease after).0 ≡ return none)
    × ((later : Clock) (w a r : String)
        → (resolve_external_wait later 1 w a r after).0 ≡ return false)
invalidate-blocks_example = invalidate-blocks (at 5) 1 given_up waiting_db waiting_db-UniqueTasks
