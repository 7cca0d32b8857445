-- ===== src/Transaction/External/Repeats.antt =====
-- An answer to an external wait that comes again, in src/harness/storage/transaction.py.
use md_harness.Sql.Laws.{update-none, rowcount-key}
use md_harness.Storage.Checkpoints.Waits.{UniqueTasks, update-UniqueTasks, resolve_answers}
use md_harness.Transaction.Cleanup.{record_event-other}
use md_harness.Sql.{fetchone, rowcount}
use md_harness.Storage.Checkpoints.{
  of_checkpoint, is_valid, get_active, task_waits, open_wait, set_resolved, resolve_external_wait,
}
use md_harness.Storage.Events.{record_event}
use md_harness.Storage.Tasks
use md_harness.Storage.Checkpoints
use md_harness.Prelude.{
  ap, if◌then◌else◌, Bool-cases, is_some, and_left, some_injective, ◌==◌, sql_eq, ℕ, String, ◌≡◌,
  refl, ◌∙◌, ◌≢◌, inl, inr, Bool, true, false, ◌&&◌, Option, none, some, List, [], ◌∷◌, arith,
  nat_eq, string_eq,
}
use md_harness.Effects.{Result, and_then, Error, value_error, return, raise, pure, ◌>>◌, require}
use md_harness.Effects.Returned.{required, then_pure, some_required, bound}
use md_harness.Schema.{
  TaskStatus, WaitReason, Clock, TaskRow, CheckpointRow, Db, task_status_eq, wait_reason_eq,
  next_action_eq,
}
use md_harness.Transaction.Tools.{has_status}
use md_harness.Transaction.External.{
  resolution_payload, explain_unresolved, after_store, resolve_wait,
}

abbrev pub another_reference : Error
another_reference = value_error "external wait was resolved with another reference"

-- An explanation is never that the wait was resolved now.
explain-false :
    (w r : String) (task : Option TaskRow) (checkpoint : Option CheckpointRow) (db : Db)
    → (explain_unresolved w r task checkpoint db).0 ≢ return true
unfolding explain_unresolved
explain-false w r task checkpoint db h =
    let (_, e1) = required (has_status TaskStatus.waiting task) _ _ db h in
    let (k, _, e2) = some_required checkpoint _ _ db (rw e1 at h) in
    let (_, e3) = required (sql_eq k.wait_token w) _ _ db (rw (e1, e2) at h) in
    let (_, e4) =
      required (sql_eq k.waiting_reason_code WaitReason.external_information) _ _ db
        (rw (e1, e2, e3) at h) in
    let (_, e5) = required (is_some k.external_resolved_at) _ _ db (rw (e1, e2, e3, e4) at h) in
    let (_, e6) = required (sql_eq k.information_ref r) _ _ db (rw (e1, e2, e3, e4, e5) at h) in
    cc (rw (e1, e2, e3, e4, e5, e6) at h)

fetchone-both :
    {A : Type 0} (p q : A → Bool) (xs : List A) {x : A}
    → fetchone p xs ≡ some x
    → q x ≡ true
    → fetchone (λ y. p y && q y) xs ≡ some x
unfolding fetchone
fetchone-both p q [] found h = cc
fetchone-both p q (y ∷ xs) {x} found h = elim (Bool-cases (p y)) [
  | inl hit ↦
      let same : some y ≡ some x = rw hit at found in rw (hit, some_injective y x same, h) refl
  | inr miss ↦ rw miss (fetchone-both p q xs (rw miss at found) h)
]

module _ (c : Clock) (i : ℕ) (w a r : String) (db : Db) where
  abbrev resolved_db : Db
  resolved_db = (resolve_external_wait c i w a r db).1

  abbrev noted_db : Db
  noted_db = (record_event i "task.external_wait.resolved" (resolution_payload w a r) resolved_db).1

  resolve_wait-return :
      (resolve_wait c i w a r db).0 ≡ return true
      → ((resolve_external_wait c i w a r db).0 ≡ return true)
        × ((resolve_wait c i w a r db).1 ≡ noted_db)
  unfolding resolve_wait
  resolve_wait-return returned =
      let (b, e, rest) =
        bound (resolve_external_wait c i w a r db) (after_store i w a r) returned in
      by_answer b e rest
    where
      by_answer :
          (b : Bool)
          → (resolve_external_wait c i w a r db).0 ≡ return b
          → resolve_wait c i w a r db ≡ after_store i w a r b resolved_db
          → ((resolve_external_wait c i w a r db).0 ≡ return true)
            × ((resolve_wait c i w a r db).1 ≡ noted_db)
      by_answer true e rest =
          let ended =
            then_pure
              (record_event i "task.external_wait.resolved" (resolution_payload w a r) resolved_db)
              true (rw rest at returned) in
          (e, rw (rest, ended.1) refl)
      by_answer false e rest = absurd (
          explain-false w r (Tasks.get i resolved_db) (get_active i resolved_db) resolved_db
            (rw rest at returned))

  -- The checkpoint behind a resolution.
  resolved_row :
      UniqueTasks db
      → (resolve_external_wait c i w a r db).0 ≡ return true
      → (k : CheckpointRow) × (open_wait w k ≡ true)
        × (Checkpoints.get i noted_db ≡ some (set_resolved c a r k))
  unfolding Checkpoints.get
  resolved_row unique resolved = by_row (Checkpoints.get i db) refl
    where
      by_row :
          (o : Option CheckpointRow)
          → Checkpoints.get i db ≡ o
          → (k : CheckpointRow) × (open_wait w k ≡ true)
            × (Checkpoints.get i noted_db ≡ some (set_resolved c a r k))
      by_row none e = cc ((resolve_answers c i w a r db unique).0, resolved, e)
      by_row (some k) e =
          let (answer, row) = resolve_answers c i w a r db unique in
          let hit : (open_wait w k && task_waits i db) ≡ true = cc (answer, resolved, e) in
          (
            k,
            and_left (open_wait w k) _ hit,
            record_event-other (Checkpoints.get i) (λ d rows. refl) i _ _ resolved_db
                ∙ row
                ∙ rw (e, hit) refl,
          )

  noted_db-UniqueTasks : UniqueTasks db → UniqueTasks noted_db
  unfolding resolve_external_wait set_resolved
  noted_db-UniqueTasks unique =
      rw (record_event-other (λ d. d.checkpoints) (λ d rows. refl) i _ _ resolved_db)
        (update-UniqueTasks _ (set_resolved c a r) db (λ k. refl) unique)

  noted_db-waits :
      has_status TaskStatus.waiting (Tasks.get i db) ≡ true
      → has_status TaskStatus.waiting (Tasks.get i noted_db) ≡ true
  unfolding Tasks.get resolve_external_wait
  noted_db-waits waits =
      rw (record_event-other (Tasks.get i) (λ d rows. refl) i _ _ resolved_db) waits

closed_wait :
    (w : String) (k : CheckpointRow) (waits : Bool)
    → is_some k.external_resolved_at ≡ true
    → (open_wait w k && waits) ≡ false
unfolding open_wait
closed_wait w k waits h = ground arith

-- The store's second call resolves nothing and writes nothing.
quiet :
    (c : Clock) (i : ℕ) (w a r : String) (db : Db) {k : CheckpointRow}
    → UniqueTasks db
    → Checkpoints.get i db ≡ some k
    → is_some k.external_resolved_at ≡ true
    → resolve_external_wait c i w a r db ≡ (return false, db)
unfolding resolve_external_wait Checkpoints.get open_wait
quiet c i w a r db {k} unique found done_before =
    let p = λ (k' : CheckpointRow). open_wait w k' && task_waits i db in
    let missed : (if open_wait w k && task_waits i db then 1 else 0) ≡ 0 =
      rw (closed_wait w k (task_waits i db) done_before) refl in
    let none_hit : rowcount (λ k'. of_checkpoint i k' && p k') db.checkpoints ≡ 0 =
      rowcount-key (λ (k' : CheckpointRow). k'.task_id) i p db.checkpoints unique
      ∙ rw found missed in
    rw
      (
        none_hit,
        update-none (λ k'. of_checkpoint i k' && p k') (set_resolved c a r) db.checkpoints none_hit,
      )
      refl

explain-repeat :
    (w r r' : String) (task : Option TaskRow) (k : CheckpointRow) (db : Db)
    → has_status TaskStatus.waiting task ≡ true
    → sql_eq k.wait_token w ≡ true
    → sql_eq k.waiting_reason_code WaitReason.external_information ≡ true
    → is_some k.external_resolved_at ≡ true
    → k.information_ref ≡ some r
    → explain_unresolved w r' task (some k) db
      ≡ (if r == r' then return false else raise another_reference, db)
unfolding explain_unresolved
explain-repeat w r r' task k db waits token reason over ref =
    rw (waits, token, reason, over, ref) (by_reference (r == r'))
  where
    by_reference :
        (b : Bool)
        → (require b another_reference >> pure false) db
          ≡ (if b then return false else raise another_reference, db)
    by_reference true = refl
    by_reference false = refl

open_wait-parts :
    (w : String) (k : CheckpointRow)
    → open_wait w k ≡ true
    → (sql_eq k.wait_token w ≡ true)
      × (sql_eq k.waiting_reason_code WaitReason.external_information ≡ true)
      × (is_valid k ≡ true)
unfolding open_wait
open_wait-parts w k h = ground arith

resolve_wait-false :
    (c : Clock) (i : ℕ) (w a r : String) (db : Db)
    → resolve_external_wait c i w a r db ≡ (return false, db)
    → resolve_wait c i w a r db ≡ explain_unresolved w r (Tasks.get i db) (get_active i db) db
unfolding resolve_wait
resolve_wait-false c i w a r db e =
    ap (λ (x : Result Bool × Db). and_then x.0 (after_store i w a r) x.1) e

-- The answer once more, on a state with the resolved row.
second_answer :
    (c : Clock) (i : ℕ) (w a r : String) (mid : Db) (k : CheckpointRow)
    → UniqueTasks mid
    → has_status TaskStatus.waiting (Tasks.get i mid) ≡ true
    → open_wait w k ≡ true
    → Checkpoints.get i mid ≡ some (set_resolved c a r k)
    → (c' : Clock) (a' r' : String)
    → resolve_wait c' i w a' r' mid
      ≡ (if r == r' then return false else raise another_reference, mid)
unfolding set_resolved Checkpoints.get get_active
second_answer c i w a r mid k unique waits opened row c' a' r' =
    let (token, reason, valid) = open_wait-parts w k opened in
    let active : get_active i mid ≡ some (set_resolved c a r k) =
      fetchone-both (of_checkpoint i) is_valid mid.checkpoints row valid in
    resolve_wait-false c' i w a' r' mid (quiet c' i w a' r' mid unique row refl)
    ∙ rw active (
        explain-repeat w r r' (Tasks.get i mid) (set_resolved c a r k) mid waits token reason refl
          refl)

-- Once an answer resolved the wait of a task that waits, the same reference for that wait, whoever
-- sends it, is answered with false, another reference with an error; both change nothing.
pub resolve_wait-repeat :
    (c : Clock) (i : ℕ) (w a r : String) (db : Db)
    → UniqueTasks db
    → has_status TaskStatus.waiting (Tasks.get i db) ≡ true
    → (resolve_wait c i w a r db).0 ≡ return true
    → (c' : Clock) (a' r' : String)
    → let after = (resolve_wait c i w a r db).1 in
      resolve_wait c' i w a' r' after
      ≡ (if r == r' then return false else raise another_reference, after)
resolve_wait-repeat c i w a r db unique waits returned c' a' r' =
    let (resolved, same) = resolve_wait-return c i w a r db returned in
    let (k, opened, row) = resolved_row c i w a r db unique resolved in
    rw same (
      second_answer c i w a r (noted_db c i w a r db) k (noted_db-UniqueTasks c i w a r db unique)
        (noted_db-waits c i w a r db waits) opened row c' a' r')
