-- ===== src/Storage/Checkpoints/Waits.antt =====
-- Saving a checkpoint and resolving its wait, of src/harness/storage/checkpoint_store.py.
use mathlib.Core.Option
use md_harness.Effects.{return}
use md_harness.Prelude.{
  Bool-cases, eq_iff, ◌==◌, beq_refl, ℕ, String, ◌≡◌, refl, ap, ◌∙◌, ◌≢◌, inl, inr, Bool, true,
  false, ◌&&◌, Option, none, some, arith, nat_eq, string_eq,
}
use md_harness.Sql.{fetchone, rowcount}
use md_harness.Sql.Decides.{hits}
use md_harness.Sql.Laws.{
  when, fetchone-update, fetchone-holds, fetchone-append, Unique, matched, rowcount-key,
  update-Unique, append-Unique,
}
use md_harness.Schema.{Clock, CheckpointRow, Db, task_status_eq, next_action_eq, wait_reason_eq}
use md_harness.Storage.Checkpoints.{
  Checkpoint, of_checkpoint, update_checkpoints, get, inserted, conflicting, upsert, save,
  task_waits, open_wait, set_resolved, resolve_external_wait,
}
use md_harness.Storage.Dependencies.{task_exists}

-- UNIQUE(task_id)
abbrev pub UniqueTasks : Db → Type 0
UniqueTasks db = Unique (λ (k : CheckpointRow). k.task_id) db.checkpoints

-- The checkpoint that `get` finds after an UPDATE on the row of the task.
pub get-update :
    (i : ℕ) (r : CheckpointRow → Bool) (f : CheckpointRow → CheckpointRow)
    → ((k : CheckpointRow) → (f k).task_id ≡ k.task_id)
    → (db : Db)
    → get i (update_checkpoints (λ k. of_checkpoint i k && r k) f db).1
      ≡ Option.map (when r f) (get i db)
unfolding get
get-update i r f same db =
    fetchone-update (of_checkpoint i) (λ k. of_checkpoint i k && r k) f (λ k. rw (same k))
      db.checkpoints
    ∙ by_key (fetchone (of_checkpoint i) db.checkpoints) refl
  where
    by_key :
        (o : Option CheckpointRow)
        → fetchone (of_checkpoint i) db.checkpoints ≡ o
        → Option.map (when (λ k. of_checkpoint i k && r k) f) o ≡ Option.map (when r f) o
    by_key none e = refl
    by_key (some k) e = rw (fetchone-holds (of_checkpoint i) db.checkpoints e)

pub rowcount-hits :
    (i : ℕ) (r : CheckpointRow → Bool) (db : Db)
    → UniqueTasks db
    → (rowcount (λ k. of_checkpoint i k && r k) db.checkpoints == 1) ≡ hits r (get i db)
unfolding get
rowcount-hits i r db unique =
    rw (rowcount-key (λ (k : CheckpointRow). k.task_id) i r db.checkpoints unique)
      (one (fetchone (of_checkpoint i) db.checkpoints))
  where
    one :
        (o : Option CheckpointRow)
        → (matched (λ (k : CheckpointRow). k.task_id) r o == 1) ≡ hits r o
    one none = refl
    one (some k) = ground arith

-- The row of a task after `save`.
abbrev pub saved : ℕ → Checkpoint → String → Option CheckpointRow → CheckpointRow
saved i k fresh none = inserted i k fresh
saved i k fresh (some old) = conflicting k fresh old

-- `save` writes the checkpoint of an existing task over the one that it had: the row is active,
-- its revision is the next one, and it has a new wait token exactly if the task is to wait.
pub save_lem :
    (i : ℕ) (k : Checkpoint) (fresh : String) (db : Db)
    → task_exists i db ≡ true
    → get i (save i k fresh db).1 ≡ some (saved i k fresh (get i db))
unfolding save get
save_lem i k fresh db known = rw known (by_old (fetchone (of_checkpoint i) db.checkpoints) refl)
  where
    by_old :
        (o : Option CheckpointRow)
        → fetchone (of_checkpoint i) db.checkpoints ≡ o
        → fetchone (of_checkpoint i) (upsert i k fresh o db.checkpoints) ≡ some (saved i k fresh o)
    by_old none e = rw (fetchone-append (of_checkpoint i) db.checkpoints, e, beq_refl i)
    by_old (some old) e =
        rw
          (fetchone-update (of_checkpoint i) (of_checkpoint i) (conflicting k fresh) (λ x. refl), e)
          (rw (fetchone-holds (of_checkpoint i) db.checkpoints e))

pub update-UniqueTasks :
    (p : CheckpointRow → Bool) (f : CheckpointRow → CheckpointRow) (db : Db)
    → ((k : CheckpointRow) → (f k).task_id ≡ k.task_id)
    → UniqueTasks db
    → UniqueTasks (update_checkpoints p f db).1
update-UniqueTasks p f db same unique =
    update-Unique (λ k. k.task_id) p f same db.checkpoints unique

pub save-UniqueTasks :
    (i : ℕ) (k : Checkpoint) (fresh : String) (db : Db)
    → UniqueTasks db
    → UniqueTasks (save i k fresh db).1
unfolding save get
save-UniqueTasks i k fresh db unique = elim (Bool-cases (task_exists i db)) [
  | inr unknown ↦ rw unknown unique
  | inl known ↦ rw known (by_old (fetchone (of_checkpoint i) db.checkpoints) refl)
]
  where
    by_old :
        (o : Option CheckpointRow)
        → fetchone (of_checkpoint i) db.checkpoints ≡ o
        → Unique (λ (k' : CheckpointRow). k'.task_id) (upsert i k fresh o db.checkpoints)
    by_old none e = append-Unique (λ k'. k'.task_id) (inserted i k fresh) db.checkpoints e unique
    by_old (some old) e =
        update-Unique (λ k'. k'.task_id) (of_checkpoint i) (conflicting k fresh) (λ k'. refl)
          db.checkpoints unique

module _ (c : Clock) (i : ℕ) (wait_token actor information_ref : String) (db : Db)
    (unique : UniqueTasks db) where
  abbrev wait_where : CheckpointRow → Bool
  wait_where k = open_wait wait_token k && task_waits i db

  -- The answer and the row by the WHERE clause.
  pub resolve_answers :
      ((resolve_external_wait c i wait_token actor information_ref db).0
        ≡ return (hits wait_where (get i db)))
      × (get i (resolve_external_wait c i wait_token actor information_ref db).1
          ≡ Option.map (when wait_where (set_resolved c actor information_ref)) (get i db))
  unfolding resolve_external_wait
  resolve_answers = (
    ap return (rowcount-hits i wait_where db unique),
    get-update i wait_where (set_resolved c actor information_ref) (λ k. refl) db,
  )

  pub resolve-UniqueTasks :
      UniqueTasks (resolve_external_wait c i wait_token actor information_ref db).1
  unfolding resolve_external_wait
  resolve-UniqueTasks =
      update-UniqueTasks _ (set_resolved c actor information_ref) db (λ k. refl) unique

hits-resolved :
    (c : Clock) (w a r w' : String) (waits later : Bool) (o : Option CheckpointRow)
    → hits (λ k. open_wait w k && waits) o ≡ true
    → hits
        (λ k. open_wait w' k && later)
        (Option.map (when (λ k. open_wait w k && waits) (set_resolved c a r)) o)
      ≡ false
unfolding open_wait set_resolved
hits-resolved c w a r w' waits later none h = cc
hits-resolved c w a r w' waits later (some k) h = rw h (ground arith)

-- A wait is resolved at most once: after a call that resolved it, no other call for the task
-- resolves anything, whatever token, actor and reference it brings, and whenever it comes.
pub resolve-once :
    (c : Clock) (i : ℕ) (wait_token actor information_ref : String) (db : Db)
    → UniqueTasks db
    → (resolve_external_wait c i wait_token actor information_ref db).0 ≡ return true
    → (c' : Clock) (wait_token' actor' information_ref' : String)
    → (resolve_external_wait c' i wait_token' actor' information_ref'
        (resolve_external_wait c i wait_token actor information_ref db).1).0
      ≡ return false
resolve-once c i w a r db unique resolved c' w' a' r' =
    let (answer, row) = resolve_answers c i w a r db unique in
    let after = (resolve_external_wait c i w a r db).1 in
    let (answer', _) =
      resolve_answers c' i w' a' r' after (resolve-UniqueTasks c i w a r db unique) in
    let hit : hits (λ k. open_wait w k && task_waits i db) (get i db) ≡ true =
      cc (answer, resolved) in
    rw (answer', row)
      (ap return (hits-resolved c w a r w' (task_waits i db) (task_waits i after) (get i db) hit))

-- Once a new checkpoint is saved, a token of an earlier one resolves nothing.
pub save-stale :
    (i : ℕ) (k : Checkpoint) (fresh : String) (db : Db)
    → UniqueTasks db
    → task_exists i db ≡ true
    → (c : Clock) (stale actor information_ref : String) → fresh ≢ stale
    → (resolve_external_wait c i stale actor information_ref (save i k fresh db).1).0 ≡ return false
save-stale i k fresh db unique known c stale a r apart =
    let after = (save i k fresh db).1 in
    let (answer, _) = resolve_answers c i stale a r after (save-UniqueTasks i k fresh db unique) in
    rw (answer, save_lem i k fresh db known) (ap return (no_hit (get i db)))
  where
    no_hit :
        (o : Option CheckpointRow)
        → hits
            (λ k'. open_wait stale k' && task_waits i (save i k fresh db).1)
            (some (saved i k fresh o))
          ≡ false
    no_hit none = unfold open_wait inserted in ground (arith, eq_iff fresh stale)
    no_hit (some old) = unfold open_wait conflicting in ground (arith, eq_iff fresh stale)
