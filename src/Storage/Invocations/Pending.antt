-- ===== src/Storage/Invocations/Pending.antt =====
-- The open calls in the journal of src/harness/storage/tool_invocation_store.py.
use md_harness.Storage.Invocations.Journal.{is_new, reserve_guards, reserve_starts}
use md_harness.Storage.Dependencies.{task_exists}
use md_harness.Prelude.{
  Bool-cases, is_some, and_left, All, eq_iff, ◌==◌, nat_beq_iff, ℕ, ◌≤◌, String, ◌≡◌, refl, ◌≢◌,
  inl, inr, Bool, true, false, not, ◌&&◌, Option, none, some, List, [], ◌∷◌, arith, nat_eq,
  string_eq,
}
use md_harness.Sql.{fetchone, rowcount}
use md_harness.Sql.Laws.{
  fetchone-holds, rowcount-append, rowcount-update_le, rowcount-update_add, rowcount-none, Unique,
  rowcount-key, update-Unique, append-Unique, found-by_key,
}
use md_harness.Schema.{InvocationStatus, Clock, StepResult, InvocationRow, Db, invocation_status_eq}
use md_harness.Storage.Invocations.{
  Binding, has_invocation_id, update_invocations, get, pending_row, pending_for_task, for_step,
  restarted, started_row, restart, insert_started, start, reserve, open_call, set_result, complete,
  set_reconciled, resolve,
}

abbrev pub UniqueInvocations : Db → Type 0
UniqueInvocations db = Unique (λ (r : InvocationRow). r.invocation_id) db.invocations

-- The journal's invariant: its ids are unique, and each task has at most one open call.
pub record IsJournal (db : Db) : Type 0 where
  pub unique : UniqueInvocations db
  pub open_once : (i : ℕ) → rowcount (pending_row i) db.invocations ≤ 1

abbrev restart_where : InvocationRow → InvocationRow → Bool
restart_where row r =
    has_invocation_id row.invocation_id r && r.status == InvocationStatus.no_effect

module _ (db : Db) (journal : IsJournal db) where
  -- An UPDATE that opens no call keeps the invariant.
  closing-IsJournal :
      (p : InvocationRow → Bool) (f : InvocationRow → InvocationRow)
      → ((r : InvocationRow) → (f r).invocation_id ≡ r.invocation_id)
      → ((i : ℕ) (r : InvocationRow)
          → p r ≡ true
          → pending_row i (f r) ≡ true
          → pending_row i r ≡ true)
      → IsJournal (update_invocations p f db).1
  closing-IsJournal p f same closes = record {
    unique = update-Unique (λ r. r.invocation_id) p f same db.invocations journal.unique;
    open_once = λ i.
        let less = rowcount-update_le (pending_row i) p f db.invocations (each i db.invocations) in
        omega (arith, less, journal.open_once i);
  }
    where
      each :
          (i : ℕ) (rs : List InvocationRow)
          → All (λ r. p r ≡ true → pending_row i (f r) ≡ true → pending_row i r ≡ true) rs
      each i [] = tt
      each i (r ∷ rs) = (closes i r, each i rs)

  pub complete-IsJournal :
      (c : Clock) (i : ℕ) (id : String) (result : StepResult)
      → IsJournal (complete c i id result db).1
  unfolding complete
  complete-IsJournal c i id result =
      closing-IsJournal (open_call i id) (set_result c result) (λ r. refl) (λ j r h. ground arith)

  pub resolve-IsJournal :
      (c : Clock) (i : ℕ) (id actor : String) (outcome : InvocationStatus) (evidence : String)
      (result : Option StepResult)
      → outcome ≢ InvocationStatus.started
      → IsJournal (resolve c i id actor outcome evidence result db).1
  unfolding resolve
  resolve-IsJournal c i id actor outcome evidence result over =
      closing-IsJournal (open_call i id) (set_reconciled c actor outcome evidence result)
        (λ r. refl) (λ j r h k. ground arith)

  module _ (i : ℕ) (b : Binding) (none_open : rowcount (pending_row i) db.invocations ≡ 0) where
    insert-IsJournal : (fresh : String) → IsJournal (insert_started i b fresh db).1
    unfolding insert_started get started_row
    insert-IsJournal fresh = elim (Bool-cases (insertable_id fresh)) [
      | inr refused ↦ rw refused journal
      | inl ok ↦ rw ok (record {
        unique =
            append-Unique (λ r. r.invocation_id) (started_row i b fresh) db.invocations
              (ground arith) journal.unique;
        open_once =
            λ j. rw rowcount-append (ground (arith, journal.open_once j, rowcount-none_open j));
      })
    ]
      where
        insertable_id : String → Bool
        insertable_id id =
            task_exists i db && not (is_some (fetchone (has_invocation_id id) db.invocations))

        rowcount-none_open : (j : ℕ) → (i == j) ≡ true → rowcount (pending_row j) db.invocations ≡ 0
        rowcount-none_open j e = rw (← (nat_beq_iff i j).0 e) none_open

    restart-IsJournal :
        (row : InvocationRow)
        → fetchone (for_step i b) db.invocations ≡ some row
        → IsJournal (restart row db).1
    unfolding restart restarted
    restart-IsJournal row found = record {
      unique =
          update-Unique (λ r. r.invocation_id) (restart_where row) restarted (λ r. refl)
            db.invocations journal.unique;
      open_once = λ j. elim (Bool-cases (i == j)) [
        | inl same ↦ omega (
          arith,
          rowcount-update_add (pending_row j) (restart_where row) restarted db.invocations,
          one_row,
          rowcount-none_open j same,
        )
        | inr other ↦ omega (
          arith,
          rowcount-update_le (pending_row j) (restart_where row) restarted db.invocations
              (elsewhere j other db.invocations ours),
          journal.open_once j,
        )
      ];
    }
      where
        rowcount-none_open : (j : ℕ) → (i == j) ≡ true → rowcount (pending_row j) db.invocations ≡ 0
        rowcount-none_open j e = rw (← (nat_beq_iff i j).0 e) none_open

        one_row : rowcount (restart_where row) db.invocations ≤ 1
        one_row =
            rw
              (rowcount-key (λ (r : InvocationRow). r.invocation_id) row.invocation_id
                (λ r. r.status == InvocationStatus.no_effect) db.invocations journal.unique)
              (ground arith)

        ours :
            All
              (λ (r : InvocationRow). r.invocation_id ≡ row.invocation_id → r.task_id ≡ i)
              db.invocations
        ours =
            found-by_key (λ (r : InvocationRow). r.invocation_id) (λ r. r.task_id ≡ i)
              (for_step i b) db.invocations journal.unique found
              (ground (arith, fetchone-holds (for_step i b) db.invocations found))

        wrong_task :
            (j : ℕ) (r : InvocationRow)
            → (r.invocation_id ≡ row.invocation_id → r.task_id ≡ i)
            → restart_where row r ≡ true
            → pending_row j (restarted r) ≡ true
            → (i == j) ≡ true
        wrong_task j r h p q =
            let e = h ((eq_iff _ _).0 (and_left (has_invocation_id row.invocation_id r) _ p)) in
            rw (← e) (and_left (r.task_id == j) true q)

        elsewhere :
            (j : ℕ)
            → (i == j) ≡ false
            → (rs : List InvocationRow)
            → All (λ r. r.invocation_id ≡ row.invocation_id → r.task_id ≡ i) rs
            → All
                (λ r.
                  restart_where row r ≡ true
                  → pending_row j (restarted r) ≡ true
                  → pending_row j r ≡ true)
                rs
        elsewhere j other [] h = tt
        elsewhere j other (r ∷ rs) h =
            (λ p q. cc (other, wrong_task j r h.0 p q), elsewhere j other rs h.1)

  start-IsJournal :
      (i : ℕ) (b : Binding) (fresh : String) (row : Option InvocationRow)
      → fetchone (for_step i b) db.invocations ≡ row
      → pending_for_task i db ≡ none
      → IsJournal (start i b fresh row db).1
  unfolding pending_for_task
  start-IsJournal i b fresh row found quiet = by_row row found
    where
      no_open : rowcount (pending_row i) db.invocations ≡ 0
      no_open = rowcount-none (pending_row i) db.invocations (ground arith)

      by_row :
          (o : Option InvocationRow)
          → fetchone (for_step i b) db.invocations ≡ o
          → IsJournal (start i b fresh o db).1
      by_row none e = insert-IsJournal i b no_open fresh
      by_row (some r) e = restart-IsJournal i b no_open r e

-- Whatever `reserve` answers or raises, the journal keeps unique ids and at most one open call for
-- each task.
pub reserve-IsJournal :
    (i : ℕ) (b : Binding) (fresh : String) (db : Db)
    → IsJournal db
    → IsJournal (reserve i b fresh db).1
reserve-IsJournal i b fresh db journal = elim (Bool-cases (is_new (reserve i b fresh db).0)) [
  | inr kept ↦ rw ((reserve_guards i b fresh db).1 kept) journal
  | inl opened ↦ rw (reserve_starts i b fresh db opened) (
      start-IsJournal db journal i b fresh (fetchone (for_step i b) db.invocations) refl
        ((reserve_guards i b fresh db).0 opened))
]
