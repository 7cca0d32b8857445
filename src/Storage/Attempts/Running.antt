-- ===== src/Storage/Attempts/Running.antt =====
-- The running attempts of a task, of src/harness/storage/task_store.py.
use md_harness.Sql.Laws.{rowcount-append, rowcount-update_le}
use md_harness.Prelude.{
  ltb, Bool-cases, and_right, not-true, every, nat_beq_iff, sql_eq, ℕ, ◌≤◌, String, ◌≡◌, refl, inl,
  inr, Bool, true, false, not, ◌&&◌, Option, none, some, List, [], ◌∷◌, ◌++◌, arith, nat_eq,
  string_eq,
}
use md_harness.Effects.{
  Error, Result, return, raise, Action, and_then, ◌>>=◌, ◌>>◌, require, require_some,
}
use md_harness.Sql.{fetchone, update, rowcount}
use md_harness.Schema.{AttemptStatus, Clock, AttemptRow, Db, attempt_status_eq}
use md_harness.Storage.Tasks.{get, is_active, cancel_active_attempts, lease_expired, assert_claim}
use md_harness.Storage.Attempts.{
  has_attempt_id, of_task, assert_claim_if, has_active, attempt_insertable, new_attempt,
  record_attempt, assert_attempt_claim, token_matches, set_completed, complete_attempt,
}

abbrev pub running_of : ℕ → AttemptRow → Bool
running_of i a = of_task i a && is_active a

abbrev pub OneRunning : List AttemptRow → Type 0
OneRunning rows = (i : ℕ) → rowcount (running_of i) rows ≤ 1

-- A check in front of an action does not write.
behind :
    {A B : Type 0} (P : Db → Type 0) (r : Result A × Db) (k : Action Db B) (db : Db)
    → r.1 ≡ db
    → P db
    → P (k db).1
    → P (and_then r.0 (λ _. k) r.1).1
behind P (return a, after) k db same start rest = rw same rest
behind P (raise e, after) k db same start rest = rw same start

require-reads :
    {A : Type 0} (b : Bool) (e : Error) (k : Action Db A) (db : Db)
    → (k db).1 ≡ db
    → ((require b e >> k) db).1 ≡ db
require-reads true e k db rest = rest
require-reads false e k db rest = refl

require_some-reads :
    {A B : Type 0} (o : Option A) (e : Error) (k : A → Action Db B) (db : Db)
    → ((a : A) → (k a db).1 ≡ db)
    → ((require_some o e >>= k) db).1 ≡ db
require_some-reads none e k db rest = refl
require_some-reads (some a) e k db rest = rest a

last-reads : (b : Bool) (e : Error) (db : Db) → (require b e db).1 ≡ db
last-reads true e db = refl
last-reads false e db = refl

assert_claim-reads :
    (c : Clock) (i : ℕ) (token : Option String) (db : Db) → (assert_claim_if c i token db).1 ≡ db
unfolding assert_claim
assert_claim-reads c i none db = refl
assert_claim-reads c i (some token) db = require_some-reads (get i db) _ _ db λ task.
    require-reads (sql_eq task.claim_token token) _ _ db
      (last-reads (not (lease_expired c task.claim_expires_at)) _ db)

assert_attempt-reads :
    (c : Clock) (id : ℕ) (token : Option String) (db : Db)
    → (assert_attempt_claim c id token db).1 ≡ db
assert_attempt-reads c id none db = refl
assert_attempt-reads c id (some token) db =
    require_some-reads (fetchone (has_attempt_id id) db.attempts) _ _ db λ attempt.
      require-reads (sql_eq attempt.claim_token token) _ _ db
        (last-reads (not (lease_expired c attempt.claim_expires_at)) _ db)

-- An UPDATE that ends attempts starts none.
ended :
    (rows : List AttemptRow) (p : AttemptRow → Bool) (f : AttemptRow → AttemptRow)
    → ((a : AttemptRow) → is_active (f a) ≡ false)
    → OneRunning rows
    → OneRunning (update p f rows)
ended rows p f over one i =
    let fewer =
      rowcount-update_le (running_of i) p f rows
        (every (λ a _ h. cc (over a, and_right (of_task i (f a)) _ h)) rows) in
    omega (arith, fewer, one i)

none_counted : (n : ℕ) → ltb 0 n ≡ false → n ≡ 0
none_counted n h = ground arith

-- An attempt of a task of which none runs.
started :
    (rows : List AttemptRow) (a : AttemptRow)
    → ltb 0 (rowcount (running_of a.task_id) rows) ≡ false
    → OneRunning rows
    → OneRunning (rows ++ a ∷ [])
started rows a none_runs one i = elim (Bool-cases (of_task i a)) [
  | inl ours ↦
      let here : rowcount (running_of i) rows ≡ 0 =
        rw ((nat_beq_iff a.task_id i).0 ours) at (none_counted _ none_runs) in
      rw (rowcount-append (running_of i) rows a, here) (ground arith)
  | inr other ↦ rw (rowcount-append (running_of i) rows a, other) (omega (arith, one i))
]

-- The methods that write attempts, with their arguments.
pub data AttemptCall : Type 0 where
  record_call :
      Clock
      → ℕ
      → AttemptStatus
      → Option String
      → Option String
      → Option String
      → Option String
      → ℕ
      → AttemptCall
  complete_call : Clock → ℕ → AttemptStatus → Option String → Option String → AttemptCall
  stop_call : Clock → ℕ → String → AttemptCall

unfoldable pub attempt_call : AttemptCall → Db → Db
attempt_call (record_call c i status agent error run_id token lease) db =
    (record_attempt c i status agent error run_id token lease db).1
attempt_call (complete_call c id status error token) db =
    (complete_attempt c id status error token db).1
attempt_call (stop_call c i reason) db = (cancel_active_attempts c i reason db).1

unfoldable pub attempt_calls : List AttemptCall → Db → Db
attempt_calls [] db = db
attempt_calls (x ∷ xs) db = attempt_calls xs (attempt_call x db)

abbrev Runs : Db → Type 0
Runs db = OneRunning db.attempts

require-Runs :
    {A : Type 0} (b : Bool) (e : Error) (k : Action Db A) (db : Db)
    → Runs db
    → (b ≡ true → Runs (k db).1)
    → Runs ((require b e >> k) db).1
require-Runs true e k db start rest = rest refl
require-Runs false e k db start rest = start

attempt_call-Runs : (x : AttemptCall) (db : Db) → Runs db → Runs (attempt_call x db)
unfolding attempt_call record_attempt complete_attempt cancel_active_attempts set_completed
attempt_call-Runs (record_call c i status agent error run_id token lease) db one =
    behind Runs (assert_claim_if c i token db) _ db (assert_claim-reads c i token db) one (
      require-Runs (not (has_active i db)) _ _ db one λ none_runs.
        require-Runs (attempt_insertable i run_id db) _ _ db one λ ok.
          started db.attempts (new_attempt c i status agent error run_id token lease db)
            (not-true (has_active i db) none_runs) one)
attempt_call-Runs (complete_call c id status error token) db one =
    behind Runs (assert_attempt_claim c id token db) _ db (assert_attempt-reads c id token db) one (
      ended db.attempts (λ a. has_attempt_id id a && token_matches token a)
        (set_completed c status error) (λ a. refl) one)
attempt_call-Runs (stop_call c i reason) db one = ended db.attempts _ _ (λ a. refl) one

-- Through any calls that record, complete or cancel attempts, no task ever has two running ones.
pub attempt_calls-OneRunning :
    (xs : List AttemptCall) (db : Db)
    → OneRunning db.attempts
    → OneRunning (attempt_calls xs db).attempts
unfolding attempt_calls
attempt_calls-OneRunning [] db one = one
attempt_calls-OneRunning (x ∷ xs) db one =
    attempt_calls-OneRunning xs (attempt_call x db) (attempt_call-Runs x db one)
