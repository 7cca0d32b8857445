-- ===== src/Storage/Attempts.antt =====
-- The attempts, replans and bindings of src/harness/storage/task_store.py.
pub mod Running
use md_harness.Prelude.{
  ltb, if◌then◌else◌, is_some, any, ◌==◌, sql_eq, ℕ, ◌+◌, String, Bool, true, not, ◌&&◌, Option,
  none, some, List, [], ◌∷◌, ◌++◌, nat_eq, string_eq,
}
use md_harness.Effects.{
  Error, runtime_error, integrity_error, Action, pure, gets, ◌>>=◌, ◌>>◌, modify, require,
  require_some,
}
use md_harness.Sql.{fetchone, rowcount}
use md_harness.Schema.{AttemptStatus, Clock, AttemptRow, Db, attempt_status_eq}
use md_harness.Storage.Tasks.{update_attempts, is_active, lease_expired, assert_claim}
use md_harness.Storage.Dependencies.{task_exists}

abbrev pub has_attempt_id : ℕ → AttemptRow → Bool
has_attempt_id attempt_id a = a.id == attempt_id

abbrev pub of_task : ℕ → AttemptRow → Bool
of_task task_id a = a.task_id == task_id

-- SQLite gives a new row of an INTEGER PRIMARY KEY the id behind the largest one.
unfoldable pub next_id : List AttemptRow → ℕ
next_id [] = 1
next_id (a ∷ rows) = let rest = next_id rows in if ltb a.id rest then rest else a.id + 1

unfoldable pub profile_name : ℕ → List (ℕ × String) → Option String
profile_name task_id [] = none
profile_name task_id ((i, name) ∷ rows) =
    let rest = profile_name task_id rows in if i == task_id then some name else rest

-- `if agent is None: agent = …`
abbrev pub bound_agent : ℕ → Option String → Db → Option String
bound_agent task_id none db = profile_name task_id db.bindings
bound_agent task_id (some agent) db = some agent

abbrev pub assert_claim_if : Clock → ℕ → Option String → Action Db (Unit {0})
assert_claim_if c task_id none = pure tt
assert_claim_if c task_id (some token) = assert_claim c task_id token

abbrev pub has_active : ℕ → Db → Bool
has_active task_id db = ltb 0 (rowcount (λ a. of_task task_id a && is_active a) db.attempts)

-- The foreign key and the unique index on `run_id`.
abbrev pub attempt_insertable : ℕ → Option String → Db → Bool
attempt_insertable task_id none db = task_exists task_id db
attempt_insertable task_id (some run_id) db =
    task_exists task_id db && not (any (λ a. sql_eq a.run_id run_id) db.attempts)

abbrev pub new_attempt :
    Clock
    → ℕ
    → AttemptStatus
    → Option String
    → Option String
    → Option String
    → Option String
    → ℕ
    → Db
    → AttemptRow
new_attempt c task_id status agent error_message run_id claim_token lease_seconds db = record {
  id = next_id db.attempts;
  task_id = task_id;
  agent = bound_agent task_id agent db;
  status = status;
  completed_at = none;
  error_message = error_message;
  run_id = run_id;
  claim_token = claim_token;
  claim_expires_at = if is_some run_id then some (c.now + lease_seconds) else none;
}

unfoldable pub record_attempt :
    Clock
    → ℕ
    → AttemptStatus
    → Option String
    → Option String
    → Option String
    → Option String
    → ℕ
    → Action Db ℕ
unfolding assert_claim next_id
record_attempt c task_id status agent error_message run_id claim_token lease_seconds = do
  assert_claim_if c task_id claim_token
  active ← gets (has_active task_id)
  require (not active) (runtime_error "task already has an active attempt")
  ok ← gets (attempt_insertable task_id run_id)
  require ok (integrity_error "task_attempts")
  row ← gets (new_attempt c task_id status agent error_message run_id claim_token lease_seconds)
  modify (λ db. record db { attempts = db.attempts ++ row ∷ [] })
  pure row.id

abbrev pub attempt_not_owned : Error
attempt_not_owned = runtime_error "attempt claim is not owned by this run"

abbrev pub assert_attempt_claim : Clock → ℕ → Option String → Action Db (Unit {0})
assert_attempt_claim c attempt_id none = pure tt
assert_attempt_claim c attempt_id (some token) = do
  found ← gets (λ db. fetchone (has_attempt_id attempt_id) db.attempts)
  attempt ← require_some found attempt_not_owned
  require (sql_eq attempt.claim_token token) attempt_not_owned
  require (not (lease_expired c attempt.claim_expires_at))
      (runtime_error "attempt claim has expired")

-- `(? IS NULL OR claim_token = ?)`
abbrev pub token_matches : Option String → AttemptRow → Bool
token_matches none a = true
token_matches (some token) a = sql_eq a.claim_token token

-- The SET clause of `complete_attempt`.
unfoldable pub set_completed : Clock → AttemptStatus → Option String → AttemptRow → AttemptRow
set_completed c status error_message a = record a {
  status = status;
  completed_at = some c.current_timestamp;
  error_message = error_message;
}

unfoldable pub complete_attempt :
    Clock → ℕ → AttemptStatus → Option String → Option String → Action Db (Unit {0})
unfolding set_completed
complete_attempt c attempt_id status error_message claim_token = do
  assert_attempt_claim c attempt_id claim_token
  update_attempts (λ a. has_attempt_id attempt_id a && token_matches claim_token a)
      (set_completed c status error_message)
  pure tt

-- `reason_fingerprint or reason_code`
abbrev pub or_text : Option String → String → String
or_text none default = default
or_text (some given) default = if given == "" then default else given

unfoldable pub record_replan :
    ℕ → String → ℕ → Option ℕ → Option ℕ → Option String → Option String → Action Db (Unit {0})
record_replan task_id reason_code plan_version parent attempt_id reason_fingerprint
      plan_fingerprint =
    modify λ db. record db {
      replans =
          db.replans
          ++ record {
            task_id = task_id;
            attempt_id = attempt_id;
            parent_plan_version = parent;
            plan_version = plan_version;
            reason_code = reason_code;
            reason_fingerprint = or_text reason_fingerprint reason_code;
            plan_fingerprint = plan_fingerprint;
          }
            ∷ [];
    }
