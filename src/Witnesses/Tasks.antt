-- ===== src/Witnesses/Tasks.antt =====
-- TaskStore on two tasks.
use md_harness.Storage.Tasks.Granted.{Claimable, claimed, Unused, claim_lem}
use md_harness.Storage.Attempts.Running.{
  OneRunning, AttemptCall, record_call, complete_call, stop_call, attempt_calls,
  attempt_calls-OneRunning,
}
use md_harness.Prelude.{
  ◌⊎◌, inl, inr, ℕ, String, ◌≡◌, refl, ◌≢◌, true, false, Option, none, some, List, [], ◌∷◌, arith,
  nat_eq, string_eq,
}
use md_harness.Effects.{return}
use md_harness.Sql.{fetchone, rowcount}
use md_harness.Schema.{
  TaskStatus, AttemptStatus, TaskRow, task_status_eq, approval_status_eq, attempt_status_eq,
}
use md_harness.Samples.{at, task_row, two_tasks}
use md_harness.Storage.Tasks.{get, claim}
use md_harness.Storage.Tasks.Keys.{UniqueIds}
use md_harness.Storage.Tasks.Fencing.{Call, claim_call, release_call, calls, Fenced, calls-Fenced}
use md_harness.Sql.Decides.{Has}

two_tasks-UniqueIds : UniqueIds two_tasks
two_tasks-UniqueIds = ground arith

abbrev others : List Call
others = claim_call (at 20) 1 "other" 30 ∷ release_call 1 "other" ∷ []

second_task : get 2 two_tasks ≡ some (task_row 2 TaskStatus.executing (some "old") (some 50) 3)
unfolding get fetchone
second_task = refl

calls-Fenced_example :
    (u : TaskRow) × (get 2 (calls (claim_call (at 60) 2 "new" 30 ∷ others) two_tasks) ≡ some u)
    × Fenced (task_row 2 TaskStatus.executing (some "old") (some 50) 3) u
calls-Fenced_example = calls-Fenced (claim_call (at 60) 2 "new" 30 ∷ others) 2 two_tasks second_task

token_free : Unused 2 "new" two_tasks.tasks
token_free = (inr (λ e. cc), (inl refl, tt))

claim_lem_example :
    (((t : TaskRow) × (get 2 two_tasks ≡ some t)
        × Claimable 60 t
        × ((claim (at 60) 2 "new" 30 two_tasks).0 ≡ return true)
        × (get 2 (claim (at 60) 2 "new" 30 two_tasks).1 ≡ some (claimed (at 60) "new" 90 t)))
      ⊎ ((¬ Has (Claimable 60) (get 2 two_tasks))
          × ((claim (at 60) 2 "new" 30 two_tasks).0 ≡ return false)
          × (get 2 (claim (at 60) 2 "new" 30 two_tasks).1 ≡ get 2 two_tasks)))
    × ((j : ℕ) → j ≢ 2 → get j (claim (at 60) 2 "new" 30 two_tasks).1 ≡ get j two_tasks)
claim_lem_example = claim_lem (at 60) 2 "new" 30 two_tasks two_tasks-UniqueIds token_free

abbrev nobody : Option String
nobody = none

abbrev attempts_of_two : List AttemptCall
attempts_of_two =
    record_call (at 10) 2 AttemptStatus.running nobody none none none 30
    ∷ complete_call (at 11) 1 AttemptStatus.completed none none
    ∷ record_call (at 12) 2 AttemptStatus.running nobody none none none 30
    ∷ stop_call (at 13) 2 "stop"
    ∷ []

two_tasks-OneRunning : OneRunning two_tasks.attempts
unfolding rowcount
two_tasks-OneRunning i = ground arith

attempt_calls-OneRunning_example : OneRunning (attempt_calls attempts_of_two two_tasks).attempts
attempt_calls-OneRunning_example =
    attempt_calls-OneRunning attempts_of_two two_tasks two_tasks-OneRunning
