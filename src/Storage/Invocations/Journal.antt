-- ===== src/Storage/Invocations/Journal.antt =====
-- The answers of `reserve`, of src/harness/storage/tool_invocation_store.py.
use md_harness.Sql.{fetchone}
use md_harness.Prelude.{ℕ, String, ◌≡◌, Bool, true, false, none, some, arith, nat_eq, string_eq}
use md_harness.Effects.{Result, return}
use md_harness.Schema.{InvocationStatus, StepResult, InvocationRow, Db, invocation_status_eq}
use md_harness.Storage.Invocations.{
  Binding, Reservation, new, completed, pending_for_task, for_step, same_binding, start, reserve,
}

-- The answer lets the caller run the tool.
abbrev pub is_new : Result Reservation → Bool
is_new (return (new id)) = true
is_new _ = false

module _ (i : ℕ) (b : Binding) (fresh : String) (db : Db) where
  -- `reserve` lets a caller run the tool only if the task has no open call; every other answer,
  -- and every exception, leaves the database as it was.
  pub reserve_guards :
      (is_new (reserve i b fresh db).0 ≡ true → pending_for_task i db ≡ none)
      × (is_new (reserve i b fresh db).0 ≡ false → (reserve i b fresh db).1 ≡ db)
  unfolding reserve
  reserve_guards = (λ h. ground arith, λ h. ground arith)

  -- A call that is recorded as completed answers with its result; nothing runs again.
  reserve-completed :
      (r : InvocationRow) (result : StepResult)
      → fetchone (for_step i b) db.invocations ≡ some r
      → r.status ≡ InvocationStatus.completed
      → r.step_result ≡ some result
      → same_binding b r ≡ true
      → (reserve i b fresh db).0 ≡ return (completed result)
  unfolding reserve
  reserve-completed r result found done stored same = rw (found, same, done, stored)

  pub reserve_starts :
      is_new (reserve i b fresh db).0 ≡ true
      → (reserve i b fresh db).1 ≡ (start i b fresh (fetchone (for_step i b) db.invocations) db).1
  unfolding reserve
  reserve_starts h = ground arith
