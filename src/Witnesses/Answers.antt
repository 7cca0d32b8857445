-- ===== src/Witnesses/Answers.antt =====
-- EngineUnitOfWork.resolve_external_wait on a task that waits for information.
use md_harness.Prelude.{◌≡◌, refl, true, arith, nat_eq, string_eq}
use md_harness.Effects.{return, raise}
use md_harness.Sql.{fetchone, rowcount}
use md_harness.Schema.{TaskStatus, task_status_eq, next_action_eq, wait_reason_eq}
use md_harness.Samples.{at, waiting_db}
use md_harness.Storage.Tasks.{get}
use md_harness.Storage.Checkpoints.{open_wait, resolve_external_wait}
use md_harness.Storage.Checkpoints.Waits.{UniqueTasks}
use md_harness.Transaction.External.{resolve_wait}
use md_harness.Transaction.External.Repeats.{another_reference, resolve_wait-repeat}
use md_harness.Transaction.Tools.{has_status}

waiting_db-UniqueTasks : UniqueTasks waiting_db
waiting_db-UniqueTasks = ground arith

waits : has_status TaskStatus.waiting (get 1 waiting_db) ≡ true
unfolding get fetchone
waits = refl

answered : (resolve_wait (at 5) 1 "w1" "ada" "ticket" waiting_db).0 ≡ return true
unfolding resolve_wait resolve_external_wait open_wait rowcount
answered = refl

resolve_wait-repeat_example :
    resolve_wait
      (at 9)
      1
      "w1"
      "bob"
      "other"
      (resolve_wait (at 5) 1 "w1" "ada" "ticket" waiting_db).1
    ≡ (raise another_reference, (resolve_wait (at 5) 1 "w1" "ada" "ticket" waiting_db).1)
resolve_wait-repeat_example =
    resolve_wait-repeat (at 5) 1 "w1" "ada" "ticket" waiting_db waiting_db-UniqueTasks waits
      answered (at 9) "bob" "other"
