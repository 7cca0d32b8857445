-- ===== src/Witnesses/Journal.antt =====
-- The journal of tool calls and the grants of a task in work.
use md_harness.Prelude.{◌≡◌, refl, true, false, none, some, [], ◌∷◌, arith, nat_eq, string_eq}
use md_harness.Effects.{return}
use md_harness.Sql.{fetchone, rowcount}
use md_harness.Schema.{
  ApprovalStatus, InvocationStatus, StepResult, InvocationRow, Db, invocation_status_eq,
  approval_status_eq, task_status_eq, wait_reason_eq,
}
use md_harness.Samples.{at, two_tasks, waiting_db}
use md_harness.Text.{is_blank}
use md_harness.Storage.Invocations.{Binding, pending_for_task, reserve}
use md_harness.Storage.Invocations.Journal.{is_new, reserve_guards}
use md_harness.Storage.Invocations.Pending.{IsJournal, reserve-IsJournal}
use md_harness.Storage.Approvals.{ApprovalRequest, get_grant, matches, ready, decide}
use md_harness.Storage.Approvals.Grants.{decide-ready}

abbrev write_step : Binding
write_step = record {
  plan_fingerprint = "p1";
  plan_version = 1;
  step_id = "s1";
  tool_name = "write_file";
  arguments_fingerprint = "a1";
  permission_scope = "workspace";
}

abbrev result : StepResult
result = record {
  step_id = "s1";
  status = "success";
  tool = "write_file";
  artifacts = [];
  changed_files = "a.txt" ∷ [];
  acceptance_criteria = [];
  test_criteria = [];
}

abbrev done_row : InvocationRow
done_row = record {
  invocation_id = "i1";
  task_id = 2;
  plan_fingerprint = "p1";
  plan_version = 1;
  step_id = "s1";
  tool_name = "write_file";
  arguments_fingerprint = "a1";
  permission_scope = "workspace";
  status = InvocationStatus.completed;
  run_count = 1;
  step_result = some result;
  completed_at = some 7;
  resolved_at = none;
  resolved_by = none;
  evidence_ref = none;
}

abbrev done_db : Db
done_db = record two_tasks { invocations = done_row ∷ [] }

reserve_guards_example :
    (is_new (reserve 2 write_step "i2" two_tasks).0 ≡ true → pending_for_task 2 two_tasks ≡ none)
    × (is_new (reserve 2 write_step "i2" two_tasks).0 ≡ false
        → (reserve 2 write_step "i2" two_tasks).1 ≡ two_tasks)
reserve_guards_example = reserve_guards 2 write_step "i2" two_tasks

done_db-IsJournal : IsJournal done_db
unfolding rowcount
done_db-IsJournal = record { unique = (tt, tt); open_once = λ i. ground arith }

reserve-IsJournal_example : IsJournal (reserve 2 write_step "i2" done_db).1
reserve-IsJournal_example = reserve-IsJournal 2 write_step "i2" done_db done_db-IsJournal

abbrev asked : ApprovalRequest
asked = record {
  plan_version = 1;
  plan_fingerprint = "p1";
  step_id = "s1";
  tool = "write_file";
  arguments_fingerprint = "a1";
  permission_scope = "workspace";
}

abbrev grant_db : ApprovalStatus → Db
grant_db status = record waiting_db {
  step_approvals =
      record {
        wait_token = "w2";
        task_id = 2;
        plan_version = 1;
        plan_fingerprint = "p1";
        step_id = "s1";
        tool = "write_file";
        arguments_fingerprint = "a1";
        permission_scope = "workspace";
        status = status;
        decided_by = none;
        decided_at = none;
      }
      ∷ [];
}

asked-matches : matches 2 "w2" asked (grant_db ApprovalStatus.pending) ≡ true
unfolding matches get_grant fetchone
asked-matches = refl

asked-approved :
    (decide
      (at 5)
      2
      "w2"
      "ada"
      "workspace"
      ApprovalStatus.approved
      (grant_db ApprovalStatus.pending)).0
    ≡ return true
unfolding decide fetchone rowcount is_blank
asked-approved = refl

decide-ready_example :
    ready 2 "w2" asked
      (decide
        (at 5)
        2
        "w2"
        "ada"
        "workspace"
        ApprovalStatus.approved
        (grant_db ApprovalStatus.pending)).1
    ≡ true
decide-ready_example =
    decide-ready (at 5) 2 "w2" "ada" "workspace" (grant_db ApprovalStatus.pending) asked
      asked-matches asked-approved
