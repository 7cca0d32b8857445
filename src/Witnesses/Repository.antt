-- ===== src/Witnesses/Repository.antt =====
-- A repository on a feature branch.
use md_harness.Prelude.{if◌then◌else◌, contains, String, false, none, some, [], string_eq}
use md_harness.Security.Gitflow.{gitflow_policy}
use md_harness.Tools.Git.{Completed, GitProgram}
use md_harness.Tools.Git.Execute.{Arguments, execute}
use md_harness.Tools.Git.Guarded.{Guarded}
use md_harness.Tools.Git.Protected.{execute-Guarded}

abbrev printed : String → Completed
printed text = record { failed = false; stdout = text; stderr = "" }

abbrev on_feature : GitProgram
on_feature history args =
    printed (if contains args "--show-current" then "feature/login\n" else "done\n")

abbrev commit_call : Arguments
commit_call = record {
  operation = "commit";
  message = some "Add the login form";
  paths = none;
  remote = none;
  branch = none;
  create = none;
  base = none;
  remote_delete = none;
  no_ff = none;
  staged = none;
  commit = none;
  name = none;
  url = none;
  remote_branches = none;
}

execute-Guarded_example :
    Guarded gitflow_policy (execute on_feature gitflow_policy "/work/app" "app" commit_call []).1
unfolding Guarded
execute-Guarded_example =
    execute-Guarded on_feature gitflow_policy "/work/app" "app" commit_call [] tt
