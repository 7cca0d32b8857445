-- ===== src/Witnesses/Disk.antt =====
-- A disk on which every file is there.
use md_harness.Prelude.{true, false, none, some, []}
use md_harness.Tools.Filesystem.{Disk}
use md_harness.Tools.Filesystem.Execute.{Arguments, execute}
use md_harness.Tools.Filesystem.Confined.{Confined}
use md_harness.Tools.Filesystem.Reach.{execute-Confined}

abbrev full_disk : Disk
full_disk = record {
  expands = λ path. path;
  resolves = λ history path. path;
  exists = λ history path. true;
  is_file = λ history path. true;
  is_directory = λ history path. false;
  reads = λ history path. some "text";
  lists = λ history path recursive. [];
  moved = λ source target. target;
  does = λ history operation path. true;
}

abbrev write_notes : Arguments
write_notes = record {
  operation = "write";
  path = some "docs/notes.md";
  content = some "text";
  destination = none;
  recursive = none;
  parents = none;
  overwrite = none;
}

execute-Confined_example :
    Confined "/work/app" false (execute full_disk "/work/app" false write_notes []).1
unfolding Confined
execute-Confined_example = execute-Confined full_disk "/work/app" false write_notes [] tt
