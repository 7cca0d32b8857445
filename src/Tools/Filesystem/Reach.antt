-- ===== src/Tools/Filesystem/Reach.antt =====
-- Each operation of FilesystemTool.execute of src/harness/tools/filesystem.py stays under its root.
use md_harness.Tools.Filesystem.{
  Access, Disk, exists, mkdir, read_text, write_text, list_directory, copy, move, delete,
}
use md_harness.Tools.Filesystem.Execute.{
  Arguments, Reply, given_else, has_other, read_request, write_request, copy_request, move_request,
  other_request, execute, path_reply, text_reply, paths_reply, bool_reply, no_reply,
}
use md_harness.Tools.Filesystem.Confined.{
  Confined, exists-Confined, mkdir-Confined, read_text-Confined, write_text-Confined, list-Confined,
  copy-Confined, move-Confined, delete-Confined,
}
use md_harness.Prelude.{
  if◌then◌else◌, is_some, ◌==◌, String, Bool, true, false, not, ◌||◌, List, string_eq,
}
use md_harness.Effects.{Action}
use md_harness.Effects.Keeps.{Kept, then_keeps, require_keeps, some_keeps}

module _ (disk : Disk) (root : String) (allow_delete : Bool) (args : Arguments)
    (path : String) where
  abbrev Holds : List Access → Type 0
  Holds = Confined root allow_delete

  read-Confined : Kept Holds (read_request disk root allow_delete args path)
  read-Confined history h =
      require_keeps Holds (not (is_some args.content || is_some args.overwrite || has_other args)) _
        _ history h
        (λ _.
          then_keeps Holds (read_text disk root path history) text_reply
            (read_text-Confined disk root allow_delete path history h))

  write-Confined : Kept Holds (write_request disk root allow_delete args path)
  write-Confined history h = some_keeps Holds args.content _ _ history h (λ content _.
      require_keeps Holds (not (has_other args)) _ _ history h (λ _.
        then_keeps Holds (write_text disk root path (given_else args.overwrite true) history)
          path_reply
          (write_text-Confined disk root allow_delete path (given_else args.overwrite true) history
            h)))

  copy_request-Confined : Kept Holds (copy_request disk root allow_delete args path)
  copy_request-Confined history h =
      some_keeps Holds args.destination _ _ history h (λ destination _.
        then_keeps Holds (copy disk root path destination history) path_reply
          (copy-Confined disk root allow_delete path destination history h))

  move_request-Confined : Kept Holds (move_request disk root allow_delete args path)
  move_request-Confined history h =
      some_keeps Holds args.destination _ _ history h (λ destination _.
        then_keeps Holds (move disk root path destination history) path_reply
          (move-Confined disk root allow_delete path destination history h))

  choose-Confined :
      (b : Bool) (m n : Action (List Access) Reply)
      → Kept Holds m
      → Kept Holds n
      → Kept Holds (if b then m else n)
  choose-Confined true m n h k = h
  choose-Confined false m n h k = k

  other-Confined : Kept Holds (other_request disk root allow_delete args path)
  other-Confined =
      choose-Confined (args.operation == "mkdir") _ _
        (λ history h.
          then_keeps Holds (mkdir disk root path (given_else args.parents true) history) path_reply
            (mkdir-Confined disk root allow_delete path (given_else args.parents true) history h))
        (choose-Confined (args.operation == "list") _ _
          (λ history h.
            then_keeps Holds
              (list_directory disk root path (given_else args.recursive false) history) paths_reply
              (list-Confined disk root allow_delete path (given_else args.recursive false) history
                h))
          (choose-Confined (args.operation == "delete") _ _
            (λ history h.
              then_keeps Holds
                (delete disk root allow_delete path (given_else args.recursive false) history)
                (λ _. no_reply)
                (delete-Confined disk root allow_delete path (given_else args.recursive false)
                  history h))
            (choose-Confined (args.operation == "exists") _ _
              (λ history h.
                then_keeps Holds (exists disk root path history) bool_reply
                  (exists-Confined disk root allow_delete path history h))
              (λ history h. h))))

-- Whatever the disk answers: if every access so far was to a path under the root, so is every access
-- of a call, also of one that raises, where the directory above a path counts for the path. And no
-- access deletes unless the tool was made with `allow_delete`.
pub execute-Confined :
    (disk : Disk) (root : String) (allow_delete : Bool) (args : Arguments) (history : List Access)
    → Confined root allow_delete history
    → Confined root allow_delete (execute disk root allow_delete args history).1
unfolding execute
execute-Confined disk root allow_delete args =
    let path = given_else args.path "." in
    choose-Confined disk root allow_delete args path (args.operation == "read") _ _
      (read-Confined disk root allow_delete args path)
      (choose-Confined disk root allow_delete args path (args.operation == "write") _ _
        (write-Confined disk root allow_delete args path)
        (choose-Confined disk root allow_delete args path (args.operation == "copy") _ _
          (copy_request-Confined disk root allow_delete args path)
          (choose-Confined disk root allow_delete args path (args.operation == "move") _ _
            (move_request-Confined disk root allow_delete args path)
            (other-Confined disk root allow_delete args path))))
