-- ===== src/Tools/Filesystem/Execute.antt =====
-- FilesystemTool.execute of src/harness/tools/filesystem.py. A key that was not given is none; `encoding` is
-- never given. The values have the types that the methods declare.
use Prim.Native.String
use md_harness.Tools.Filesystem.{
  Access, Disk, exists, mkdir, read_text, write_text, list_directory, copy, move, delete,
}
use md_harness.Prelude.{
  if◌then◌else◌, is_some, ◌==◌, String, Bool, true, false, not, ◌||◌, Option, none, some, List,
  string_eq,
}
use md_harness.Effects.{
  key_error, type_error, runtime_error, Error, Action, pure, throw, ◌>>=◌, ◌>>◌, require,
  require_some,
}

pub record Arguments : Type 0 where
  pub operation : String
  pub path : Option String
  pub content : Option String
  pub destination : Option String
  pub recursive : Option Bool
  pub parents : Option Bool
  pub overwrite : Option Bool

pub data Reply : Type 0 where
  no_reply : Reply
  path_reply : String → Reply
  text_reply : String → Reply
  paths_reply : List String → Reply
  bool_reply : Bool → Reply

abbrev pub given_else {ℓ} : {A : Type ℓ} → Option A → A → A
given_else none default = default
given_else (some value) default = value

abbrev pub unexpected : Error
unexpected = type_error "unexpected keyword argument"

-- A key that neither `read_text` nor `write_text` knows.
abbrev pub has_other : Arguments → Bool
has_other args = is_some args.destination || is_some args.recursive || is_some args.parents

module _ (disk : Disk) (root : String) (allow_delete : Bool) where
  abbrev pub read_request : Arguments → String → Action (List Access) Reply
  read_request args path = do
    require (not (is_some args.content || is_some args.overwrite || has_other args)) unexpected
    text ← read_text disk root path
    pure (text_reply text)

  abbrev pub write_request : Arguments → String → Action (List Access) Reply
  write_request args path = do
    content ← require_some args.content (key_error "content")
    require (not (has_other args)) unexpected
    written ← write_text disk root path (given_else args.overwrite true)
    pure (path_reply written)

  abbrev pub copy_request : Arguments → String → Action (List Access) Reply
  copy_request args path = do
    destination ← require_some args.destination (key_error "destination")
    copied ← copy disk root path destination
    pure (path_reply copied)

  abbrev pub move_request : Arguments → String → Action (List Access) Reply
  move_request args path = do
    destination ← require_some args.destination (key_error "destination")
    gone ← move disk root path destination
    pure (path_reply gone)

  abbrev pub other_request : Arguments → String → Action (List Access) Reply
  other_request args path =
      if args.operation == "mkdir"
      then (do made ← mkdir disk root path (given_else args.parents true); pure (path_reply made))
      else if args.operation == "list"
      then (do
        names ← list_directory disk root path (given_else args.recursive false)
        pure (paths_reply names))
      else if args.operation == "delete"
      then (do delete disk root allow_delete path (given_else args.recursive false); pure no_reply)
      else if args.operation == "exists"
      then (do there ← exists disk root path; pure (bool_reply there))
      else throw (runtime_error (String.◌++◌ "unsupported operation: " args.operation))

  unfoldable pub execute : Arguments → Action (List Access) Reply
  unfolding exists mkdir read_text write_text list_directory copy move delete
  execute args =
      let path = given_else args.path "." in
      if args.operation == "read"
      then read_request args path
      else if args.operation == "write"
      then write_request args path
      else if args.operation == "copy"
      then copy_request args path
      else if args.operation == "move"
      then move_request args path
      else other_request args path
