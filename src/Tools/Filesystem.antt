-- ===== src/Tools/Filesystem.antt =====
-- FilesystemTool of src/harness/tools/filesystem.py. The disk is a parameter that answers as it likes,
-- knowing every access before; the state is the list of the accesses, the last one first.
-- FilesystemError is a RuntimeError.
pub mod Execute
pub mod Confined
pub mod Reach
use Prim.Native.String
use md_harness.Prelude.{
  if◌then◌else◌, ◌==◌, contains, String, Bool, true, false, not, ◌&&◌, Option, none, some, List, [],
  ◌∷◌, map, string_eq,
}
use md_harness.Effects.{
  Error, runtime_error, os_error, Action, pure, throw, ◌>>=◌, ◌>>◌, require, require_some,
}
use md_harness.Text.{parts, is_absolute, as_posix}
use md_harness.Engine.Evidence.{sorted_set}

-- `make_directory` and `make_directories` are `mkdir` of pathlib without and with `parents`;
-- `make_parent` makes the directory above the path, with `parents`.
pub data Operation : Type 0 where
  look : Operation
  read : Operation
  list : Operation
  make_directory : Operation
  make_directories : Operation
  make_parent : Operation
  write : Operation
  copy_tree_from : Operation
  copy_tree_to : Operation
  copy_file_from : Operation
  copy_file_to : Operation
  move_from : Operation
  move_to : Operation
  remove_empty : Operation
  remove_tree : Operation
  unlink : Operation

pub record Access : Type 0 where
  pub operation : Operation
  pub path : String

-- `resolves` is `Path.resolve` behind `expanduser`, an absolute path; `does` says that there
-- is no OSError; `moved` is what `shutil.move` returns.
pub record Disk : Type 0 where
  pub expands : String → String
  pub resolves : List Access → String → String
  pub exists : List Access → String → Bool
  pub is_file : List Access → String → Bool
  pub is_directory : List Access → String → Bool
  pub reads : List Access → String → Option String
  pub lists : List Access → String → Bool → List String
  pub moved : String → String → String
  pub does : List Access → Operation → String → Bool

abbrev pub starts_list : List String → List String → Bool
starts_list [] names = true
starts_list (x ∷ xs) [] = false
starts_list (x ∷ xs) (y ∷ ys) = x == y && starts_list xs ys

-- `relative_to(root)` does not raise.
unfoldable pub is_under : String → String → Bool
unfolding parts
is_under root path = starts_list (parts root) (parts path)

abbrev pub behind : List String → List String → List String
behind [] names = names
behind (x ∷ xs) [] = []
behind (x ∷ xs) (y ∷ ys) = behind xs ys

-- `str(entry.relative_to(root))`
unfoldable pub relative_text : String → String → String
unfolding parts as_posix
relative_text root entry = as_posix (behind (parts root) (parts entry))

abbrev pub outside_workspace : String → Error
outside_workspace path = runtime_error (String.◌++◌ "path outside workspace: " path)

abbrev pub about : String → String → Error
about message path = runtime_error (String.◌++◌ message path)

module _ (disk : Disk) where
  abbrev pub ask : (List Access → String → Bool) → String → Action (List Access) Bool
  ask test path history =
      pure (test history path) (record { operation = look; path = path } ∷ history)

  abbrev pub perform : Operation → String → Error → Action (List Access) (Unit {0})
  perform operation path e history =
      require (disk.does history operation path) e
        (record { operation = operation; path = path } ∷ history)

  module _ (root : String) where
    abbrev pub candidate : String → String
    candidate path =
        let expanded = disk.expands path in
        if is_absolute expanded then expanded else String.◌++◌ root (String.◌++◌ "/" expanded)

    unfoldable pub resolve : String → Action (List Access) String
    unfolding is_under is_absolute
    resolve path history =
        let resolved = disk.resolves history (candidate path) in
        (require (is_under root resolved) (outside_workspace path) >> pure resolved) history

    unfoldable pub exists : String → Action (List Access) Bool
    unfolding resolve
    exists path = do target ← resolve path; ask disk.exists target

    -- `mkdir(parents=parents, exist_ok=True)`
    abbrev pub making : Bool → Operation
    making parents = if parents then make_directories else make_directory

    unfoldable pub mkdir : String → Bool → Action (List Access) String
    unfolding resolve
    mkdir path parents = do
      directory ← resolve path
      perform (making parents) directory (os_error "mkdir")
      pure directory

    abbrev pub read_file : String → String → Action (List Access) String
    read_file path file_path history =
        require_some (disk.reads history file_path) (about "could not read file: " path)
          (record { operation = read; path = file_path } ∷ history)

    unfoldable pub read_text : String → Action (List Access) String
    unfolding resolve
    read_text path = do
      file_path ← resolve path
      is_file ← ask disk.is_file file_path
      require is_file (about "not a file: " path)
      read_file path file_path

    unfoldable pub write_text : String → Bool → Action (List Access) String
    unfolding resolve
    write_text path overwrite = do
      file_path ← resolve path
      there ← ask disk.exists file_path
      require (not (there && not overwrite)) (about "file already exists: " path)
      perform make_parent file_path (os_error "mkdir")
      perform write file_path (about "could not write file: " path)
      pure file_path

    abbrev pub entries_of : Bool → String → Action (List Access) (List String)
    entries_of recursive directory history =
        pure (disk.lists history directory recursive)
          (record { operation = list; path = directory } ∷ history)

    -- No entry stands twice in a directory.
    unfoldable pub list_directory : String → Bool → Action (List Access) (List String)
    unfolding resolve relative_text sorted_set
    list_directory path recursive = do
      directory ← resolve path
      is_directory ← ask disk.is_directory directory
      require is_directory (about "not a directory: " path)
      entries ← entries_of recursive directory
      pure (sorted_set (map (λ entry. relative_text root entry) entries))

    -- The two accesses of one call of shutil.
    abbrev pub transfer :
        Operation → Operation → String → String → Error → Action (List Access) (Unit {0})
    transfer from to source target e history =
        require (disk.does history from source && disk.does history to target) e (
          record { operation = to; path = target }
          ∷ record { operation = from; path = source }
          ∷ history)

    abbrev pub not_done : String → String → String → Error
    not_done what source destination =
        runtime_error (String.◌++◌ what (String.◌++◌ source (String.◌++◌ " to " destination)))

    -- `copytree` or `copy2`
    abbrev pub copied_from : Bool → Operation
    copied_from is_directory = if is_directory then copy_tree_from else copy_file_from

    abbrev pub copied_to : Bool → Operation
    copied_to is_directory = if is_directory then copy_tree_to else copy_file_to

    unfoldable pub copy : String → String → Action (List Access) String
    unfolding resolve
    copy source destination = do
      source_path ← resolve source
      destination_path ← resolve destination
      there ← ask disk.exists source_path
      require there (about "source does not exist: " source)
      perform make_parent destination_path (os_error "mkdir")
      is_directory ← ask disk.is_directory source_path
      transfer (copied_from is_directory) (copied_to is_directory) source_path destination_path
          (not_done "could not copy " source destination)
      pure destination_path

    unfoldable pub move : String → String → Action (List Access) String
    unfolding resolve
    move source destination = do
      source_path ← resolve source
      destination_path ← resolve destination
      there ← ask disk.exists source_path
      require there (about "source does not exist: " source)
      perform make_parent destination_path (os_error "mkdir")
      transfer move_from move_to source_path destination_path
          (not_done "could not move " source destination)
      pure (disk.moved source_path destination_path)

    -- `rmdir`, `rmtree` or `unlink`
    abbrev pub deletion : Bool → Bool → Operation
    deletion is_directory recursive =
        if is_directory then (if recursive then remove_tree else remove_empty) else unlink

    -- `allow_delete` is the field of the tool.
    unfoldable pub delete : Bool → String → Bool → Action (List Access) (Unit {0})
    unfolding resolve
    delete allow_delete path recursive = do
      require allow_delete (runtime_error "delete operations are disabled")
      target ← resolve path
      there ← ask disk.exists target
      require there (about "path does not exist: " path)
      is_directory ← ask disk.is_directory target
      perform (deletion is_directory recursive) target (about "could not delete: " path)
