-- ===== src/Tools/Filesystem/Confined.antt =====
-- Where FilesystemTool of src/harness/tools/filesystem.py reaches, whatever the disk answers.
use md_harness.Tools.Filesystem.{
  Operation, remove_empty, remove_tree, unlink, look, read, list, make_parent, making, write,
  copy_tree_from, copy_tree_to, copy_file_from, copy_file_to, move_from, move_to, Access, Disk,
  is_under, candidate, outside_workspace, ask, perform, resolve, exists, mkdir, read_file,
  read_text, write_text, list_directory, transfer, copied_from, copied_to, copy, move, deletion,
  delete, not_done,
}
use md_harness.Prelude.{◌≡◌, refl, String, Bool, true, false, not, ◌&&◌, List, [], ◌∷◌, string_eq}
use md_harness.Effects.{Error, os_error, Action, pure, ◌>>=◌, ◌>>◌, require}
use md_harness.Effects.Keeps.{last_some_keeps, Kept, require_keeps, last_keeps}

abbrev pub deletes : Operation → Bool
deletes remove_empty = true
deletes remove_tree = true
deletes unlink = true
deletes _ = false

-- Every access was to a path under the root, and none deleted unless that is allowed.
unfoldable pub Confined : String → Bool → List Access → Type 0
Confined root allow_delete [] = Unit {0}
Confined root allow_delete (access ∷ before) =
    ((is_under root access.path ≡ true) × (deletes access.operation ≡ true → allow_delete ≡ true))
    × Confined root allow_delete before

module _ (disk : Disk) (root : String) (allow_delete : Bool) where
  abbrev Holds : List Access → Type 0
  Holds = Confined root allow_delete

  tested-Confined :
      {A : Type 0} (test : Bool) (e : Error) (target : String) (f : String → Action (List Access) A)
      (history : List Access)
      → Holds history
      → (test ≡ true → Holds (f target history).1)
      → Holds (((require test e >> pure target) >>= f) history).1
  tested-Confined true e target f history h k = k refl
  tested-Confined false e target f history h k = h

  resolve-Confined :
      {A : Type 0} (path : String) (f : String → Action (List Access) A) (history : List Access)
      → Holds history
      → ((target : String) → is_under root target ≡ true → Holds (f target history).1)
      → Holds ((resolve disk root path >>= f) history).1
  unfolding resolve
  resolve-Confined path f history h k =
      let target = disk.resolves history (candidate disk root path) in
      tested-Confined (is_under root target) (outside_workspace path) target f history h
        (λ inside. k target inside)

  -- The access that comes next.
  abbrev noted : Operation → String → List Access → List Access
  noted operation path history = record { operation = operation; path = path } ∷ history

  noted-Confined :
      (operation : Operation) (path : String) (history : List Access)
      → is_under root path ≡ true
      → (deletes operation ≡ true → allow_delete ≡ true)
      → Holds history
      → Holds (noted operation path history)
  unfolding Confined
  noted-Confined operation path history inside allowed h = ((inside, allowed), h)

  perform-Confined :
      {A : Type 0} (operation : Operation) (path : String) (e : Error)
      (rest : Action (List Access) A) (history : List Access)
      → Holds (noted operation path history)
      → Holds (rest (noted operation path history)).1
      → Holds ((perform disk operation path e >> rest) history).1
  perform-Confined operation path e rest history h k =
      require_keeps Holds (disk.does history operation path) e rest (noted operation path history) h
        (λ _. k)

  pub exists-Confined : (path : String) → Kept Holds (exists disk root path)
  unfolding exists
  exists-Confined path history h =
      resolve-Confined path (λ target. ask disk disk.exists target) history h
        (λ target inside. noted-Confined look target history inside (λ e. cc) h)

  making-keeps : (parents : Bool) → deletes (making disk root parents) ≡ true → allow_delete ≡ true
  making-keeps true e = cc
  making-keeps false e = cc

  pub mkdir-Confined : (path : String) (parents : Bool) → Kept Holds (mkdir disk root path parents)
  unfolding mkdir
  mkdir-Confined path parents history h = resolve-Confined path _ history h (λ target inside.
      let making = making disk root parents in
      let next = noted-Confined making target history inside (making-keeps parents) h in
      perform-Confined making target (os_error "mkdir") (pure target) history next next)

  pub read_text-Confined : (path : String) → Kept Holds (read_text disk root path)
  unfolding read_text
  read_text-Confined path history h = resolve-Confined path _ history h (λ target inside.
      let looked = noted-Confined look target history inside (λ e. cc) h in
      require_keeps Holds (disk.is_file history target) _ (read_file disk root path target)
        (noted look target history) looked
        (λ _.
          last_some_keeps Holds _ _ (noted read target (noted look target history))
            (noted-Confined read target _ inside (λ e. cc) looked)))

  pub write_text-Confined :
      (path : String) (overwrite : Bool) → Kept Holds (write_text disk root path overwrite)
  unfolding write_text
  write_text-Confined path overwrite history h = resolve-Confined path _ history h (λ target inside.
      let looked = noted-Confined look target history inside (λ e. cc) h in
      let made = noted-Confined make_parent target _ inside (λ e. cc) looked in
      let wrote = noted-Confined write target _ inside (λ e. cc) made in
      require_keeps Holds (not (disk.exists history target && not overwrite)) _ _
        (noted look target history) looked
        (λ _.
          perform-Confined make_parent target _ _ (noted look target history) made
            (perform-Confined write target _ (pure target) _ wrote wrote)))

  pub list-Confined :
      (path : String) (recursive : Bool) → Kept Holds (list_directory disk root path recursive)
  unfolding list_directory
  list-Confined path recursive history h = resolve-Confined path _ history h (λ target inside.
      let looked = noted-Confined look target history inside (λ e. cc) h in
      require_keeps Holds (disk.is_directory history target) _ _ (noted look target history) looked
        (λ _. noted-Confined list target _ inside (λ e. cc) looked))

  -- What `copy` and `move` do before they transfer.
  abbrev prepared : String → String → List Access → List Access
  prepared source target history = noted make_parent target (noted look source history)

  transfer-Confined :
      (from to : Operation) (source target : String) (e : Error) (reply : String)
      → deletes from ≡ false
      → deletes to ≡ false
      → is_under root source ≡ true
      → is_under root target ≡ true
      → Kept Holds (transfer disk root from to source target e >> pure reply)
  transfer-Confined from to source target e reply keep keep2 inside inside2 history h =
      let first = noted-Confined from source history inside (λ d. cc) h in
      let second = noted-Confined to target _ inside2 (λ d. cc) first in
      require_keeps Holds _ e (pure reply) (noted to target (noted from source history)) second
        (λ _. second)

  pub copy-Confined : (source destination : String) → Kept Holds (copy disk root source destination)
  unfolding copy
  copy-Confined source destination history h = resolve-Confined source _ history h (λ from inside.
      resolve-Confined destination _ history h (λ to inside2.
        let looked = noted-Confined look from history inside (λ e. cc) h in
        let made = noted-Confined make_parent to _ inside2 (λ e. cc) looked in
        let again = noted-Confined look from _ inside (λ e. cc) made in
        require_keeps Holds (disk.exists history from) _ _ (noted look from history) looked (λ _.
          perform-Confined make_parent to _ _ (noted look from history) made (
            by_kind (disk.is_directory (prepared from to history) from) from to inside inside2
              (noted look from (prepared from to history)) again))))
    where
      by_kind :
          (is_directory : Bool) (from to : String)
          → is_under root from ≡ true
          → is_under root to ≡ true
          → Kept Holds (
              transfer disk root
                (copied_from disk root is_directory)
                (copied_to disk root is_directory)
                from
                to
                (not_done disk root "could not copy " source destination)
              >> pure to)
      by_kind true from to inside inside2 =
          transfer-Confined copy_tree_from copy_tree_to from to _ to refl refl inside inside2
      by_kind false from to inside inside2 =
          transfer-Confined copy_file_from copy_file_to from to _ to refl refl inside inside2

  pub move-Confined : (source destination : String) → Kept Holds (move disk root source destination)
  unfolding move
  move-Confined source destination history h = resolve-Confined source _ history h (λ from inside.
      resolve-Confined destination _ history h (λ to inside2.
        let looked = noted-Confined look from history inside (λ e. cc) h in
        let made = noted-Confined make_parent to _ inside2 (λ e. cc) looked in
        require_keeps Holds (disk.exists history from) _ _ (noted look from history) looked (λ _.
          perform-Confined make_parent to _ _ (noted look from history) made (
            transfer-Confined move_from move_to from to _ (disk.moved from to) refl refl inside
              inside2 (prepared from to history) made))))

  pub delete-Confined :
      (path : String) (recursive : Bool) → Kept Holds (delete disk root allow_delete path recursive)
  unfolding delete
  delete-Confined path recursive history h =
      require_keeps Holds allow_delete _ _ history h (λ allowed.
        resolve-Confined path _ history h (λ target inside.
          let looked = noted-Confined look target history inside (λ e. cc) h in
          let again = noted-Confined look target _ inside (λ e. cc) looked in
          require_keeps Holds (disk.exists history target) _ _ (noted look target history) looked
            (λ _. last_keeps Holds _ _ _ (
              noted-Confined
                (deletion disk root (disk.is_directory (noted look target history) target)
                  recursive)
                target _ inside (λ _. allowed) again))))
