-- ===== src/Storage/Dependencies.antt =====
-- The dependency graph of src/harness/storage/task_store.py: `add_dependency` and its search
-- `_depends_on`, which shares one mutable set of visited tasks between its recursive calls.
pub mod Search
pub mod Paths
pub mod Ends
pub mod Acyclic
use md_harness.Prelude.{
  if◌then◌else◌, length, any, ◌==◌, contains, ℕ, zero, suc, String, Bool, true, false, not, ◌&&◌,
  Option, none, some, List, [], ◌∷◌, ◌++◌, nat_eq, string_eq,
}
use md_harness.Effects.{value_error, integrity_error, Action, gets, ◌>>=◌, ◌>>◌, modify, require}
use md_harness.Schema.{DependencyRow, Db}

abbrev pub depends_from : ℕ → DependencyRow → Bool
depends_from task_id d = d.task_id == task_id

-- SELECT depends_on_task_id FROM task_dependencies WHERE task_id = ?
unfoldable pub targets : ℕ → List DependencyRow → List ℕ
targets task_id [] = []
targets task_id (d ∷ rows) =
    let rest = targets task_id rows in
    if depends_from task_id d then d.depends_on_task_id ∷ rest else rest

-- What a search returns, and the set of visited tasks that it leaves. `none`: the fuel ran out.
abbrev pub Found : Type 0
Found = Option (Bool × List ℕ)

-- One round of the loop that is no hit: the recursive call, then the rest of the loop if it found
-- nothing.
abbrev pub then_scan : Found → (List ℕ → Found) → Found
then_scan none rest = none
then_scan (some (true, visited)) rest = some (true, visited)
then_scan (some (false, visited)) rest = rest visited

-- The `for` loop of `_depends_on` over the rows that are left; `search` is the recursive call.
unfoldable pub scan : (ℕ → List ℕ → Found) → ℕ → List ℕ → List ℕ → Found
scan search' target_id [] visited = some (false, visited)
scan search' target_id (dependency_id ∷ rest) visited =
    if dependency_id == target_id
    then some (true, visited)
    else then_scan (search' dependency_id visited) (scan search' target_id rest)

unfoldable pub depends_on : ℕ → List DependencyRow → ℕ → ℕ → List ℕ → Found
unfolding targets scan
depends_on zero rows target_id task_id visited = none
depends_on (suc fuel) rows target_id task_id visited =
    if contains visited task_id
    then some (false, visited)
    else scan (depends_on fuel rows target_id) target_id (targets task_id rows) (task_id ∷ visited)

-- Each call below another one visits a task that has rows of its own, so this is enough.
abbrev pub enough : List DependencyRow → ℕ
enough rows = suc (length rows)

abbrev pub reaches : Found → Bool
reaches none = true
reaches (some (found, visited)) = found

-- `self._depends_on(depends_on_task_id, task_id)`
abbrev pub closes_cycle : List DependencyRow → ℕ → ℕ → Bool
closes_cycle rows task_id depends_on_task_id =
    reaches (depends_on (enough rows) rows task_id depends_on_task_id [])

abbrev pub task_exists : ℕ → Db → Bool
task_exists i db = any (λ t. t.id == i) db.tasks

-- The primary key and the foreign keys of `task_dependencies`.
abbrev pub insertable : ℕ → ℕ → Db → Bool
insertable task_id depends_on_task_id db =
    task_exists task_id db
    && task_exists depends_on_task_id db
    && not (
        any (λ d. d.task_id == task_id && d.depends_on_task_id == depends_on_task_id)
          db.dependencies)

unfoldable pub add_dependency : ℕ → ℕ → String → Action Db (Unit {0})
unfolding depends_on
add_dependency task_id depends_on_task_id dependency_type = do
  require (not (task_id == depends_on_task_id)) (value_error "a task cannot depend on itself")
  rows ← gets (λ db. db.dependencies)
  require (not (closes_cycle rows task_id depends_on_task_id))
      (value_error "dependency cycle detected")
  ok ← gets (insertable task_id depends_on_task_id)
  require ok (integrity_error "task_dependencies")
  modify λ db. record db {
    dependencies =
        db.dependencies
        ++ record {
          task_id = task_id;
          depends_on_task_id = depends_on_task_id;
          dependency_type = dependency_type;
        }
          ∷ [];
  }
