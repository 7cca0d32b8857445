-- ===== src/Storage/Artifacts.antt =====
-- ArtifactStore of src/harness/storage/artifact_store.py. The files under the workspace are a
-- parameter: the checksum and the size of the file at a path, if there is one.
use mathlib.Core.List.{◌∷◌}
use md_harness.Prelude.{
  ltb, if◌then◌else◌, ◌==◌, contains, sql_eq, ℕ, ◌+◌, String, Bool, false, ◌&&◌, ◌||◌, Option, none,
  some, List, [], ◌++◌, nat_eq, string_eq,
}
use md_harness.Effects.{
  value_error, integrity_error, Result, return, raise, Action, pure, lift, gets, ◌>>=◌, ◌>>◌,
  require,
}
use md_harness.Sql.{fetchone, update}
use md_harness.Schema.{ArtifactRow, Db}
use md_harness.Text.{parts, is_absolute, as_posix}
use md_harness.Storage.Dependencies.{task_exists}
use md_harness.Storage.Checkpoints.{or_else}

unfoldable pub normalize : String → Result String
unfolding parts is_absolute as_posix
normalize path =
    let segments = parts path in
    let normalized = as_posix segments in
    if is_absolute path || contains segments ".."
    then raise (value_error "artifact path must be relative to the workspace")
    else if normalized == "" || normalized == "."
    then raise (value_error "artifact path must not be empty")
    else return normalized

-- `if checksum is None and self.workspace is not None: …`
abbrev pub measured :
    (String → Option (String × ℕ)) → String → Option String → Option ℕ → Option String × Option ℕ
measured file_at path (some checksum) size_bytes = (some checksum, size_bytes)
measured file_at path none size_bytes = elim (file_at path) [
  | none ↦ (none, size_bytes)
  | some (checksum, size) ↦ (some checksum, some size)
]

-- The unique index on (task_id, path, checksum), in which a NULL is no other's equal.
abbrev pub same_artifact : ℕ → String → Option String → ArtifactRow → Bool
same_artifact task_id path none a = false
same_artifact task_id path (some checksum) a =
    a.task_id == task_id && a.path == path && sql_eq a.checksum checksum

unfoldable pub next_artifact_id : List ArtifactRow → ℕ
next_artifact_id [] = 1
next_artifact_id (a ∷ rows) =
    let rest = next_artifact_id rows in if ltb a.id rest then rest else a.id + 1

abbrev pub write_artifact :
    ℕ → String → Option String → Option String → Option ℕ → Option ArtifactRow → Action Db ℕ
write_artifact task_id path kind checksum size none db =
    let id = next_artifact_id db.artifacts in
    (
      return id,
      record db {
        artifacts =
            db.artifacts
            ++ record {
              id = id;
              task_id = task_id;
              path = path;
              artifact_type = kind;
              checksum = checksum;
              size_bytes = size;
            }
              ∷ [];
      },
    )
write_artifact task_id path kind checksum size (some old) db = (
  return old.id,
  record db {
    artifacts =
        update (same_artifact task_id path checksum)
          (λ a. record a {
            artifact_type = or_else kind a.artifact_type;
            size_bytes = or_else size a.size_bytes;
          })
          db.artifacts;
  },
)

-- The sizes of the model are not negative, so the check of the sign is not needed.
unfoldable pub register :
    (String → Option (String × ℕ))
    → ℕ
    → String
    → Option String
    → Option String
    → Option ℕ
    → Action Db ℕ
unfolding normalize next_artifact_id
register file_at task_id path artifact_type checksum size_bytes = do
  normalized ← lift (normalize path)
  known ← gets (task_exists task_id)
  require known (integrity_error "task_artifacts")
  let (sum, size) = measured file_at normalized checksum size_bytes in
      do
        row ← gets (λ db. fetchone (same_artifact task_id normalized sum) db.artifacts)
        write_artifact task_id normalized artifact_type sum size row

-- `for path in artifacts: register(task_id, path, "execution-artifact")`
unfoldable pub register_all :
    (String → Option (String × ℕ)) → ℕ → List String → Action Db (Unit {0})
unfolding register
register_all file_at task_id [] = pure tt
register_all file_at task_id (path ∷ rest) = do
  register file_at task_id path (some "execution-artifact") none none
  register_all file_at task_id rest
