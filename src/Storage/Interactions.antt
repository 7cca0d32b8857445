-- ===== src/Storage/Interactions.antt =====
-- HumanInteractionStore of src/harness/storage/human_interaction_store.py. `list_open` only reads.
pub mod Schemas
pub mod Keywords
pub mod Responses
pub mod Conforms
pub mod Decides
use md_harness.Prelude.{
  is_some, ◌==◌, ℕ, String, Bool, not, ◌&&◌, Option, none, [], ◌∷◌, ◌++◌, nat_eq, string_eq,
}
use md_harness.Effects.{
  Error, integrity_error, Action, pure, gets, ◌>>=◌, ◌>>◌, modify, require, require_some,
}
use md_harness.Json.{Json, Members}
use md_harness.Sql.{fetchone}
use md_harness.Schema.{NextAction, InteractionStatus, InteractionKind, InteractionRow, Db}
use md_harness.Storage.Dependencies.{task_exists}

-- The keys of a request that are stored, as `_validate_interaction_request` leaves them.
pub record Request : Type 0 where
  pub kind : InteractionKind
  pub prompt : String
  pub response_schema : Json
  pub request_data : Members
  pub resume_action : NextAction

abbrev pub has_interaction_id : String → InteractionRow → Bool
has_interaction_id id i = i.interaction_id == id

abbrev pub of_wait : ℕ → String → InteractionRow → Bool
of_wait task_id wait_token i = i.task_id == task_id && i.wait_token == wait_token

unfoldable pub get : String → Db → Option InteractionRow
get interaction_id db = fetchone (has_interaction_id interaction_id) db.interactions

unfoldable pub for_wait : ℕ → String → Db → Option InteractionRow
for_wait task_id wait_token db = fetchone (of_wait task_id wait_token) db.interactions

abbrev pub requested : ℕ → String → Request → Option ℕ → Option String → String → InteractionRow
requested task_id wait_token r plan_version plan_fingerprint id = record {
  interaction_id = id;
  task_id = task_id;
  wait_token = wait_token;
  kind = r.kind;
  prompt = r.prompt;
  response_schema = r.response_schema;
  request_data = r.request_data;
  response_data = none;
  resume_action = r.resume_action;
  plan_version = plan_version;
  plan_fingerprint = plan_fingerprint;
  status = InteractionStatus.pending;
  decided_by = none;
  decided_at = none;
}

abbrev pub broken : Error
broken = integrity_error "task_human_interactions"

-- The INSERT, with its foreign key, its NOT NULL column and its two keys; the UUID is `id`.
unfoldable pub create :
    ℕ → Option String → Request → Option ℕ → Option String → String → Action Db String
unfolding get for_wait
create task_id wait_token r plan_version plan_fingerprint id = do
  known ← gets (task_exists task_id)
  require known broken
  token ← require_some wait_token broken
  taken ← gets (get id)
  clash ← gets (for_wait task_id token)
  require (not (is_some taken) && not (is_some clash)) broken
  modify λ db. record db {
    interactions =
        db.interactions ++ requested task_id token r plan_version plan_fingerprint id ∷ [];
  }
  pure id
