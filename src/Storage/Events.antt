-- ===== src/Storage/Events.antt =====
-- EventStore.record of src/harness/storage/event_store.py. The payload stays the object that
-- `json.dumps` writes; the id that the method returns is not used.
use md_harness.Prelude.{ℕ, String, Option, none, some, List, [], ◌∷◌, ◌++◌, nat_eq}
use md_harness.Effects.{integrity_error, Action, pure, gets, ◌>>=◌, ◌>>◌, modify, require}
use md_harness.Schema.{Value, text, null, Db}
use md_harness.Storage.Dependencies.{task_exists}

abbrev pub of_option : Option String → Value
of_option none = null
of_option (some s) = text s

unfoldable pub record_event : ℕ → String → List (String × Value) → Action Db (Unit {0})
record_event task_id event_type payload = do
  known ← gets (task_exists task_id)
  require known (integrity_error "task_events")
  modify λ db. record db {
    events =
        db.events ++ record { task_id = task_id; event_type = event_type; payload = payload } ∷ [];
  }

-- One `record` after the other, as for `decision.events`.
unfoldable pub record_events : ℕ → List (String × List (String × Value)) → Action Db (Unit {0})
unfolding record_event
record_events task_id [] = pure tt
record_events task_id ((event_type, payload) ∷ rest) = do
  record_event task_id event_type payload
  record_events task_id rest
