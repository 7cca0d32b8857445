-- ===== src/Storage/Tasks/Keys.antt =====
-- The primary key of `tasks`, through the methods of src/harness/storage/task_store.py.
use md_harness.Prelude.{
  ℕ, ◌+◌, String, ◌≡◌, refl, Bool, true, false, not, Option, none, some, List, [], ◌∷◌, nat_eq,
  string_eq,
}
use md_harness.Effects.{
  Error, Result, return, raise, Action, rollback_to, ◌>>=◌, ◌>>◌, require, require_some,
}
use md_harness.Sql.Laws.{Unique, update-Unique}
use md_harness.Schema.{
  TaskStatus, Clock, TaskRow, Db, task_status_eq, approval_status_eq, attempt_status_eq,
}
use md_harness.Storage.Tasks.{
  has_id, can_move, lacks_approval, update_tasks, get, not_found, clear_claim, release_where,
  release_claim, set_cancelled, set_status, transition, set_claim, claim_where, claim_conflict,
  claim, renew_where, renew_claim, cancel, set_approval,
}
use md_harness.Storage.Tasks.Fencing.{
  Call, transition_call, claim_call, renew_call, release_call, cancel_call, decide_call, call,
  calls,
}

abbrev pub UniqueIds : Db → Type 0
UniqueIds db = Unique (λ (t : TaskRow). t.id) db.tasks

module _ (db : Db) (unique : UniqueIds db) where
  update-UniqueIds :
      (p : TaskRow → Bool) (f : TaskRow → TaskRow)
      → ((x : TaskRow) → (f x).id ≡ x.id)
      → UniqueIds (update_tasks p f db).1
  update-UniqueIds p f same = update-Unique (λ t. t.id) p f same db.tasks unique

  require-UniqueIds :
      {A : Type 0} (b : Bool) (e : Error) (k : Action Db A)
      → UniqueIds (k db).1
      → UniqueIds ((require b e >> k) db).1
  require-UniqueIds true e k rest = rest
  require-UniqueIds false e k rest = unique

  require_some-UniqueIds :
      {A B : Type 0} (o : Option A) (e : Error) (k : A → Action Db B)
      → ((a : A) → UniqueIds (k a db).1)
      → UniqueIds ((require_some o e >>= k) db).1
  require_some-UniqueIds none e k rest = unique
  require_some-UniqueIds (some a) e k rest = rest a

  rollback-UniqueIds :
      {A : Type 0} (r : Result A × Db) → UniqueIds r.1 → UniqueIds (rollback_to db r).1
  rollback-UniqueIds (return a, after) h = h
  rollback-UniqueIds (raise e, after) h = unique

  pub claim-UniqueIds :
      (c : Clock) (i : ℕ) (token : String) (lease : ℕ) → UniqueIds (claim c i token lease db).1
  unfolding claim
  claim-UniqueIds c i token lease =
      require-UniqueIds (not (claim_conflict c i token db)) _ _
        (update-UniqueIds (claim_where c i) (set_claim c token (c.now + lease)) (λ x. refl))

  pub call-UniqueIds : (x : Call) → UniqueIds (call x db)
  unfolding call transition renew_claim release_claim cancel set_approval
  call-UniqueIds (transition_call c i status) = rollback-UniqueIds (transition c i status db) (
      require_some-UniqueIds (get i db) not_found _ λ task.
        require-UniqueIds (can_move task status) _ _ (
          require-UniqueIds (not (lacks_approval task status)) _ _
            (update-UniqueIds (has_id i) (set_status c status) (λ x. refl))))
  call-UniqueIds (claim_call c i token lease) =
      rollback-UniqueIds (claim c i token lease db) (claim-UniqueIds c i token lease)
  call-UniqueIds (renew_call c i token lease) =
      rollback-UniqueIds (renew_claim c i token lease db) (
        update-UniqueIds (renew_where c i token)
          (λ t. record t { claim_expires_at = some (c.now + lease) }) (λ x. refl))
  call-UniqueIds (release_call i token) =
      rollback-UniqueIds (release_claim i token db)
        (update-UniqueIds (release_where i token) clear_claim (λ x. refl))
  call-UniqueIds (cancel_call c i reason) = rollback-UniqueIds (cancel c i reason db) (
      require_some-UniqueIds (get i db) not_found _ λ task.
        require-UniqueIds (can_move task TaskStatus.cancelled) _ _
          (update-UniqueIds (has_id i) set_cancelled (λ x. refl)))
  call-UniqueIds (decide_call status i actor reason) =
      rollback-UniqueIds (set_approval status i actor reason db) (
        require_some-UniqueIds (get i db) not_found _ λ task.
          update-UniqueIds (has_id i) (λ t. record t { approval_status = status }) (λ x. refl))

pub calls-UniqueIds : (xs : List Call) (db : Db) → UniqueIds db → UniqueIds (calls xs db)
unfolding calls
calls-UniqueIds [] db unique = unique
calls-UniqueIds (x ∷ xs) db unique = calls-UniqueIds xs (call x db) (call-UniqueIds db unique x)
