-- ===== src/Engine/Planner/Runs.antt =====
-- Steps in an order in which they can run, and the steps of a declared change.
use md_harness.Engine.Planner.Criteria.{validate_test, validate_file_change}
use md_harness.Engine.Planner.Returned.{bound_given, given_injective}
use md_harness.Engine.Planner.Answers.{
  FileChange, TestRequest, ChangeRequest, PlanContext, given, unless,
}
use md_harness.Prelude.{
  tests, non_empty, All, ◌==◌, contains, beq_refl, ℕ, ◌+◌, String, ◌≡◌, refl, sym, Bool, true,
  false, ◌||◌, List, [], ◌∷◌, ◌++◌, nat_eq, string_eq,
}
use md_harness.Plan.{PlanStep}
use md_harness.Engine.Planner.Steps.{test_step, named_step, ids_of}
use md_harness.Engine.Planner.Declared.{
  change_steps, file_steps, diff_step, request_steps, tests_behind, declared_steps,
}

-- The steps behind those with the ids `seen`: each one depends on ids that were seen before it.
abbrev pub Ordered : List String → List PlanStep → Type 0
Ordered seen [] = Unit {0}
Ordered seen (step ∷ steps) =
    All (λ id. contains seen id ≡ true) step.depends_on × Ordered (step.id ∷ seen) steps

-- The ids behind the steps.
abbrev after : List String → List PlanStep → List String
after seen [] = seen
after seen (step ∷ steps) = after (step.id ∷ seen) steps

pub Ordered-append :
    (seen : List String) (xs ys : List PlanStep)
    → Ordered seen xs
    → Ordered (after seen xs) ys
    → Ordered seen (xs ++ ys)
Ordered-append seen [] ys h k = k
Ordered-append seen (x ∷ xs) ys h k = (h.0, Ordered-append (x.id ∷ seen) xs ys h.1 k)

after-append :
    (seen : List String) (xs ys : List PlanStep) → after seen (xs ++ ys) ≡ after (after seen xs) ys
after-append seen [] ys = refl
after-append seen (x ∷ xs) ys = after-append (x.id ∷ seen) xs ys

pub or_true : (a b : Bool) → b ≡ true → (a || b) ≡ true
or_true true b h = refl
or_true false b h = h

after_keeps :
    (seen : List String) (xs : List PlanStep) (id : String)
    → contains seen id ≡ true
    → contains (after seen xs) id ≡ true
after_keeps seen [] id h = h
after_keeps seen (x ∷ xs) id h =
    after_keeps (x.id ∷ seen) xs id (or_true (x.id == id) (contains seen id) h)

self_seen : (id : String) (seen : List String) → contains (id ∷ seen) id ≡ true
self_seen id seen = rw (beq_refl id) refl

change-Ordered :
    (change : FileChange) (index : ℕ) (previous : String) (ids : List ℕ) (seen : List String)
    → contains seen previous ≡ true
    → Ordered seen (change_steps change index previous ids)
      × (contains (after seen (change_steps change index previous ids)) (named_step "verify-" index)
          ≡ true)
unfolding change_steps
change-Ordered change index previous ids seen h =
    let read = named_step "read-" index in
    let write = named_step "write-" index in
    let verify = named_step "verify-" index in
    (
      ((h, tt), ((self_seen read seen, tt), ((self_seen write (read ∷ seen), tt), tt))),
      self_seen verify (write ∷ read ∷ seen),
    )

file-Ordered :
    (ids : List ℕ) (index : ℕ) (previous : String) (changes : List FileChange) (seen : List String)
    {r : List PlanStep × String}
    → contains seen previous ≡ true
    → file_steps ids index previous changes ≡ given r
    → Ordered seen r.0 × (contains (after seen r.0) r.1 ≡ true)
unfolding file_steps
file-Ordered ids index previous [] seen {r} h e =
    rw (sym (given_injective ([], previous) r e)) (tt, h)
file-Ordered ids index previous (change ∷ rest) seen {r} h e =
    let (u, _, e1) = bound_given (validate_file_change change) _ e in
    let (later, e2, e3) =
      bound_given (file_steps ids (index + 1) (named_step "verify-" index) rest) _ e1 in
    let (first, last) = change-Ordered change index previous ids seen h in
    let steps = change_steps change index previous ids in
    let (behind, end) =
      file-Ordered ids (index + 1) (named_step "verify-" index) rest (after seen steps) last e2 in
    let same = given_injective (steps ++ later.0, later.1) r e3 in
    rw (sym same)
      (Ordered-append seen steps later.0 first behind, rw (after-append seen steps later.0) end)

request-Ordered :
    (tools : List String) (ids : List ℕ) (index : ℕ) (previous : String)
    (requests : List TestRequest) (seen : List String) {r : List PlanStep}
    → contains seen previous ≡ true
    → request_steps tools ids index previous requests ≡ given r
    → Ordered seen r
unfolding request_steps test_step
request-Ordered tools ids index previous [] seen {r} h e = rw (sym (given_injective [] r e)) tt
request-Ordered tools ids index previous (asked ∷ rest) seen {r} h e =
    let (u, _, e1) =
      bound_given (validate_test tools asked.command asked.timeout_seconds asked.working_directory)
        _ e in
    let (later, e2, e3) =
      bound_given (request_steps tools ids (index + 1) (named_step "test-" index) rest) _ e1 in
    let test = named_step "test-" index in
    rw (sym (given_injective _ r e3)) (
      (h, tt),
      request-Ordered tools ids (index + 1) test rest (test ∷ seen) (self_seen test seen) e2,
    )

tests-Ordered :
    (git : Bool) (tools : List String) (ids : List ℕ) (previous : String)
    (requests : List TestRequest) (seen : List String) {r : List PlanStep}
    → contains seen previous ≡ true
    → tests_behind git tools ids previous requests ≡ given r
    → Ordered seen r
tests-Ordered true tools ids previous requests seen {r} h e =
    let (tests, e1, e2) = bound_given (request_steps tools ids 1 "git-diff" requests) _ e in
    rw (sym (given_injective (diff_step previous ∷ tests) r e2)) (
      (h, tt),
      request-Ordered tools ids 1 "git-diff" requests ("git-diff" ∷ seen)
          (self_seen "git-diff" seen) e1,
    )
tests-Ordered false tools ids previous requests seen {r} h e =
    request-Ordered tools ids 1 previous requests seen h e

pub declared-Ordered :
    (context : PlanContext) (change : ChangeRequest) {r : List PlanStep}
    → declared_steps context change ≡ given r
    → Ordered [] r
unfolding declared_steps
declared-Ordered context change {r} e =
    let (u, _, e1) = bound_given (unless (contains context.available_tools "filesystem") _) _ e in
    let (files, e2, e3) =
      bound_given (file_steps context.acceptance_criteria 1 "inspect" change.files) _ e1 in
    let (tests, e4, e5) =
      bound_given
        (tests_behind (contains context.available_tools "git") context.available_tools
          (ids_of context.test_criteria) files.1 change.tests)
        _ e3 in
    let (w, _, e6) =
      bound_given (unless (non_empty change.files || non_empty change.tests) _) _ e5 in
    let (first, last) =
      file-Ordered context.acceptance_criteria 1 "inspect" change.files ("inspect" ∷ [])
        (self_seen "inspect" []) e2 in
    rw (sym (given_injective _ r e6)) (
      tt,
      Ordered-append ("inspect" ∷ []) files.0 tests first (
          tests-Ordered (contains context.available_tools "git") context.available_tools
            (ids_of context.test_criteria) files.1 change.tests (after ("inspect" ∷ []) files.0)
            last e4),
    )
