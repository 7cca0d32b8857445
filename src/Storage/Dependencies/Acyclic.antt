-- ===== src/Storage/Dependencies/Acyclic.antt =====
-- `add_dependency` of src/harness/storage/task_store.py and the cycles of the graph.
use md_harness.Prelude.{
  Bool-cases, ◌==◌, nat_beq_iff, ℕ, String, ◌≡◌, refl, sym, ◌∙◌, ◌≢◌, ◌↔◌, ◌⊎◌, inl, inr, Bool,
  true, false, some, List, [], ◌∷◌, ◌++◌, arith, nat_eq,
}
use md_harness.Effects.{value_error, integrity_error, Result, raise}
use md_harness.Schema.{DependencyRow, Db}
use md_harness.Storage.Dependencies.Search.{depends_on-Sound, miss-DependsOn}
use md_harness.Storage.Dependencies.Ends.{depends_on-enough}
use md_harness.Storage.Dependencies.{
  depends_on, enough, reaches, closes_cycle, insertable, add_dependency,
}
use md_harness.Storage.Dependencies.Paths.{Edge, DependsOn, direct, through, join, IsAcyclic}

module _ (rows : List DependencyRow) (target a : ℕ) where
  answer-DependsOn :
      (found : Bool) (v : List ℕ)
      → depends_on (enough rows) rows target a [] ≡ some (found, v)
      → (found ≡ true) ↔ DependsOn rows a target
  answer-DependsOn true v e = (λ _. depends_on-Sound rows target (enough rows) a [] v e, λ _. refl)
  answer-DependsOn false v e =
      (λ h. cc, λ p. absurd (miss-DependsOn rows target (enough rows) a v e p))

-- With the fuel that `add_dependency` gives, the search ends with an answer, and that says whether
-- the task `a` depends on the target through any number of rows.
pub search_decides :
    (rows : List DependencyRow) (target a : ℕ)
    → (found : Bool) × (visited : List ℕ) × (depends_on (enough rows) rows target a []
        ≡ some (found, visited))
      × ((found ≡ true) ↔ DependsOn rows a target)
search_decides rows target a =
    let ((found, v), e) = depends_on-enough rows target a in
    (found, v, e, answer-DependsOn rows target a found v e)

-- The answer under the reading of `add_dependency`.
reaches-DependsOn :
    (rows : List DependencyRow) (target a : ℕ)
    → (reaches (depends_on (enough rows) rows target a []) ≡ true) ↔ DependsOn rows a target
reaches-DependsOn rows target a =
    let (found, v, e, decides) = search_decides rows target a in rw e decides

Edge-append :
    (rows : List DependencyRow) (d : DependencyRow) {x y : ℕ}
    → Edge (rows ++ d ∷ []) x y
    → Edge rows x y ⊎ (d.task_id ≡ x) × (d.depends_on_task_id ≡ y)
Edge-append [] d (inl e) = inr e
Edge-append [] d (inr e) = elim e [ ]
Edge-append (r ∷ rows) d (inl e) = inl (inl e)
Edge-append (r ∷ rows) d (inr e) = elim (Edge-append rows d e) [
  | inl old ↦ inl (inr old)
  | inr new ↦ inr new
]

module _ (rows : List DependencyRow) (d : DependencyRow) where
  -- `x` is `y`, or depends on it.
  abbrev OrEqual : ℕ → ℕ → Type 0
  OrEqual x y = (x ≡ y) ⊎ DependsOn rows x y

  -- A chain that is new uses the new row: it goes into its source and out of its target.
  append-DependsOn :
      {x y : ℕ}
      → DependsOn (rows ++ d ∷ []) x y
      → DependsOn rows x y ⊎ OrEqual x d.task_id × OrEqual d.depends_on_task_id y
  append-DependsOn {x} (direct e) = elim (Edge-append rows d e) [
    | inl old ↦ inl (direct old)
    | inr (from, to) ↦ inr (inl (sym from), inl to)
  ]
  append-DependsOn {x} (through p e) = extend (append-DependsOn p) (Edge-append rows d e)
    where
      extend :
          {b c : ℕ}
          → (DependsOn rows x b ⊎ OrEqual x d.task_id × OrEqual d.depends_on_task_id b)
          → (Edge rows b c ⊎ (d.task_id ≡ b) × (d.depends_on_task_id ≡ c))
          → DependsOn rows x c ⊎ OrEqual x d.task_id × OrEqual d.depends_on_task_id c
      extend (inl p) (inl e) = inl (through p e)
      extend (inl p) (inr (from, to)) = inr (inr (rw (← from) at p), inl to)
      extend (inr (before, inl same)) (inl e) = inr (before, inr (direct (rw (← same) at e)))
      extend (inr (before, inr p)) (inl e) = inr (before, inr (through p e))
      extend (inr (before, after)) (inr (from, to)) = inr (before, inl to)

  pub append-IsAcyclic :
      IsAcyclic rows
      → d.task_id ≢ d.depends_on_task_id
      → ¬ DependsOn rows d.depends_on_task_id d.task_id
      → IsAcyclic (rows ++ d ∷ [])
  append-IsAcyclic acyclic apart no_way x p = closes (append-DependsOn p)
    where
      closes : (DependsOn rows x x ⊎ OrEqual x d.task_id × OrEqual d.depends_on_task_id x) → ⊥
      closes (inl q) = acyclic x q
      closes (inr (inl e, inl f)) = apart (sym (f ∙ e))
      closes (inr (inl e, inr q)) = no_way (rw e at q)
      closes (inr (inr p', inl f)) = no_way (rw (← f) at p')
      closes (inr (inr p', inr q)) = no_way (join rows q p')

-- A graph without cycles has none after `add_dependency`, whatever it answers.
pub add_dependency-IsAcyclic :
    (a b : ℕ) (kind : String) (db : Db)
    → IsAcyclic db.dependencies
    → IsAcyclic (add_dependency a b kind db).1.dependencies
unfolding add_dependency
add_dependency-IsAcyclic a b kind db acyclic = elim (Bool-cases (a == b)) [
  | inl same ↦ rw same acyclic
  | inr apart ↦ elim (Bool-cases (closes_cycle db.dependencies a b)) [
    | inl cycle ↦ rw (apart, cycle) acyclic
    | inr free ↦ elim (Bool-cases (insertable a b db)) [
      | inl ok ↦
          rw (apart, free, ok)
            (append-IsAcyclic db.dependencies _ acyclic (λ e. cc (apart, (nat_beq_iff a b).1 e))
              (λ p. cc (free, (reaches-DependsOn db.dependencies a b).1 p)))
      | inr refused ↦ rw (apart, free, refused) acyclic
    ]
  ]
]

text_apart :
    ◌≢◌ {A = Result (Unit {0})}
      (raise (integrity_error "task_dependencies"))
      (raise (value_error "dependency cycle detected"))
text_apart e = cc

-- Between two different tasks, `add_dependency` reports a cycle exactly if the task already stands
-- among the dependencies of the other.
pub add_dependency-cycle :
    (a b : ℕ) (kind : String) (db : Db)
    → a ≢ b
    → ((add_dependency a b kind db).0 ≡ raise (value_error "dependency cycle detected"))
      ↔ DependsOn db.dependencies b a
unfolding add_dependency
add_dependency-cycle a b kind db apart =
    let other : (a == b) ≡ false = ground (arith, nat_beq_iff a b) in
    let decides = reaches-DependsOn db.dependencies a b in
    elim (Bool-cases (closes_cycle db.dependencies a b)) [
      | inl cycle ↦ rw (other, cycle) (λ _. decides.0 cycle, λ _. refl)
      | inr free ↦ elim (Bool-cases (insertable a b db)) [
        | inl ok ↦ rw (other, free, ok) (λ e. cc, λ p. cc (free, decides.1 p))
        | inr refused ↦
            rw (other, free, refused) (λ e. absurd (text_apart e), λ p. cc (free, decides.1 p))
      ]
    ]
