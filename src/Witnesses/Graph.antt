-- ===== src/Witnesses/Graph.antt =====
-- The dependency graph 1 → 2 → 3.
use md_harness.Prelude.{ℕ, ◌≡◌, sym, ◌↔◌, inl, inr, Bool, true, some, List, [], ◌∷◌, arith, nat_eq}
use md_harness.Effects.{value_error, raise}
use md_harness.Schema.{DependencyRow, Db}
use md_harness.Samples.{two_tasks}
use md_harness.Storage.Dependencies.{depends_on, enough, add_dependency}
use md_harness.Storage.Dependencies.Paths.{DependsOn, direct, through, IsAcyclic}
use md_harness.Storage.Dependencies.Acyclic.{
  search_decides, add_dependency-IsAcyclic, add_dependency-cycle,
}

abbrev blocks : ℕ → ℕ → DependencyRow
blocks a b = record { task_id = a; depends_on_task_id = b; dependency_type = "blocks" }

abbrev one_row : Db
one_row = record two_tasks { dependencies = blocks 1 2 ∷ [] }

abbrev chain : List DependencyRow
chain = blocks 1 2 ∷ blocks 2 3 ∷ []

search_decides_example :
    (found : Bool) × (visited : List ℕ) × (depends_on (enough chain) chain 3 1 []
      ≡ some (found, visited))
    × ((found ≡ true) ↔ DependsOn chain 1 3)
search_decides_example = search_decides chain 3 1

one_row-DependsOn : {a b : ℕ} → DependsOn one_row.dependencies a b → (a ≡ 1) × (b ≡ 2)
one_row-DependsOn (direct (inl e)) = (sym e.0, sym e.1)
one_row-DependsOn (direct (inr e)) = elim e [ ]
one_row-DependsOn (through p (inl e)) = ((one_row-DependsOn p).0, sym e.1)
one_row-DependsOn (through p (inr e)) = elim e [ ]

one_row-IsAcyclic : IsAcyclic one_row.dependencies
one_row-IsAcyclic a p = omega (arith, (one_row-DependsOn p).0, (one_row-DependsOn p).1)

add_dependency-IsAcyclic_example : IsAcyclic (add_dependency 2 1 "blocks" one_row).1.dependencies
add_dependency-IsAcyclic_example = add_dependency-IsAcyclic 2 1 "blocks" one_row one_row-IsAcyclic

add_dependency-cycle_example :
    ((add_dependency 2 1 "blocks" one_row).0 ≡ raise (value_error "dependency cycle detected"))
    ↔ DependsOn one_row.dependencies 1 2
add_dependency-cycle_example = add_dependency-cycle 2 1 "blocks" one_row (omega arith)
