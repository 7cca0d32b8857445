-- ===== src/Storage/Dependencies/Paths.antt =====
-- What the search is to decide: whether one task depends on another through some rows.
use md_harness.Prelude.{ℕ, ◌≡◌, ◌⊎◌, List, [], ◌∷◌, nat_eq}
use md_harness.Schema.{DependencyRow}

-- A row says that `a` depends on `b`.
abbrev pub Edge : List DependencyRow → ℕ → ℕ → Type 0
Edge [] a b = ⊥
Edge (d ∷ rows) a b = (d.task_id ≡ a) × (d.depends_on_task_id ≡ b) ⊎ Edge rows a b

-- One or more rows in a chain.
pub data DependsOn (rows : List DependencyRow) (a : ℕ) : ℕ → Type 0 where
  direct : {b : ℕ} → Edge rows a b → DependsOn rows a b
  through : {b c : ℕ} → DependsOn rows a b → Edge rows b c → DependsOn rows a c

module _ (rows : List DependencyRow) where
  pub prepend : {a b c : ℕ} → Edge rows a b → DependsOn rows b c → DependsOn rows a c
  prepend e (direct f) = through (direct e) f
  prepend e (through p f) = through (prepend e p) f

  pub join : {a b c : ℕ} → DependsOn rows a b → DependsOn rows b c → DependsOn rows a c
  join p (direct f) = through p f
  join p (through q f) = through (join p q) f

-- No task depends on itself.
abbrev pub IsAcyclic : List DependencyRow → Type 0
IsAcyclic rows = (a : ℕ) → ¬ DependsOn rows a a
