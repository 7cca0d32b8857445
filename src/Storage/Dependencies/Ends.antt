-- ===== src/Storage/Dependencies/Ends.antt =====
-- The search of `_depends_on` ends: the recursion is as deep as there are rows, plus one.
use md_harness.Prelude.{
  if◌then◌else◌, Bool-cases, length, ◌==◌, nat_beq_iff, contains, beq_refl, ℕ, zero, suc, ◌≤◌, ◌<◌,
  ◌≡◌, refl, inl, inr, Bool, true, false, some, List, [], ◌∷◌, arith, nat_eq,
}
use md_harness.Schema.{DependencyRow}
use md_harness.Storage.Dependencies.{depends_from, targets, Found, scan, depends_on}

-- The rows whose task is not visited yet.
abbrev pub unvisited : List ℕ → List DependencyRow → ℕ
unvisited v [] = 0
unvisited v (d ∷ rows) =
    let rest = unvisited v rows in if contains v d.task_id then rest else suc rest

unvisited-le : (v : List ℕ) (rows : List DependencyRow) → unvisited v rows ≤ length rows
unvisited-le v [] = omega arith
unvisited-le v (d ∷ rows) = ground (arith, unvisited-le v rows)

unvisited-cons :
    (a : ℕ) (v : List ℕ) (rows : List DependencyRow) → unvisited (a ∷ v) rows ≤ unvisited v rows
unvisited-cons a v [] = omega arith
unvisited-cons a v (d ∷ rows) = ground (arith, unvisited-cons a v rows)

unvisited-lt :
    (a : ℕ) (v : List ℕ) (rows : List DependencyRow) {t : ℕ} {ts : List ℕ}
    → contains v a ≡ false
    → targets a rows ≡ t ∷ ts
    → unvisited (a ∷ v) rows < unvisited v rows
unfolding targets
unvisited-lt a v [] new h = cc
unvisited-lt a v (d ∷ rows) new h = elim (Bool-cases (depends_from a d)) [
  | inl ours ↦ at_row ((nat_beq_iff _ _).0 ours)
  | inr other ↦ ground (arith, unvisited-lt a v rows new (rw other at h))
]
  where
    at_row : d.task_id ≡ a → unvisited (a ∷ v) (d ∷ rows) < unvisited v (d ∷ rows)
    at_row e = rw (e, new, beq_refl a) (ground (arith, unvisited-cons a v rows))

module _ (rows : List DependencyRow) (target : ℕ) where
  -- A search that ends, and forgets no visited task, as long as few rows are unvisited.
  abbrev Ends : ℕ → (ℕ → List ℕ → Found) → Type 0
  Ends bound search' =
      (d : ℕ) (v : List ℕ)
      → unvisited v rows ≤ bound
      → (r : Bool × List ℕ) × (search' d v ≡ some r) × (unvisited r.1 rows ≤ unvisited v rows)

  scan-Ends :
      (bound : ℕ) (search' : ℕ → List ℕ → Found)
      → Ends bound search'
      → (ds v : List ℕ) → unvisited v rows ≤ bound
      → (r : Bool × List ℕ) × (scan search' target ds v ≡ some r)
        × (unvisited r.1 rows ≤ unvisited v rows)
  unfolding scan
  scan-Ends bound search' ends [] v few = ((false, v), refl, omega arith)
  scan-Ends bound search' ends (d ∷ ds) v few = elim (Bool-cases (d == target)) [
    | inl hit ↦ ((true, v), rw hit, omega arith)
    | inr miss ↦
        let ((found, u), e, less) = ends d v few in
        next miss found u e less (scan-Ends bound search' ends ds u (omega arith))
  ]
    where
      next :
          (d == target) ≡ false
          → (found : Bool) (u : List ℕ) → search' d v ≡ some (found, u)
          → unvisited u rows ≤ unvisited v rows
          → ((r : Bool × List ℕ) × (scan search' target ds u ≡ some r)
              × (unvisited r.1 rows ≤ unvisited u rows))
          → (r : Bool × List ℕ) × (scan search' target (d ∷ ds) v ≡ some r)
            × (unvisited r.1 rows ≤ unvisited v rows)
      next miss true u e less rest = ((true, u), rw (miss, e), less)
      next miss false u e less (r, e', less') = (r, rw (miss, e) e', omega arith)

  abbrev EndsBelow : ℕ → Type 0
  EndsBelow zero = Unit {0}
  EndsBelow (suc k) = Ends k (depends_on (suc k) rows target)

  visit-Ends :
      (fuel : ℕ) (a : ℕ) (v ts : List ℕ)
      → EndsBelow fuel
      → contains v a ≡ false
      → targets a rows ≡ ts
      → unvisited v rows ≤ fuel
      → (r : Bool × List ℕ) × (scan (depends_on fuel rows target) target ts (a ∷ v) ≡ some r)
        × (unvisited r.1 rows ≤ unvisited v rows)
  unfolding scan
  visit-Ends fuel a v [] below new e few = ((false, a ∷ v), refl, unvisited-cons a v rows)
  visit-Ends zero a v (t ∷ ts) below new e few = absurd (omega (arith, unvisited-lt a v rows new e))
  visit-Ends (suc k) a v (t ∷ ts) below new e few =
      let (r, ends, less) =
        scan-Ends k (depends_on (suc k) rows target) below (t ∷ ts) (a ∷ v)
          (omega (arith, unvisited-lt a v rows new e)) in
      (r, ends, omega (arith, unvisited-cons a v rows))

  below-Ends : (fuel : ℕ) → EndsBelow fuel → Ends fuel (depends_on (suc fuel) rows target)
  unfolding depends_on
  below-Ends fuel below a v few = elim (Bool-cases (contains v a)) [
    | inl old ↦ ((false, v), rw old, omega arith)
    | inr new ↦ rw new (visit-Ends fuel a v (targets a rows) below new refl few)
  ]

  depends_on-Ends : (fuel : ℕ) → Ends fuel (depends_on (suc fuel) rows target)
  depends_on-Ends zero = below-Ends zero tt
  depends_on-Ends (suc k) = below-Ends (suc k) (depends_on-Ends k)

  -- The fuel that `add_dependency` gives is enough.
  pub depends_on-enough :
      (a : ℕ) → (r : Bool × List ℕ) × (depends_on (suc (length rows)) rows target a [] ≡ some r)
  depends_on-enough a =
      let (r, e, _) = depends_on-Ends (length rows) a [] (unvisited-le [] rows) in (r, e)
