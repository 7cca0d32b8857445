-- ===== src/Storage/Dependencies/Search.antt =====
-- `_depends_on` ends, and decides `DependsOn`.
use md_harness.Prelude.{
  Bool-cases, All, ◌==◌, nat_beq_iff, contains, beq_refl, ℕ, zero, suc, ◌≡◌, refl, ◌≢◌, inl, inr,
  true, false, none, some, List, [], ◌∷◌, arith, nat_eq,
}
use md_harness.Schema.{DependencyRow}
use md_harness.Storage.Dependencies.{depends_from, targets, Found, then_scan, scan, depends_on}
use md_harness.Storage.Dependencies.Paths.{Edge, DependsOn, direct, through, prepend}

targets-Edge : (a : ℕ) (rows : List DependencyRow) → All (Edge rows a) (targets a rows)
unfolding targets
targets-Edge a [] = tt
targets-Edge a (d ∷ rows) = elim (Bool-cases (depends_from a d)) [
  | inl ours ↦
      rw ours (inl ((nat_beq_iff _ _).0 ours, refl), weaken (targets a rows) (targets-Edge a rows))
  | inr other ↦ rw other (weaken (targets a rows) (targets-Edge a rows))
]
  where
    weaken : (bs : List ℕ) → All (Edge rows a) bs → All (Edge (d ∷ rows) a) bs
    weaken [] h = tt
    weaken (b ∷ bs) h = (inr h.0, weaken bs h.1)

targets-all :
    (P : ℕ → Type 0) (a : ℕ) (rows : List DependencyRow)
    → All P (targets a rows)
    → (b : ℕ) → Edge rows a b
    → P b
unfolding targets
targets-all P a [] h b e = elim e [ ]
targets-all P a (d ∷ rows) h b (inl (from, to)) =
    let here : P d.depends_on_task_id × All P (targets a rows) =
      rw ((nat_beq_iff _ _).1 from) at h in
    rw to at here.0
targets-all P a (d ∷ rows) h b (inr e) = elim (Bool-cases (depends_from a d)) [
  | inl ours ↦
      let more : P d.depends_on_task_id × All P (targets a rows) = rw ours at h in
      targets-all P a rows more.1 b e
  | inr other ↦ targets-all P a rows (rw other at h) b e
]

module _ (rows : List DependencyRow) (target : ℕ) where
  -- A hit is a chain of rows.
  abbrev Sound : (ℕ → List ℕ → Found) → Type 0
  Sound search' = (d : ℕ) (v v' : List ℕ) → search' d v ≡ some (true, v') → DependsOn rows d target

  scan-Sound :
      (search' : ℕ → List ℕ → Found)
      → Sound search'
      → (a : ℕ) (ds v v' : List ℕ) → All (Edge rows a) ds
      → scan search' target ds v ≡ some (true, v')
      → DependsOn rows a target
  unfolding scan
  scan-Sound search' sound a [] v v' es h = cc
  scan-Sound search' sound a (d ∷ ds) v v' es h = elim (Bool-cases (d == target)) [
    | inl hit ↦ direct (rw ((nat_beq_iff d target).0 hit) at es.0)
    | inr miss ↦
        next (search' d v) refl (λ u. scan-Sound search' sound a ds u v' es.1) (rw miss at h)
  ]
    where
      next :
          (r : Found)
          → search' d v ≡ r
          → ((u : List ℕ) → scan search' target ds u ≡ some (true, v') → DependsOn rows a target)
          → then_scan r (scan search' target ds) ≡ some (true, v')
          → DependsOn rows a target
      next none e rest h' = cc
      next (some (true, u)) e rest h' = prepend rows es.0 (sound d v u e)
      next (some (false, u)) e rest h' = rest u h'

  pub depends_on-Sound : (fuel : ℕ) → Sound (depends_on fuel rows target)
  unfolding depends_on
  depends_on-Sound zero d v v' h = cc
  depends_on-Sound (suc fuel) d v v' h = elim (Bool-cases (contains v d)) [
    | inl old ↦ cc (rw old at h)
    | inr new ↦
        scan-Sound (depends_on fuel rows target) (depends_on-Sound fuel) d (targets d rows) (d ∷ v)
          v' (targets-Edge d rows) (rw new at h)
  ]

  abbrev Within : List ℕ → List ℕ → Type 0
  Within v v' = (x : ℕ) → contains v x ≡ true → contains v' x ≡ true

  -- The targets of what was visited between `v` and `v'` were visited too, and are no hit.
  abbrev Closed : List ℕ → List ℕ → Type 0
  Closed v v' =
      (x : ℕ)
      → contains v' x ≡ true
      → contains v x ≡ false
      → (b : ℕ) → Edge rows x b
      → (b ≢ target) × (contains v' b ≡ true)

  Closed-trans : (v u v' : List ℕ) → Closed v u → Closed u v' → Within u v' → Closed v v'
  Closed-trans v u v' first second grows x in_v' not_in_v b e = elim (Bool-cases (contains u x)) [
    | inl in_u ↦ let (apart, in_u') = first x in_u not_in_v b e in (apart, grows b in_u')
    | inr not_in_u ↦ second x in_v' not_in_u b e
  ]

  -- A miss leaves a closed set that holds `d`.
  abbrev Complete : (ℕ → List ℕ → Found) → Type 0
  Complete search' =
      (d : ℕ) (v v' : List ℕ)
      → search' d v ≡ some (false, v')
      → Within v v' × (contains v' d ≡ true) × Closed v v'

  scan-Complete :
      (search' : ℕ → List ℕ → Found)
      → Complete search'
      → (ds v v' : List ℕ) → scan search' target ds v ≡ some (false, v')
      → Within v v' × All (λ d. (d ≢ target) × (contains v' d ≡ true)) ds × Closed v v'
  unfolding scan
  scan-Complete search' complete [] v v' h =
      let same : v ≡ v' = cc in (λ x m. rw (← same) m, tt, λ x m n. cc (rw (← same) at m, n))
  scan-Complete search' complete (d ∷ ds) v v' h = elim (Bool-cases (d == target)) [
    | inl hit ↦ cc (rw hit at h)
    | inr miss ↦
        next miss (search' d v) refl (λ u. scan-Complete search' complete ds u v') (rw miss at h)
  ]
    where
      next :
          (d == target) ≡ false
          → (r : Found) → search' d v ≡ r
          → ((u : List ℕ)
              → scan search' target ds u ≡ some (false, v')
              → Within u v' × All (λ x. (x ≢ target) × (contains v' x ≡ true)) ds × Closed u v')
          → then_scan r (scan search' target ds) ≡ some (false, v')
          → Within v v' × All (λ x. (x ≢ target) × (contains v' x ≡ true)) (d ∷ ds) × Closed v v'
      next miss none e rest h' = cc
      next miss (some (true, u)) e rest h' = cc
      next miss (some (false, u)) e rest h' =
          let (grows, has_d, closed) = complete d v u e in
          let (grows', others, closed') = rest u h' in
          (
            λ x m. grows' x (grows x m),
            ((λ hit. cc (miss, (nat_beq_iff d target).1 hit), grows' d has_d), others),
            Closed-trans v u v' closed closed' grows',
          )

  pub depends_on-Complete : (fuel : ℕ) → Complete (depends_on fuel rows target)
  unfolding depends_on
  depends_on-Complete zero d v v' h = cc
  depends_on-Complete (suc fuel) d v v' h = elim (Bool-cases (contains v d)) [
    | inl old ↦
        let same : v ≡ v' = cc (rw old at h) in
        (λ x m. rw (← same) m, rw (← same) old, λ x m n. cc (rw (← same) at m, n))
    | inr new ↦
        let (grows, found, closed) =
          scan-Complete (depends_on fuel rows target) (depends_on-Complete fuel) (targets d rows)
            (d ∷ v) v' (rw new at h) in
        (
          λ x m. grows x (ground (arith, m)),
          grows d (rw (beq_refl d)),
          λ x in_v' not_in_v b e. elim (Bool-cases (d == x)) [
            | inl same ↦
                targets-all (λ y. (y ≢ target) × (contains v' y ≡ true)) d rows found b
                  (rw (← (nat_beq_iff d x).0 same) at e)
            | inr other ↦ closed x in_v' (rw (other, not_in_v)) b e
          ],
        )
  ]

  -- After a miss from no visited tasks, nothing that `a` depends on is the target.
  Closed-DependsOn :
      (v : List ℕ) (a : ℕ)
      → Closed [] v
      → contains v a ≡ true
      → (b : ℕ) → DependsOn rows a b
      → (b ≢ target) × (contains v b ≡ true)
  Closed-DependsOn v a closed has_a b (direct e) = closed a has_a refl b e
  Closed-DependsOn v a closed has_a c (through {b = b} p e) =
      let (_, has_b) = Closed-DependsOn v a closed has_a b p in closed b has_b refl c e

  pub miss-DependsOn :
      (fuel a : ℕ) (v : List ℕ)
      → depends_on fuel rows target a [] ≡ some (false, v)
      → ¬ DependsOn rows a target
  miss-DependsOn fuel a v h p =
      let (_, has_a, closed) = depends_on-Complete fuel a [] v h in
      (Closed-DependsOn v a closed has_a target p).0 refl
