-- ===== src/Agents/Registry/Selection.antt =====
-- Which profile AgentRegistry.select of src/harness/agents/registry.py takes.
use md_harness.Agents.Registry.{
  no_agent, unavailable, AgentProfile, distinct, names_of, agent_registry, serves, named_agent,
  select,
}
use md_harness.Prelude.{
  Bool-cases, eq_iff, and_left, and_right, or_false, not-true, All, contains, ◌==◌, ◌≡◌, ◌⊎◌, refl,
  sym, ap, ◌∙◌, inl, inr, String, Bool, true, false, ◌&&◌, Option, none, some, List, [], ◌∷◌,
  string_eq,
}
use md_harness.Effects.{Error, return, raise}
use md_harness.Effects.Checks.{checked}
use md_harness.Sql.{fetchone}

-- The agent that was assigned, or any when none was.
abbrev pub meant : Option String → AgentProfile → Bool
meant none p = true
meant (some assigned) p = named_agent assigned p

-- The profile stands in the list, and none before it holds of the test.
abbrev pub First : (AgentProfile → Bool) → AgentProfile → List AgentProfile → Type 0
First test p [] = (true ≡ false)
First test p (q ∷ rest) = (q ≡ p) × (test p ≡ true) ⊎ ((test q ≡ false) × First test p rest)

-- The test of `select`: the assigned agent, enabled and for the type of the task.
abbrev pub fits : String → Option String → AgentProfile → Bool
fits task_type assigned p = meant assigned p && serves task_type p

found_First :
    (test : AgentProfile → Bool) (profiles : List AgentProfile) {p : AgentProfile}
    → fetchone test profiles ≡ some p
    → First test p profiles
unfolding fetchone
found_First test [] {p} h = cc
found_First test (q ∷ rest) {p} h = elim (Bool-cases (test q)) [
  | inl e ↦ let same : q ≡ p = cc (rw e at h) in inl (same, rw (sym same) e)
  | inr e ↦ inr (e, found_First test rest (rw e at h))
]

absent :
    (test : AgentProfile → Bool) (profiles : List AgentProfile)
    → fetchone test profiles ≡ none
    → All (λ p. test p ≡ false) profiles
unfolding fetchone
absent test [] h = tt
absent test (q ∷ rest) h = elim (Bool-cases (test q)) [
  | inl e ↦ cc (rw e at h)
  | inr e ↦ (e, absent test rest (rw e at h))
]

narrow_First :
    (test other : AgentProfile → Bool) (profiles : List AgentProfile) {p : AgentProfile}
    → First test p profiles
    → other p ≡ true
    → First (λ q. test q && other q) p profiles
narrow_First test other [] {p} h k = h
narrow_First test other (q ∷ rest) {p} (inl (same, e)) k = inl (same, rw (e, k) refl)
narrow_First test other (q ∷ rest) {p} (inr (e, later)) k =
    inr (rw e refl, narrow_First test other rest later k)

narrow_absent :
    (test other : AgentProfile → Bool) (profiles : List AgentProfile)
    → All (λ p. test p ≡ false) profiles
    → All (λ p. (test p && other p) ≡ false) profiles
narrow_absent test other [] h = tt
narrow_absent test other (q ∷ rest) (e, later) = (rw e refl, narrow_absent test other rest later)

unnamed :
    (profiles : List AgentProfile) (name : String)
    → contains (names_of profiles) name ≡ false
    → All (λ p. named_agent name p ≡ false) profiles
unnamed [] name h = tt
unnamed (q ∷ rest) name h =
    let (apart, later) = or_false (q.name == name) _ h in (apart, unnamed rest name later)

-- No profile fits when the one with the name does not.
unique_absent :
    (name : String) (other : AgentProfile → Bool) (profiles : List AgentProfile) {p : AgentProfile}
    → distinct (names_of profiles) ≡ true
    → fetchone (named_agent name) profiles ≡ some p
    → other p ≡ false
    → All (λ q. (named_agent name q && other q) ≡ false) profiles
unfolding fetchone
unique_absent name other [] {p} h found k = tt
unique_absent name other (q ∷ rest) {p} h found k = elim (Bool-cases (q.name == name)) [
  | inl e ↦
      let same : q ≡ p = cc (rw e at found) in
      let called : q.name ≡ name = (eq_iff q.name name).0 e in
      let alone : contains (names_of rest) name ≡ false =
        ap (contains (names_of rest)) (sym called) ∙ not-true _ (and_left _ _ h) in
      (rw (e, same, k) refl, narrow_absent (named_agent name) other rest (unnamed rest name alone))
  | inr e ↦ (rw e refl, unique_absent name other rest (and_right _ _ h) (rw e at found) k)
]

abbrev pub Selects : List AgentProfile → String → Option String → Type 0
Selects profiles task_type assigned =
    ((p : AgentProfile) × (select profiles task_type assigned ≡ return p)
      × First (fits task_type assigned) p profiles)
    ⊎ ((e : Error) × (select profiles task_type assigned ≡ raise e)
        × All (λ p. fits task_type assigned p ≡ false) profiles)

any_Selects : (profiles : List AgentProfile) (task_type : String) → Selects profiles task_type none
unfolding select
any_Selects profiles task_type = by_first (fetchone (serves task_type) profiles) refl
  where
    by_first :
        (o : Option AgentProfile)
        → fetchone (serves task_type) profiles ≡ o
        → Selects profiles task_type none
    by_first none e = inr (no_agent, rw e refl, absent (serves task_type) profiles e)
    by_first (some p) e = inl (p, rw e refl, found_First (serves task_type) profiles e)

assigned_Selects :
    (profiles : List AgentProfile) (task_type name : String)
    → distinct (names_of profiles) ≡ true
    → Selects profiles task_type (some name)
unfolding select
assigned_Selects profiles task_type name h = by_name (fetchone (named_agent name) profiles) refl
  where
    by_name :
        (o : Option AgentProfile)
        → fetchone (named_agent name) profiles ≡ o
        → Selects profiles task_type (some name)
    by_name none e = inr (
      unavailable,
      rw e refl,
      narrow_absent (named_agent name) (serves task_type) profiles
          (absent (named_agent name) profiles e),
    )
    by_name (some p) e = elim (Bool-cases (serves task_type p)) [
      | inl ok ↦ inl (
        p,
        rw (e, ok) refl,
        narrow_First (named_agent name) (serves task_type) profiles
            (found_First (named_agent name) profiles e) ok,
      )
      | inr bad ↦
          inr
            (unavailable, rw (e, bad) refl, unique_absent name (serves task_type) profiles h e bad)
    ]

-- Out of a registry that was made, `select` takes the first profile that is enabled, is for the type
-- of the task and is the assigned one if one was assigned; it raises only when no profile is so.
pub select_lem :
    (profiles registry : List AgentProfile) (task_type : String) (assigned : Option String)
    → agent_registry profiles ≡ return registry
    → Selects registry task_type assigned
unfolding agent_registry
select_lem profiles registry task_type none h = any_Selects registry task_type
select_lem profiles registry task_type (some name) h =
    let (apart, same) = checked (distinct (names_of profiles)) _ (return profiles) h in
    let kept : profiles ≡ registry = cc same in
    assigned_Selects registry task_type name (rw kept at apart)
