-- ===== src/Engine/Validator/Tests.antt =====
-- The test results of src/harness/engine/validator.py: the last run with a criterion counts.
use md_harness.Prelude.{
  if◌then◌else◌, Bool-cases, nat_beq_iff, beq_refl, All, ◌==◌, contains, sql_eq, ℕ, ◌≡◌, refl, sym,
  ap, ◌∙◌, ◌≢◌, ◌↔◌, inl, inr, Bool, true, false, ◌||◌, String, Option, none, some, List, [], ◌∷◌,
  arith, nat_eq, string_eq,
}
use md_harness.Json.{Members}
use md_harness.Json.Equality.{Floats}
use md_harness.Engine.Outcomes.{ToolOutput, ExecutedStep}
use md_harness.Engine.Evidence.{put}
use md_harness.Engine.Validator.{data_in, for_all, test_passed, with_test, test_results}

abbrev Results : Type 0
Results = List (ℕ × Bool)

abbrev first_of : Option Bool → Option Bool → Option Bool
first_of (some b) other = some b
first_of none other = other

abbrev find : ℕ → Results → Option Bool
find i [] = none
find i ((k, v) ∷ rest) = if k == i then some v else find i rest

-- Each entry is the one that its key finds.
abbrev Keyed : Results → Type 0
Keyed [] = Unit {0}
Keyed ((k, v) ∷ rest) = (find k rest ≡ none) × Keyed rest

find-put :
    (i k : ℕ) (v : Bool) (rs : Results)
    → find i (put k v rs) ≡ (if k == i then some v else find i rs)
unfolding put
find-put i k v [] = refl
find-put i k v ((k', v') ∷ rest) = elim (Bool-cases (k' == k)) [
  | inl e ↦ ground (arith, e)
  | inr e ↦ elim (Bool-cases (k == i)) [
    | inl e' ↦ ground (arith, e, e', find-put i k v rest)
    | inr e' ↦ rw (e, find-put i k v rest, e') refl
  ]
]

put-Keyed : (k : ℕ) (v : Bool) (rs : Results) → Keyed rs → Keyed (put k v rs)
unfolding put
put-Keyed k v [] h = (refl, tt)
put-Keyed k v ((k', v') ∷ rest) h = elim (Bool-cases (k' == k)) [
  | inl e ↦ rw e h
  | inr e ↦ rw e (find-put k' k v rest ∙ ground (arith, e, h.0), put-Keyed k v rest h.1)
]

-- What a run of tests says of the criterion.
abbrev outcome : Option Bool → List ℕ → ℕ → Option Bool
outcome none ids i = none
outcome (some passed) ids i = if contains ids i then some passed else none

for_all-find :
    (passed : Bool) (ids : List ℕ) (rs : Results) (i : ℕ)
    → find i (for_all passed ids rs) ≡ first_of (outcome (some passed) ids i) (find i rs)
for_all-find passed [] rs i = refl
for_all-find passed (id ∷ ids) rs i =
    for_all-find passed ids (put id passed rs) i
    ∙ rw (find-put i id passed rs) (by_test (id == i) (contains ids i))
  where
    by_test :
        (a b : Bool)
        → first_of (if b then some passed else none) (if a then some passed else find i rs)
          ≡ first_of (if a || b then some passed else none) (find i rs)
    by_test true true = refl
    by_test true false = refl
    by_test false true = refl
    by_test false false = refl

for_all-Keyed :
    (passed : Bool) (ids : List ℕ) (rs : Results) → Keyed rs → Keyed (for_all passed ids rs)
for_all-Keyed passed [] rs h = h
for_all-Keyed passed (id ∷ ids) rs h =
    for_all-Keyed passed ids (put id passed rs) (put-Keyed id passed rs h)

all_found :
    (rs : Results) → All (λ (r : ℕ × Bool). r.1 ≡ true) rs → (i : ℕ) → find i rs ≢ some false
all_found [] h i e = cc
all_found ((k, v) ∷ rest) h i e = elim (Bool-cases (k == i)) [
  | inl e' ↦ cc (rw e' at e, h.0)
  | inr e' ↦ all_found rest h.1 i (rw e' at e)
]

found_all :
    (rs : Results)
    → Keyed rs
    → ((i : ℕ) → find i rs ≢ some false)
    → All (λ (r : ℕ × Bool). r.1 ≡ true) rs
found_all [] keyed h = tt
found_all ((k, v) ∷ rest) keyed h = (
  elim (Bool-cases v) [ inl e ↦ e | inr e ↦ absurd (h k (rw (beq_refl k) (ap some e))) ],
  found_all rest keyed.1 (λ i e. elim (Bool-cases (k == i)) [
    | inl same ↦ cc (rw (sym ((nat_beq_iff k i).0 same)) at e, keyed.0)
    | inr apart ↦ h i (rw apart e)
  ]),
)

module _ (f : Floats) (shown : ToolOutput → String) where
  abbrev passed_in : Option Members → Option Bool
  passed_in none = none
  passed_in (some ms) = some (test_passed f shown ms)

  -- What a step says of the criterion, if it is a run of tests with it whose result is a dict.
  abbrev pub tested_in : ExecutedStep → ℕ → Option Bool
  tested_in step =
      outcome (if sql_eq step.tool "test_runner" then passed_in (data_in step.result) else none)
        step.test_criteria

  -- What the last such step says of the criterion.
  abbrev pub last_test : List ExecutedStep → ℕ → Option Bool
  last_test [] i = none
  last_test (step ∷ steps) i = first_of (last_test steps i) (tested_in step i)

  first_of_assoc : (a b c : Option Bool) → first_of a (first_of b c) ≡ first_of (first_of a b) c
  first_of_assoc none b c = refl
  first_of_assoc (some x) b c = refl

  -- The results behind one step.
  abbrev stepped : ExecutedStep → Results → Results
  stepped step rs =
      if sql_eq step.tool "test_runner"
      then with_test f shown (data_in step.result) step.test_criteria rs
      else rs

  with_test-find :
      (o : Option Members) (ids : List ℕ) (rs : Results) (i : ℕ)
      → find i (with_test f shown o ids rs) ≡ first_of (outcome (passed_in o) ids i) (find i rs)
  with_test-find none ids rs i = refl
  with_test-find (some ms) ids rs i = for_all-find (test_passed f shown ms) ids rs i

  with_test-Keyed :
      (o : Option Members) (ids : List ℕ) (rs : Results)
      → Keyed rs
      → Keyed (with_test f shown o ids rs)
  with_test-Keyed none ids rs h = h
  with_test-Keyed (some ms) ids rs h = for_all-Keyed (test_passed f shown ms) ids rs h

  find-stepped :
      (step : ExecutedStep) (rs : Results) (i : ℕ)
      → find i (stepped step rs) ≡ first_of (tested_in step i) (find i rs)
  find-stepped step rs i = elim (Bool-cases (sql_eq step.tool "test_runner")) [
    | inl e ↦ rw e (with_test-find (data_in step.result) step.test_criteria rs i)
    | inr e ↦ rw e refl
  ]

  stepped-Keyed : (step : ExecutedStep) (rs : Results) → Keyed rs → Keyed (stepped step rs)
  stepped-Keyed step rs h = elim (Bool-cases (sql_eq step.tool "test_runner")) [
    | inl e ↦ rw e (with_test-Keyed (data_in step.result) step.test_criteria rs h)
    | inr e ↦ rw e h
  ]

  test_results-find :
      (rs : Results) (steps : List ExecutedStep) (i : ℕ)
      → find i (test_results f shown rs steps) ≡ first_of (last_test steps i) (find i rs)
  unfolding test_results
  test_results-find rs [] i = refl
  test_results-find rs (step ∷ steps) i =
      test_results-find (stepped step rs) steps i
      ∙ ap (first_of (last_test steps i)) (find-stepped step rs i)
      ∙ first_of_assoc (last_test steps i) (tested_in step i) (find i rs)

  test_results-Keyed :
      (rs : Results) (steps : List ExecutedStep) → Keyed rs → Keyed (test_results f shown rs steps)
  unfolding test_results
  test_results-Keyed rs [] h = h
  test_results-Keyed rs (step ∷ steps) h =
      test_results-Keyed (stepped step rs) steps (stepped-Keyed step rs h)

  first_of-none : (o : Option Bool) → first_of o none ≡ o
  first_of-none none = refl
  first_of-none (some x) = refl

  pub results_iff :
      (steps : List ExecutedStep)
      → All (λ (r : ℕ × Bool). r.1 ≡ true) (test_results f shown [] steps)
        ↔ ((i : ℕ) → last_test steps i ≢ some false)
  results_iff steps =
      let answer : (i : ℕ) → find i (test_results f shown [] steps) ≡ last_test steps i =
        λ i. test_results-find [] steps i ∙ first_of-none (last_test steps i) in
      (
        λ h i e. all_found (test_results f shown [] steps) h i (answer i ∙ e),
        λ h.
            found_all (test_results f shown [] steps) (test_results-Keyed [] steps tt)
              (λ i e. h i (sym (answer i) ∙ e)),
      )
