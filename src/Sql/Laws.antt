-- ===== src/Sql/Laws.antt =====
-- What the statements of `Sql` do to a row that is looked up by its key.
use mathlib.Core.Option
use md_harness.Prelude.{
  if◌then◌else◌, Bool-cases, All, Eq, ◌==◌, ℕ, ◌+◌, ◌≤◌, ◌≡◌, refl, sym, ap, ◌∙◌, ◌≢◌, inl, inr,
  Bool, true, false, ◌&&◌, Option, none, some, List, [], ◌∷◌, ◌++◌, arith,
}
use md_harness.Sql.{fetchone, update, rowcount}

abbrev pub when {ℓ} : {A : Type ℓ} → (A → Bool) → (A → A) → A → A
when p f x = if p x then f x else x

module _ {ℓ} {A : Type ℓ} where
  -- An UPDATE that leaves the columns of a query alone changes the row that the query finds.
  pub fetchone-update :
      (q p : A → Bool) (f : A → A)
      → ((x : A) → q (f x) ≡ q x)
      → (xs : List A) → fetchone q (update p f xs) ≡ Option.map (when p f) (fetchone q xs)
  unfolding fetchone update
  fetchone-update q p f same [] = refl
  fetchone-update q p f same (x ∷ xs) = ground (arith, same x, fetchone-update q p f same xs)

  -- A query whose rows the UPDATE does not touch, before and after, finds what it found.
  pub fetchone-update_ne :
      (q p : A → Bool) (f : A → A)
      → ((x : A) → p x ≡ true → q x ≡ false)
      → ((x : A) → q (f x) ≡ q x)
      → (xs : List A) → fetchone q (update p f xs) ≡ fetchone q xs
  unfolding fetchone update
  fetchone-update_ne q p f apart same [] = refl
  fetchone-update_ne q p f apart same (x ∷ xs) =
      ground (arith, same x, apart x, fetchone-update_ne q p f apart same xs)

  pub fetchone-holds : (q : A → Bool) (xs : List A) {x : A} → fetchone q xs ≡ some x → q x ≡ true
  unfolding fetchone
  fetchone-holds q [] h = cc
  fetchone-holds q (y ∷ xs) {x} h = elim (Bool-cases (q y)) [
    | inl e ↦ ground (arith, e)
    | inr e ↦ fetchone-holds q xs (rw e at h)
  ]

  pub fetchone-append :
      (q : A → Bool) (xs : List A) (y : A)
      → fetchone q (xs ++ y ∷ [])
        ≡ elim (fetchone q xs) [ none ↦ if q y then some y else none | some x ↦ some x ]
  unfolding fetchone
  fetchone-append q [] y = refl
  fetchone-append q (x ∷ xs) y = ground (arith, fetchone-append q xs y)

  -- A query of the rows that an UPDATE takes out of it finds none.
  pub fetchone-cleared :
      (q p : A → Bool) (f : A → A)
      → ((x : A) → q x ≡ true → p x ≡ true)
      → ((x : A) → q (f x) ≡ false)
      → (xs : List A) → fetchone q (update p f xs) ≡ none
  unfolding fetchone update
  fetchone-cleared q p f covers out [] = refl
  fetchone-cleared q p f covers out (x ∷ xs) = elim (Bool-cases (p x)) [
    | inl hit ↦ rw (hit, out x) (fetchone-cleared q p f covers out xs)
    | inr miss ↦ elim (Bool-cases (q x)) [
      | inl found ↦ cc (covers x found, miss)
      | inr other ↦ rw (miss, other) (fetchone-cleared q p f covers out xs)
    ]
  ]

  pub rowcount-append :
      (q : A → Bool) (xs : List A) (y : A)
      → rowcount q (xs ++ y ∷ []) ≡ rowcount q xs + (if q y then 1 else 0)
  unfolding rowcount
  rowcount-append q [] y = ground arith
  rowcount-append q (x ∷ xs) y = ground (arith, rowcount-append q xs y)

  -- An UPDATE that brings no row into a query.
  pub rowcount-update_le :
      (q p : A → Bool) (f : A → A) (xs : List A)
      → All (λ x. p x ≡ true → q (f x) ≡ true → q x ≡ true) xs
      → rowcount q (update p f xs) ≤ rowcount q xs
  unfolding rowcount update
  rowcount-update_le q p f [] h = omega arith
  rowcount-update_le q p f (x ∷ xs) h = ground (arith, h.0, rowcount-update_le q p f xs h.1)

  -- An UPDATE brings at most the rows into a query that it changes.
  pub rowcount-update_add :
      (q p : A → Bool) (f : A → A) (xs : List A)
      → rowcount q (update p f xs) ≤ rowcount q xs + rowcount p xs
  unfolding rowcount update
  rowcount-update_add q p f [] = omega arith
  rowcount-update_add q p f (x ∷ xs) = ground (arith, rowcount-update_add q p f xs)

  -- A query that finds nothing counts nothing.
  pub rowcount-none : (q : A → Bool) (xs : List A) → fetchone q xs ≡ none → rowcount q xs ≡ 0
  unfolding rowcount fetchone
  rowcount-none q [] h = refl
  rowcount-none q (x ∷ xs) h = ground (arith, rowcount-none q xs)

  -- An UPDATE whose WHERE clause no row meets changes nothing.
  pub update-none :
      (p : A → Bool) (f : A → A) (xs : List A) → rowcount p xs ≡ 0 → update p f xs ≡ xs
  unfolding rowcount update
  update-none p f [] h = refl
  update-none p f (x ∷ xs) h = ground (arith, update-none p f xs)

module _ {ℓ κ} {A : Type ℓ} {K : Type κ} ⦃e : Eq K⦄ (key : A → K) where
  abbrev pub has_key : K → A → Bool
  has_key k x = key x == k

  -- A PRIMARY KEY or UNIQUE column.
  abbrev pub Unique : List A → Type κ
  Unique [] = Unit
  Unique (x ∷ xs) = All (λ y. key y ≢ key x) xs × Unique xs

  -- The rowcount of an UPDATE on a row by its key.
  abbrev pub matched : (A → Bool) → Option A → ℕ
  matched r none = 0
  matched r (some x) = if r x then 1 else 0

  rowcount-absent :
      (k : K) (r : A → Bool) (xs : List A)
      → All (λ y. key y ≢ k) xs
      → rowcount (λ x. has_key k x && r x) xs ≡ 0
  unfolding rowcount
  rowcount-absent k r [] h = refl
  rowcount-absent k r (x ∷ xs) h =
      ground (arith, e.beq_iff (key x) k, h.0, rowcount-absent k r xs h.1)

  pub rowcount-key :
      (k : K) (r : A → Bool) (xs : List A)
      → Unique xs
      → rowcount (λ x. has_key k x && r x) xs ≡ matched r (fetchone (has_key k) xs)
  unfolding rowcount fetchone
  rowcount-key k r [] h = refl
  rowcount-key k r (x ∷ xs) h = elim (Bool-cases (has_key k x)) [
    | inl same ↦
        rw same (ground (arith, rowcount-absent k r xs (rw ((e.beq_iff (key x) k).0 same) at h.0)))
    | inr other ↦ rw other (rowcount-key k r xs h.1)
  ]

  All-update :
      (P : K → Type κ) (p : A → Bool) (f : A → A)
      → ((x : A) → key (f x) ≡ key x)
      → (xs : List A) → All (λ y. P (key y)) xs
      → All (λ y. P (key y)) (update p f xs)
  unfolding update
  All-update P p f same [] h = tt
  All-update P p f same (x ∷ xs) h = elim (Bool-cases (p x)) [
    | inl yes' ↦ rw (yes', same x) (h.0, All-update P p f same xs h.1)
    | inr no' ↦ rw no' (h.0, All-update P p f same xs h.1)
  ]

  -- An UPDATE that leaves the key alone keeps it unique.
  pub update-Unique :
      (p : A → Bool) (f : A → A)
      → ((x : A) → key (f x) ≡ key x)
      → (xs : List A) → Unique xs
      → Unique (update p f xs)
  unfolding update
  update-Unique p f same [] h = tt
  update-Unique p f same (x ∷ xs) h = elim (Bool-cases (p x)) [
    | inl yes' ↦
        rw (yes', same x)
          (All-update (λ k. k ≢ key x) p f same xs h.0, update-Unique p f same xs h.1)
    | inr no' ↦ rw no' (All-update (λ k. k ≢ key x) p f same xs h.0, update-Unique p f same xs h.1)
  ]

  fetchone-none : (k : K) (xs : List A) → fetchone (has_key k) xs ≡ none → All (λ x. key x ≢ k) xs
  unfolding fetchone
  fetchone-none k [] h = tt
  fetchone-none k (x ∷ xs) h = elim (Bool-cases (has_key k x)) [
    | inl same ↦ cc (rw same at h)
    | inr other ↦
        (λ same. cc (other, (e.beq_iff (key x) k).1 same), fetchone-none k xs (rw other at h))
  ]

  append-All : (P : A → Type κ) (y : A) (xs : List A) → All P xs → P y → All P (xs ++ y ∷ [])
  append-All P y [] h p = (p, tt)
  append-All P y (x ∷ xs) h p = (h.0, append-All P y xs h.1 p)

  append-apart :
      (y : A) (xs : List A) → All (λ x. key x ≢ key y) xs → Unique xs → Unique (xs ++ y ∷ [])
  append-apart y [] apart h = (tt, tt)
  append-apart y (x ∷ xs) apart h = (
    append-All (λ z. key z ≢ key x) y xs h.0 (λ same. apart.0 (sym same)),
    append-apart y xs apart.1 h.1,
  )

  -- An INSERT with a key that no row has keeps it unique.
  pub append-Unique :
      (y : A) (xs : List A)
      → fetchone (has_key (key y)) xs ≡ none
      → Unique xs
      → Unique (xs ++ y ∷ [])
  append-Unique y xs absent = append-apart y xs (fetchone-none (key y) xs absent)

  some-eq : {a b : A} → some a ≡ some b → a ≡ b
  some-eq e = cc

  apart-row :
      (q : A → Bool) (xs : List A) {y r : A}
      → All (λ x. key x ≢ key y) xs
      → fetchone q xs ≡ some r
      → key y ≢ key r
  unfolding fetchone
  apart-row q [] apart h = cc
  apart-row q (x ∷ xs) {y} {r} apart h = elim (Bool-cases (q x)) [
    | inl hit ↦
        let same : some x ≡ some r = rw hit at h in λ e. apart.0 (ap key (some-eq same) ∙ sym e)
    | inr miss ↦ apart-row q xs apart.1 (rw miss at h)
  ]

  All-apart :
      (P : A → Type κ) (k : K) (xs : List A)
      → All (λ x. key x ≢ k) xs
      → All (λ x. key x ≡ k → P x) xs
  All-apart P k [] h = tt
  All-apart P k (x ∷ xs) h = (λ e. absurd (h.0 e), All-apart P k xs h.1)

  -- What holds of the row that a query finds holds of every row with its key.
  pub found-by_key :
      (P : A → Type κ) (q : A → Bool) (xs : List A) {r : A}
      → Unique xs
      → fetchone q xs ≡ some r
      → P r
      → All (λ x. key x ≡ key r → P x) xs
  unfolding fetchone
  found-by_key P q [] unique h p = tt
  found-by_key P q (x ∷ xs) {r} unique h p = elim (Bool-cases (q x)) [
    | inl hit ↦
        let same : x ≡ r = some-eq (rw hit at h) in
        (λ _. rw same p, All-apart P (key r) xs (rw same at unique.0))
    | inr miss ↦
        let rest : fetchone q xs ≡ some r = rw miss at h in
        (λ e. absurd (apart-row q xs unique.0 rest e), found-by_key P q xs unique.1 rest p)
  ]
