-- ===== src/Sql/Decides.antt =====
-- An UPDATE of one row by what its WHERE clause says of that row.
use mathlib.Core.Option
use md_harness.Sql.Laws.{when}
use md_harness.Prelude.{
  Bool-cases, ◌≡◌, ◌↔◌, ◌⊎◌, refl, sym, inl, inr, Bool, true, false, Option, none, some,
}

module _ {A : Type 0} where
  -- Whether an UPDATE on the row changed it.
  abbrev pub hits : (A → Bool) → Option A → Bool
  hits r none = false
  hits r (some x) = r x

  -- The row is there, and has the property.
  abbrev pub Has : (A → Type 0) → Option A → Type 0
  Has P o = (x : A) × (o ≡ some x) × P x

  module _ (r : A → Bool) (P : A → Type 0) (iff : (x : A) → (r x ≡ true) ↔ P x) (f : A → A) where
    -- Either the row has the property, and is changed, or none has, and nothing is.
    pub row_decides :
        (o : Option A)
        → ((x : A) × (o ≡ some x)
            × P x
            × (hits r o ≡ true)
            × (Option.map (when r f) o ≡ some (f x)))
          ⊎ ((¬ Has P o) × (hits r o ≡ false) × (Option.map (when r f) o ≡ o))
    row_decides none = inr (λ h. let (x, e, p) = h in cc, refl, refl)
    row_decides (some x) = elim (Bool-cases (r x)) [
      | inl e ↦ inl (x, refl, (iff x).0 e, e, rw e refl)
      | inr e ↦ inr (missed e, e, rw e refl)
    ]
      where
        missed : r x ≡ false → ¬ Has P (some x)
        missed e (y, same, holds) =
            let back : x ≡ y = cc same in
            let hit : r x ≡ true = (iff x).1 (rw (sym back) at holds) in cc
