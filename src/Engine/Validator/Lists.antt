-- ===== src/Engine/Validator/Lists.antt =====
-- Tests on lists and lists of errors, as statements about the elements.
use Prim.Native.String.{compare}
use text.Mathlib.TextEquality.{path_by_compare}
use Prim.Native.Nat.{Ordering}
use md_harness.Prelude.{
  Bool-cases, and_left, and_right, or_false, non_empty, all, any, All, String, ◌≡◌, refl, ◌∙◌, ◌↔◌,
  inl, inr, Bool, true, false, ◌&&◌, List, [], ◌∷◌, ◌++◌, nat_eq, string_eq,
}
use md_harness.Engine.Evidence.{insert_sorted, sorted_set, failing}

module _ {ℓ} {A : Type ℓ} where
  pub all_iff : (p : A → Bool) (xs : List A) → (all p xs ≡ true) ↔ All (λ x. p x ≡ true) xs
  all_iff p [] = (λ _. tt, λ _. refl)
  all_iff p (x ∷ xs) =
      let (into, back) = all_iff p xs in
      (λ e. (and_left _ _ e, into (and_right (p x) _ e)), λ e. rw (e.0) (back e.1))

  pub any_iff : (p : A → Bool) (xs : List A) → (any p xs ≡ false) ↔ All (λ x. p x ≡ false) xs
  any_iff p [] = (λ _. tt, λ _. refl)
  any_iff p (x ∷ xs) =
      let (into, back) = any_iff p xs in
      (
        λ e. let (here, later) = or_false (p x) (any p xs) e in (here, into later),
        λ e. rw (e.0) (back e.1),
      )

  pub non_empty_iff : (xs : List A) → (non_empty xs ≡ false) ↔ (xs ≡ [])
  non_empty_iff [] = (λ _. refl, λ _. refl)
  non_empty_iff (x ∷ xs) = (λ e. cc, λ e. cc)

  pub append_nil_iff : (xs ys : List A) → (xs ++ ys ≡ []) ↔ ((xs ≡ []) × (ys ≡ []))
  append_nil_iff [] ys = (λ e. (refl, e), λ e. e.1)
  append_nil_iff (x ∷ xs) ys = (λ e. cc, λ e. cc)

  pub append_iff {κ μ} :
      {P : Type κ} {Q : Type μ} (xs ys : List A)
      → (xs ≡ []) ↔ P
      → (ys ≡ []) ↔ Q
      → (xs ++ ys ≡ []) ↔ (P × Q)
  append_iff xs ys first second = (
    λ e. let (e1, e2) = (append_nil_iff xs ys).0 e in (first.0 e1, second.0 e2),
    λ h. (append_nil_iff xs ys).1 (first.1 (h.0), second.1 (h.1)),
  )

  pub failing_iff {κ} :
      {B : Type κ} (p : A → Bool) (form : A → B) (xs : List A)
      → (failing p form xs ≡ []) ↔ All (λ x. p x ≡ true) xs
  unfolding failing
  failing_iff p form [] = (λ _. tt, λ _. refl)
  failing_iff p form (x ∷ xs) =
      let (into, back) = failing_iff p form xs in
      elim (Bool-cases (p x)) [
        | inl e ↦ (λ h. (e, into (rw e at h)), λ h. rw e (back h.1))
        | inr e ↦ (λ h. cc (rw e at h), λ h. cc (h.0, e))
      ]

and_again : (a b : Bool) → (a && b) ≡ (a && (a && b))
and_again true b = refl
and_again false b = refl

and_swap : (a b c : Bool) → (a && (b && c)) ≡ (b && (a && c))
and_swap true b c = refl
and_swap false true c = refl
and_swap false false c = refl

all-insert_sorted :
    (p : String → Bool) (s : String) (ts : List String)
    → all p (insert_sorted s ts) ≡ (p s && all p ts)
unfolding insert_sorted
all-insert_sorted p s [] = refl
all-insert_sorted p s (t ∷ ts) = by_order (all-insert_sorted p s ts) (compare s t) refl
  where
    by_order :
        all p (insert_sorted s ts) ≡ (p s && all p ts)
        → (o : Ordering) → compare s t ≡ o
        → all p (elim o [
          | Ordering.lt ↦ s ∷ t ∷ ts
          | Ordering.eq ↦ t ∷ ts
          | Ordering.gt ↦ t ∷ insert_sorted s ts
        ])
          ≡ (p s && all p (t ∷ ts))
    by_order ih Ordering.lt e = refl
    by_order ih Ordering.eq e = rw (path_by_compare s t e) (and_again (p t) (all p ts))
    by_order ih Ordering.gt e = rw ih (and_swap (p t) (p s) (all p ts))

pub all-sorted_set : (p : String → Bool) (ts : List String) → all p (sorted_set ts) ≡ all p ts
unfolding sorted_set
all-sorted_set p [] = refl
all-sorted_set p (t ∷ ts) = all-insert_sorted p t (sorted_set ts) ∙ rw (all-sorted_set p ts) refl
