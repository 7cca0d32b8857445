-- ===== src/Effects/Keeps.antt =====
-- A predicate on the state that each action of a do block keeps.
use md_harness.Prelude.{◌≡◌, refl, Bool, true, false, Option, none, some}
use md_harness.Effects.{
  Error, Result, return, raise, Action, pure, ◌>>=◌, ◌>>◌, and_then, require, require_some,
}

module _ {S : Type 0} (P : S → Type 0) where
  abbrev pub Kept : {A : Type 0} → Action S A → Type 0
  Kept m = (s : S) → P s → P (m s).1

  pub bind_keeps :
      {A B : Type 0} (r : Result A × S) (f : A → Action S B)
      → P r.1
      → ((a : A) (after : S) → r ≡ (return a, after) → P after → P (f a after).1)
      → P (and_then r.0 f r.1).1
  bind_keeps (return a, after) f h rest = rest a after refl h
  bind_keeps (raise e, after) f h rest = h

  pub then_keeps :
      {A B : Type 0} (r : Result A × S) (g : A → B)
      → P r.1
      → P (and_then r.0 (λ a. pure (g a)) r.1).1
  then_keeps (return a, after) g h = h
  then_keeps (raise e, after) g h = h

  pub require_keeps :
      {A : Type 0} (test : Bool) (e : Error) (rest : Action S A) (s : S)
      → P s
      → (test ≡ true → P (rest s).1)
      → P ((require test e >> rest) s).1
  require_keeps true e rest s h k = k refl
  require_keeps false e rest s h k = h

  pub last_keeps : (test : Bool) (e : Error) (s : S) → P s → P (require test e s).1
  last_keeps true e s h = h
  last_keeps false e s h = h

  pub some_keeps :
      {A B : Type 0} (o : Option A) (e : Error) (f : A → Action S B) (s : S)
      → P s
      → ((a : A) → o ≡ some a → P (f a s).1)
      → P ((require_some o e >>= f) s).1
  some_keeps none e f s h k = h
  some_keeps (some a) e f s h k = k a refl

  pub last_some_keeps :
      {A : Type 0} (o : Option A) (e : Error) (s : S) → P s → P (require_some o e s).1
  last_some_keeps none e s h = h
  last_some_keeps (some a) e s h = h
