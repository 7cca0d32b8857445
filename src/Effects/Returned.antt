-- ===== src/Effects/Returned.antt =====
-- What an action that returned must have passed, and the action behind that.
use md_harness.Prelude.{◌≡◌, refl, Bool, true, false, Option, none, some, arith}
use md_harness.Effects.{
  Error, Result, return, raise, Action, pure, and_then, ◌>>=◌, ◌>>◌, require, require_some,
}

module _ {S A : Type 0} where
  pub required :
      (test : Bool) (e : Error) (rest : Action S A) (s : S) {a : A}
      → ((require test e >> rest) s).0 ≡ return a
      → (test ≡ true) × ((require test e >> rest) s ≡ rest s)
  required true e rest s returned = (refl, refl)
  required false e rest s returned = cc

  -- A last statement whose value is thrown away, and the value that is returned behind it.
  pub then_pure :
      (r : Result (Unit {0}) × S) (x : A) {a : A}
      → (and_then r.0 (λ _. pure x) r.1).0 ≡ return a
      → (x ≡ a) × (and_then r.0 (λ _. pure x) r.1 ≡ (return x, r.1))
  then_pure (return u, after) x returned = (ground arith, refl)
  then_pure (raise e, after) x returned = cc

  pub some_required :
      {B : Type 0} (o : Option B) (e : Error) (f : B → Action S A) (s : S) {a : A}
      → ((require_some o e >>= f) s).0 ≡ return a
      → (b : B) × (o ≡ some b) × ((require_some o e >>= f) s ≡ f b s)
  some_required none e f s returned = cc
  some_required (some b) e f s returned = (b, refl, refl)

  pub bound :
      {B : Type 0} (r : Result B × S) (f : B → Action S A) {a : A}
      → (and_then r.0 f r.1).0 ≡ return a
      → (b : B) × (r.0 ≡ return b) × (and_then r.0 f r.1 ≡ f b r.1)
  bound (return b, after) f returned = (b, refl, refl)
  bound (raise e, after) f returned = cc
