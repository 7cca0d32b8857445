-- ===== src/Transaction/Guards.antt =====
-- What a method that returned must have passed: its guards one by one, and the state behind them.
use md_harness.Prelude.{◌≡◌, refl, Bool, true, false, Option, none, some}
use md_harness.Effects.{return, Action}
use md_harness.Transaction.Resume.{return_if, return_if_none}

module _ {S A : Type 0} where
  pub skipped :
      (test : Bool) (rest : Action S (Option A)) (s : S) {a : A}
      → (return_if test none rest s).0 ≡ return (some a)
      → (test ≡ false) × (return_if test none rest s ≡ rest s)
  skipped true rest s returned = cc
  skipped false rest s returned = (refl, refl)

  pub present :
      {B : Type 0} (o : Option B) (f : B → Action S (Option A)) (s : S) {a : A}
      → (return_if_none o none f s).0 ≡ return (some a)
      → (b : B) × (o ≡ some b) × (return_if_none o none f s ≡ f b s)
  present none f s returned = cc
  present (some b) f s returned = (b, refl, refl)
