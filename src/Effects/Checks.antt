-- ===== src/Effects/Checks.antt =====
-- Code that may raise and changes nothing.
use md_harness.Prelude.{◌≡◌, refl, Bool, true, false}
use md_harness.Effects.{Error, Result, return, raise}

module _ {ℓ κ} {A : Type ℓ} {B : Type κ} where
  infixl 5 ◌>>=◌ ◌>>◌
  abbrev pub ◌>>=◌ : Result A → (A → Result B) → Result B
  return a >>= f = f a
  raise e >>= f = raise e

  abbrev pub ◌>>◌ : Result A → Result B → Result B
  m >> n = m >>= λ _. n

-- `if not test: raise e`
abbrev pub check : Bool → Error → Result (Unit {0})
check true e = return tt
check false e = raise e

-- What returned must have passed its checks.
pub checked :
    {A : Type 0} (b : Bool) (e : Error) (m : Result A) {a : A}
    → (check b e >> m) ≡ return a
    → (b ≡ true) × (m ≡ return a)
checked true e m h = (refl, h)
checked false e m h = cc

pub bound_ok :
    {A B : Type 0} (m : Result A) (f : A → Result B) {b : B}
    → (m >>= f) ≡ return b
    → (a : A) × (m ≡ return a) × (f a ≡ return b)
bound_ok (return a) f h = (a, refl, h)
bound_ok (raise e) f h = cc

pub check_returned : (b : Bool) (e : Error) → check b e ≡ return tt → b ≡ true
check_returned true e h = refl
check_returned false e h = cc
