-- ===== src/Engine/Planner/Returned.antt =====
-- What a chain of early returns that gave a value has passed.
use md_harness.Engine.Planner.Answers.{Refusal, Planned, given, refused, raised, ◌>>=◌, unless}
use md_harness.Prelude.{◌≡◌, refl, Bool, true, false}
use md_harness.Effects.{Error}
use md_harness.Engine.Planner.Criteria.{raise_unless}

pub bound_given :
    {A B : Type 0} (m : Planned A) (f : A → Planned B) {b : B}
    → (m >>= f) ≡ given b
    → (a : A) × (m ≡ given a) × (f a ≡ given b)
bound_given (given a) f h = (a, refl, h)
bound_given (refused r) f h = cc
bound_given (raised e) f h = cc

pub given_injective : {A : Type 0} (a b : A) → given a ≡ given b → a ≡ b
given_injective a b h = cc

pub unless_given : (b : Bool) (r : Refusal) → unless b r ≡ given tt → b ≡ true
unless_given true r h = refl
unless_given false r h = cc

pub raise_given : (b : Bool) (e : Error) → raise_unless b e ≡ given tt → b ≡ true
raise_given true e h = refl
raise_given false e h = cc
