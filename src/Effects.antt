-- ===== src/Effects.antt =====
-- Methods that change a state and may raise: what was written before an exception stays written,
-- until a transaction rolls it back (`rollback_on_error`).
pub mod Returned
pub mod Keeps
pub mod Checks
use md_harness.Prelude.{String, Bool, true, false, Option, none, some}

-- The exception classes that the sources raise, each with its message or the fixed part of it.
pub data Error : Type 0 where
  value_error runtime_error type_error key_error os_error transaction_error integrity_error :
      String → Error

pub data Result {ℓ} (A : Type ℓ) : Type ℓ where
  return : A → Result A
  raise : Error → Result A

abbrev pub Action {ℓ κ} : Type ℓ → Type κ → Type (ℓ ⊔ κ)
Action S A = S → Result A × S

module _ {ℓ κ} {S : Type ℓ} {A : Type κ} where
  abbrev pub pure : A → Action S A
  pure a s = (return a, s)

  abbrev pub throw : Error → Action S A
  throw e s = (raise e, s)

  abbrev pub lift : Result A → Action S A
  lift r s = (r, s)

  abbrev pub gets : (S → A) → Action S A
  gets f s = (return (f s), s)

  -- `except Exception: rollback(); raise`
  abbrev pub rollback_to : S → Result A × S → Result A × S
  rollback_to before (return a, after) = (return a, after)
  rollback_to before (raise e, after) = (raise e, before)

  -- `BEGIN … COMMIT`, with a rollback when an exception escapes from the block.
  abbrev pub rollback_on_error : Action S A → Action S A
  rollback_on_error block s = rollback_to s (block s)

module _ {ℓ κ μ} {S : Type ℓ} {A : Type κ} {B : Type μ} where
  abbrev pub and_then : Result A → (A → Action S B) → Action S B
  and_then (return a) f = f a
  and_then (raise e) f = throw e

  infixl 5 ◌>>=◌ ◌>>◌
  abbrev pub ◌>>=◌ : Action S A → (A → Action S B) → Action S B
  m >>= f = λ s. let (r, s') = m s in and_then r f s'

  abbrev pub ◌>>◌ : Action S A → Action S B → Action S B
  m >> n = m >>= λ _. n

module _ {ℓ} {S : Type ℓ} where
  abbrev pub modify : (S → S) → Action S (Unit {0})
  modify f s = (return tt, f s)

  -- `if not test: raise e`
  abbrev pub require : Bool → Error → Action S (Unit {0})
  require true e = pure tt
  require false e = throw e

module _ {ℓ κ} {S : Type ℓ} {A : Type κ} where
  -- `if value is None: raise e`
  abbrev pub require_some : Option A → Error → Action S A
  require_some none e = throw e
  require_some (some a) e = pure a
