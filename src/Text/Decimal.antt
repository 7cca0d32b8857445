-- ===== src/Text/Decimal.antt =====
-- The decimal digits of a number, as an f-string writes it.
use Prim.Native.String
use Prim.Native.Nat.{◌/◌, ◌%◌}
use md_harness.Prelude.{
  ltb, if◌then◌else◌, Bool-cases, ℕ, zero, suc, ◌<◌, String, ◌≡◌, refl, inl, inr, arith, nat_eq,
}

abbrev pub digit : ℕ → String
digit zero = "0"
digit (suc zero) = "1"
digit (suc (suc zero)) = "2"
digit (suc (suc (suc zero))) = "3"
digit (suc (suc (suc (suc zero)))) = "4"
digit (suc (suc (suc (suc (suc zero))))) = "5"
digit (suc (suc (suc (suc (suc (suc zero)))))) = "6"
digit (suc (suc (suc (suc (suc (suc (suc zero))))))) = "7"
digit (suc (suc (suc (suc (suc (suc (suc (suc zero)))))))) = "8"
digit _ = "9"

-- The fuel bounds the digits; `digits_enough` shows that one more than the number is enough.
unfoldable pub digits : ℕ → ℕ → String
digits zero n = ""
digits (suc fuel) n =
    let front = digits fuel (n / 10) in
    if ltb n 10 then digit n else String.◌++◌ front (digit (n % 10))

unfoldable pub decimal_text : ℕ → String
unfolding digits
decimal_text n = digits (suc n) n

-- More fuel than the number gives the same text.
pub digits_enough : (f g n : ℕ) → n < f → n < g → digits f n ≡ digits g n
unfolding digits
digits_enough zero g n p q = elim p [ ]
digits_enough (suc f) zero n p q = elim q [ ]
digits_enough (suc f) (suc g) n p q = elim (Bool-cases (ltb n 10)) [
  | inl e ↦ rw e refl
  | inr e ↦ rw (e, digits_enough f g (n / 10) (ground arith) (ground arith)) refl
]
