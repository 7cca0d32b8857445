-- ===== src/Sql.antt =====
-- SQL statements on one table, a list of rows.
pub mod Laws
pub mod Decides
use md_harness.Prelude.{if◌then◌else◌, ℕ, suc, Bool, Option, none, some, List, [], ◌∷◌}

module _ {ℓ} {A : Type ℓ} where
  -- `SELECT … WHERE p`, then `fetchone()`
  unfoldable pub fetchone : (A → Bool) → List A → Option A
  fetchone p [] = none
  fetchone p (x ∷ xs) = if p x then some x else fetchone p xs

  -- `SELECT … WHERE p`, then `fetchall()`
  unfoldable pub fetchall : (A → Bool) → List A → List A
  fetchall p [] = []
  fetchall p (x ∷ xs) = let rest = fetchall p xs in if p x then x ∷ rest else rest

  -- `UPDATE … SET f WHERE p`
  unfoldable pub update : (A → Bool) → (A → A) → List A → List A
  update p f [] = []
  update p f (x ∷ xs) = (if p x then f x else x) ∷ update p f xs

  -- `cursor.rowcount` of an UPDATE with that WHERE clause
  unfoldable pub rowcount : (A → Bool) → List A → ℕ
  rowcount p [] = 0
  rowcount p (x ∷ xs) = let rest = rowcount p xs in if p x then suc rest else rest
