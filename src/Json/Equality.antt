-- ===== src/Json/Equality.antt =====
-- Python's `==` on the values that `json.loads` gives. Comparisons with a float are the parameter
-- `Floats`, since floats are kept as their texts.
use md_harness.Prelude.{
  length, any, ◌==◌, ℕ, String, Bool, true, false, not, ◌&&◌, Option, none, some, nat_eq, string_eq,
}
use md_harness.Json.{
  Json, null, boolean, integer, decimal, string, array, object, Items, no_items, item, Members,
  no_members, member, get_member, keys, elements,
}

pub record Floats : Type 0 where
  pub equals_integer : Bool → ℕ → String → Bool
  pub equals_float : String → String → Bool

-- `True == 1` and `False == 0`
abbrev pub is_boolean : Bool → Bool → ℕ → Bool
is_boolean true negative n = n == 1 && not negative
is_boolean false negative n = n == 0

abbrev pub nat_of : Bool → ℕ
nat_of true = 1
nat_of false = 0

abbrev pub same_integer : Bool → ℕ → Bool → ℕ → Bool
same_integer true m true n = m == n
same_integer false m false n = m == n
same_integer true m false n = m == 0 && n == 0
same_integer false m true n = m == 0 && n == 0

abbrev pub same_boolean : Bool → Bool → Bool
same_boolean true b = b
same_boolean false b = not b

abbrev pub holds_of : (Json → Bool) → Option Json → Bool
holds_of p none = false
holds_of p (some x) = p x

module _ (f : Floats) where
  unfoldable mutual
    pub equal : Json → Json → Bool
    equal null null = true
    equal (boolean a) (boolean b) = same_boolean a b
    equal (boolean a) (integer s n) = is_boolean a s n
    equal (boolean a) (decimal r) = f.equals_integer false (nat_of a) r
    equal (integer s n) (boolean b) = is_boolean b s n
    equal (integer s n) (integer t m) = same_integer s n t m
    equal (integer s n) (decimal r) = f.equals_integer s n r
    equal (decimal r) (boolean b) = f.equals_integer false (nat_of b) r
    equal (decimal r) (integer s n) = f.equals_integer s n r
    equal (decimal r) (decimal q) = f.equals_float r q
    equal (string s) (string t) = s == t
    equal (array xs) (array ys) = equal_items xs ys
    equal (object ms) (object ns) = length (keys ms) == length (keys ns) && equal_members ms ns
    equal _ _ = false

    pub equal_items : Items → Items → Bool
    equal_items no_items no_items = true
    equal_items (item x xs) (item y ys) = equal x y && equal_items xs ys
    equal_items _ _ = false

    pub equal_members : Members → Members → Bool
    equal_members no_members ns = true
    equal_members (member k x rest) ns =
        holds_of (equal x) (get_member k ns) && equal_members rest ns

  -- `value in items`
  unfoldable pub in_items : Json → Items → Bool
  unfolding equal
  in_items value xs = any (λ x. equal x value) (elements xs)
