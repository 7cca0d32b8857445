-- ===== src/Json.antt =====
-- What `json.dumps` writes and `json.loads` reads.
pub mod Equality
use md_harness.Prelude.{
  if◌then◌else◌, ◌==◌, ℕ, String, Bool, true, false, Option, none, some, List, [], ◌∷◌, string_eq,
}

mutual
  pub data Json : Type 0 where
    null : Json
    boolean : Bool → Json
    -- An int: its sign, and its absolute value.
    integer : Bool → ℕ → Json
    -- A float, as its `repr`.
    decimal : String → Json
    string : String → Json
    array : Items → Json
    object : Members → Json

  pub data Items : Type 0 where
    no_items : Items
    item : Json → Items → Items

  pub data Members : Type 0 where
    no_members : Members
    member : String → Json → Members → Members

-- `key in mapping`, and `mapping[key]`
unfoldable pub get_member : String → Members → Option Json
get_member key no_members = none
get_member key (member k value rest) =
    let found = get_member key rest in if k == key then some value else found

-- `list(mapping)`
abbrev pub keys : Members → List String
keys no_members = []
keys (member k value rest) = k ∷ keys rest

abbrev pub elements : Items → List Json
elements no_items = []
elements (item x xs) = x ∷ elements xs

-- `value is True`
abbrev pub is_true : Option Json → Bool
is_true (some (boolean true)) = true
is_true _ = false
