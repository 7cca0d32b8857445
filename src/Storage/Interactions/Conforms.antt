-- ===== src/Storage/Interactions/Conforms.antt =====
-- When a response conforms to a schema, and that `validate_response` decides it.
use md_harness.Prelude.{
  is_some, All, String, ◌≡◌, ◌⊎◌, true, false, Option, none, some, List, [], ◌∷◌,
}
use md_harness.Json.{
  Json, null, boolean, integer, decimal, string, array, object, Members, no_members, member,
  get_member, keys, elements,
}
use md_harness.Json.Equality.{Floats, in_items}

abbrev pub keyword : String → Json → Option Json
keyword k (object ms) = get_member k ms
keyword k _ = none

abbrev pub property_in : String → Option Json → Option Json
property_in k (some ps) = keyword k ps
property_in k none = none

-- The schema of the property `k`.
abbrev pub property : String → Json → Option Json
property k s = property_in k (keyword "properties" s)

abbrev pub texts : List Json → List String
texts [] = []
texts (string s ∷ xs) = s ∷ texts xs
texts (_ ∷ xs) = texts xs

abbrev pub texts_in : Option Json → List String
texts_in (some (array xs)) = texts (elements xs)
texts_in _ = []

-- The types that a value has.
abbrev pub HasType : String → Json → Type 0
HasType t null = t ≡ "null"
HasType t (boolean b) = t ≡ "boolean"
HasType t (integer s n) = (t ≡ "integer") ⊎ (t ≡ "number")
HasType t (decimal r) = t ≡ "number"
HasType t (string s) = t ≡ "string"
HasType t (array xs) = t ≡ "array"
HasType t (object ms) = t ≡ "object"

abbrev pub IsKey : Members → String → Type 0
IsKey ms k = is_some (get_member k ms) ≡ true

module _ (f : Floats) where
  abbrev pub Allowed : Option Json → Json → Type 0
  Allowed (some (array xs)) v = in_items f v xs ≡ true
  Allowed _ v = Unit {0}

  -- The keywords that ask something of every value.
  abbrev pub Fits : Json → Json → Type 0
  Fits s v =
      ((t : String) × (keyword "type" s ≡ some (string t)) × HasType t v)
      × Allowed (keyword "enum" s) v

  -- Those that ask something of an object's keys.
  abbrev pub HasFields : Json → Members → Type 0
  HasFields s rs =
      All (IsKey rs) (texts_in (keyword "required" s))
      × (keyword "additionalProperties" s ≡ some (boolean false)
          → All (λ k. is_some (property k s) ≡ true) (keys rs))

  -- The value has a type that the schema names, and is in its enum if there is one; an object has the
  -- required keys, no other keys than the properties if `additionalProperties` is false, and the value
  -- of each property conforms to the schema of that property.
  unfoldable mutual
    pub Conforms : Json → Json → Type 0
    Conforms s (object rs) = Fits s (object rs) × HasFields s rs × Values s rs
    Conforms s v = Fits s v

    pub Values : Json → Members → Type 0
    Values s no_members = Unit {0}
    Values s (member k v rest) = ((c : Json) → property k s ≡ some c → Conforms c v) × Values s rest
