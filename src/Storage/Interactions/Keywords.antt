-- ===== src/Storage/Interactions/Keywords.antt =====
-- What each check of `validate_response` says of a keyword of the schema.
use md_harness.Json.Equality.{Floats}
use md_harness.Storage.Interactions.Schemas.Children.{IsSchema, property-IsSchema}
use md_harness.Effects.Checks.{check, check_returned}
use md_harness.Effects.{Error, value_error, return}
use md_harness.Storage.Interactions.Schemas.{
  is_enum, is_text, is_mapping, check_required, is_object_type,
}
use md_harness.Prelude.{
  Bool-cases, is_some, and_left, and_right, all, All, eq_iff, ◌==◌, String, ◌≡◌, refl, sym, ap, ◌∙◌,
  ◌↔◌, inl, inr, Bool, true, false, not, ◌||◌, Option, none, some, List, [], ◌∷◌, arith, string_eq,
}
use md_harness.Json.{
  Json, null, boolean, integer, string, array, object, Members, no_members, get_member, keys,
  elements,
}
use md_harness.Storage.Interactions.Responses.{
  type_checks, passes, check_type, required_names, names_key, is_false, properties_of, check_extra,
  check_enum,
}
use md_harness.Storage.Interactions.Conforms.{
  property_in, property, texts, texts_in, HasType, IsKey, Allowed,
}

-- The table of types agrees with the types of each value.
passes_sound : (t : String) (v : Json) → passes type_checks t v ≡ true → HasType t v
unfolding passes
passes_sound t (integer s n) h = elim (Bool-cases ("integer" == t)) [
  | inl e ↦ inl (sym ((eq_iff "integer" t).0 e))
  | inr other ↦
      inr
        (ground (arith, eq_iff "object" t, eq_iff "array" t, eq_iff "string" t, eq_iff "number" t))
]
passes_sound t v h = ground (
  arith,
  eq_iff "object" t,
  eq_iff "array" t,
  eq_iff "string" t,
  eq_iff "integer" t,
  eq_iff "number" t,
  eq_iff "boolean" t,
  eq_iff "null" t,
)

passes_complete : (t : String) (v : Json) → HasType t v → passes type_checks t v ≡ true
unfolding passes
passes_complete t (integer s n) h = elim h [ inl e ↦ rw e refl | inr e ↦ rw e refl ]
passes_complete t null h = rw h refl
passes_complete t v h = rw h refl

pub type_sound :
    (o : Option Json) (v : Json)
    → check_type o v ≡ return tt
    → (t : String) × (o ≡ some (string t)) × HasType t v
unfolding check_type
type_sound (some (string t)) v h = (t, refl, passes_sound t v (check_returned _ _ h))
type_sound none v h = cc
type_sound (some _) v h = cc

pub type_complete :
    (o : Option Json) (v : Json) (t : String)
    → o ≡ some (string t)
    → HasType t v
    → check_type o v ≡ return tt
unfolding check_type
type_complete o v t e h = rw (e, passes_complete t v h) refl

pub object_typed :
    (o : Option Json) (rs : Members)
    → check_type o (object rs) ≡ return tt
    → is_object_type o ≡ true
unfolding is_object_type
object_typed o rs h = let (t, e, typed) = type_sound o (object rs) h in rw (e, typed) refl

texts-all :
    (rs : Members) (xs : List Json)
    → all is_text xs ≡ true
    → (all (names_key rs) xs ≡ true) ↔ All (IsKey rs) (texts xs)
unfolding names_key
texts-all rs [] h = (λ _. tt, λ _. refl)
texts-all rs (string s ∷ xs) h =
    let (into, back) = texts-all rs xs h in
    (
      λ e. (and_left _ _ e, into (and_right (is_some (get_member s rs)) _ e)),
      λ e. rw (e.0) (back e.1),
    )
texts-all rs (_ ∷ xs) h = cc

all-All :
    (p q : String → Bool)
    → ((k : String) → q k ≡ p k)
    → (ks : List String) → (all p ks ≡ true) ↔ All (λ k. q k ≡ true) ks
all-All p q same [] = (λ _. tt, λ _. refl)
all-All p q same (k ∷ ks) =
    let (into, back) = all-All p q same ks in
    (
      λ e. (same k ∙ and_left _ _ e, into (and_right (p k) _ e)),
      λ e. rw (sym (same k) ∙ e.0) (back e.1),
    )

-- The keyword `required` of a schema for objects.
pub required_iff :
    (o : Option Json) (rs : Members)
    → check_required o ≡ return tt
    → (names : List Json) × (required_names o ≡ return names)
      × ((all (names_key rs) names ≡ true) ↔ All (IsKey rs) (texts_in o))
unfolding check_required required_names
required_iff none rs h = ([], refl, (λ _. tt, λ _. refl))
required_iff (some (array xs)) rs h =
    (elements xs, refl, texts-all rs (elements xs) (check_returned _ _ h))
required_iff (some _) rs h = cc

pub properties_same :
    (ms ps : Members)
    → properties_of (get_member "properties" ms) ≡ return ps
    → (k : String) → property k (object ms) ≡ get_member k ps
unfolding properties_of get_member
properties_same ms ps h k = by_value (get_member "properties" ms) h
  where
    by_value : (o : Option Json) → properties_of o ≡ return ps → property_in k o ≡ get_member k ps
    by_value none e = let same : no_members ≡ ps = cc in ap (get_member k) same
    by_value (some (object qs)) e = let same : qs ≡ ps = cc in ap (get_member k) same
    by_value (some _) e = cc

pub extra_iff :
    (ms ps rs : Members)
    → ((k : String) → property k (object ms) ≡ get_member k ps)
    → (check_extra ms ps rs ≡ return tt) ↔ (
        get_member "additionalProperties" ms ≡ some (boolean false)
        → All (λ k. is_some (property k (object ms)) ≡ true) (keys rs))
unfolding check_extra
extra_iff ms ps rs same = by_value (get_member "additionalProperties" ms)
  where
    error : Error
    error = value_error "response has unexpected fields"

    listed : Type 0
    listed = All (λ k. is_some (property k (object ms)) ≡ true) (keys rs)

    inside : (all (λ k. is_some (get_member k ps)) (keys rs) ≡ true) ↔ listed
    inside =
        all-All (λ k. is_some (get_member k ps)) (λ k. is_some (property k (object ms)))
          (λ k. ap is_some (same k)) (keys rs)

    by_value :
        (o : Option Json)
        → (check (not (is_false o) || all (λ k. is_some (get_member k ps)) (keys rs)) error
            ≡ return tt)
          ↔ (o ≡ some (boolean false) → listed)
    by_value (some (boolean false)) =
        (λ h _. inside.0 (check_returned _ error h), λ h. rw (inside.1 (h refl)) refl)
    by_value none = (λ _ e. cc, λ _. refl)
    by_value (some (boolean true)) = (λ _ e. cc, λ _. refl)
    by_value (some _) = (λ _ e. cc, λ _. refl)

pub enum_iff :
    (f : Floats) (o : Option Json) (v : Json)
    → is_enum o ≡ true
    → (check_enum f o v ≡ return tt) ↔ Allowed f o v
unfolding is_enum check_enum
enum_iff f none v h = (λ _. tt, λ _. refl)
enum_iff f (some (array xs)) v h = (check_returned _ _, λ e. rw e refl)
enum_iff f (some _) v h = cc

pub property_valid :
    (ms : Members) (k : String) (c : Json)
    → IsSchema (object ms)
    → is_object_type (get_member "type" ms) ≡ true
    → property k (object ms) ≡ some c
    → IsSchema c
property_valid ms k c valid typed found = by_value (get_member "properties" ms) refl found
  where
    by_value :
        (o : Option Json) → get_member "properties" ms ≡ o → property_in k o ≡ some c → IsSchema c
    by_value none e h = cc
    by_value (some (object ps)) e h = property-IsSchema ms ps k c valid typed e h
    by_value (some _) e h = cc

pub properties_exist :
    (o : Option Json) → is_mapping o ≡ true → (ps : Members) × (properties_of o ≡ return ps)
unfolding properties_of
properties_exist none h = (no_members, refl)
properties_exist (some (object ps)) h = (ps, refl)
properties_exist (some _) h = cc
