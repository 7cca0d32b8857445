-- ===== src/Storage/Interactions/Schemas/Children.antt =====
-- What a schema that `validate_schema` accepts has in it.
use md_harness.Effects.Checks.{checked, bound_ok, check_returned}
use md_harness.Prelude.{Bool-cases, ◌==◌, String, ◌≡◌, inl, inr, true, some, string_eq}
use md_harness.Json.{Json, object, Members, no_members, member, get_member}
use md_harness.Effects.{return}
use md_harness.Storage.Interactions.Schemas.{
  check_supported, is_enum, is_mapping, check_required, is_object_type, check_object,
  check_keywords, validate_schema, validate_children, validate_each,
}

abbrev pub IsSchema : Json → Type 0
IsSchema s = validate_schema s ≡ return tt

pub each-IsSchema :
    (ps : Members) (k : String) (c : Json)
    → validate_each ps ≡ return tt
    → get_member k ps ≡ some c
    → IsSchema c
unfolding get_member validate_schema
each-IsSchema no_members k c h e = cc
each-IsSchema (member j s rest) k c h e =
    let (u, here, later) = bound_ok (validate_schema s) (λ _. validate_each rest) h in
    elim (Bool-cases (j == k)) [
      | inl same ↦ cc (rw same at e, here)
      | inr other ↦ each-IsSchema rest k c later (rw other at e)
    ]

pub children_schemas :
    (ms ps : Members)
    → validate_children ms ≡ return tt
    → get_member "properties" ms ≡ some (object ps)
    → validate_each ps ≡ return tt
unfolding get_member validate_schema
children_schemas no_members ps h e = cc
children_schemas (member j (object qs) rest) ps h e = elim (Bool-cases (j == "properties")) [
  | inl hit ↦ cc (rw hit at e, rw hit at h)
  | inr miss ↦ children_schemas rest ps (rw miss at h) (rw miss at e)
]
children_schemas (member j _ rest) ps h e = elim (Bool-cases (j == "properties")) [
  | inl hit ↦ cc (rw hit at e)
  | inr miss ↦ children_schemas rest ps h (rw miss at e)
]

-- A schema for objects has valid schemas for its properties.
pub property-IsSchema :
    (ms ps : Members) (k : String) (c : Json)
    → IsSchema (object ms)
    → is_object_type (get_member "type" ms) ≡ true
    → get_member "properties" ms ≡ some (object ps)
    → get_member k ps ≡ some c
    → IsSchema c
unfolding validate_schema
property-IsSchema ms ps k c valid typed e found =
    let (u, _, rest) = bound_ok (check_keywords ms) _ valid in
    let (w, _, children) =
      bound_ok (check_object ms) (λ _. validate_children ms) (rw typed at rest) in
    each-IsSchema ps k c (children_schemas ms ps children e) found

pub enum_list : (ms : Members) → IsSchema (object ms) → is_enum (get_member "enum" ms) ≡ true
unfolding validate_schema check_keywords
enum_list ms valid =
    let (u, kept, _) = bound_ok (check_keywords ms) _ valid in
    let (w, _, last) = bound_ok (check_supported (get_member "type" ms)) _ kept in
    check_returned (is_enum (get_member "enum" ms)) _ last

pub object_keywords :
    (ms : Members)
    → IsSchema (object ms)
    → is_object_type (get_member "type" ms) ≡ true
    → (is_mapping (get_member "properties" ms) ≡ true)
      × (check_required (get_member "required" ms) ≡ return tt)
unfolding validate_schema check_object
object_keywords ms valid typed =
    let (u, _, rest) = bound_ok (check_keywords ms) _ valid in
    let (w, fields, _) =
      bound_ok (check_object ms) (λ _. validate_children ms) (rw typed at rest) in
    checked (is_mapping (get_member "properties" ms)) _ _ fields
