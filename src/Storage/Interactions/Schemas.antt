-- ===== src/Storage/Interactions/Schemas.antt =====
-- HumanInteractionStore.validate_schema of src/harness/storage/human_interaction_store.py.
pub mod Children
use md_harness.Json.{Json, string, array, object, Members, no_members, member, get_member, elements}
use md_harness.Prelude.{
  if◌then◌else◌, all, ◌==◌, contains, String, Bool, true, false, Option, none, some, List, [], ◌∷◌,
  string_eq,
}
use md_harness.Effects.{Error, value_error, type_error, Result, return, raise}
use md_harness.Effects.Checks.{◌>>◌, check}

abbrev pub unhashable : Error
unhashable = type_error "unhashable type"

abbrev pub json_types : List String
json_types = "object" ∷ "array" ∷ "string" ∷ "integer" ∷ "number" ∷ "boolean" ∷ "null" ∷ []

abbrev pub unsupported_type : Error
unsupported_type = value_error "response schema declares an unsupported type"

-- `expected_type not in supported`: a set cannot be asked for a list or a dict.
unfoldable pub check_supported : Option Json → Result (Unit {0})
check_supported (some (string t)) = check (contains json_types t) unsupported_type
check_supported (some (array xs)) = raise unhashable
check_supported (some (object ms)) = raise unhashable
check_supported _ = raise unsupported_type

unfoldable pub is_enum : Option Json → Bool
is_enum none = true
is_enum (some (array xs)) = true
is_enum _ = false

abbrev pub is_text : Json → Bool
is_text (string s) = true
is_text _ = false

abbrev pub invalid_object : Error
invalid_object = value_error "object response schema properties/required are invalid"

abbrev pub is_mapping : Option Json → Bool
is_mapping none = true
is_mapping (some (object ms)) = true
is_mapping _ = false

-- `schema.get("required", [])`, where it is a list.
unfoldable pub check_required : Option Json → Result (Unit {0})
check_required none = return tt
check_required (some (array xs)) =
    check (all is_text (elements xs))
      (value_error "response schema required fields must be strings")
check_required _ = raise invalid_object

-- `expected_type == "object"`
unfoldable pub is_object_type : Option Json → Bool
is_object_type (some (string t)) = t == "object"
is_object_type _ = false

unfoldable pub check_object : Members → Result (Unit {0})
unfolding check_required get_member
check_object ms = do
  check (is_mapping (get_member "properties" ms)) invalid_object
  check_required (get_member "required" ms)

unfoldable pub check_keywords : Members → Result (Unit {0})
unfolding check_supported is_enum get_member
check_keywords ms = do
  check_supported (get_member "type" ms)
  check (is_enum (get_member "enum" ms)) (value_error "response schema enum must be a list")

-- The children are those of the member `properties`.
unfoldable mutual
  unfolding check_keywords is_object_type check_object get_member

  pub validate_schema : Json → Result (Unit {0})
  validate_schema (object ms) = do
    check_keywords ms
    if is_object_type (get_member "type" ms)
        then check_object ms >> validate_children ms
        else return tt
  validate_schema _ = raise (type_error "response schema property must be an object")

  pub validate_children : Members → Result (Unit {0})
  validate_children no_members = return tt
  validate_children (member k (object ps) rest) =
      let each = validate_each ps in
      let later = validate_children rest in if k == "properties" then each else later
  validate_children (member k _ rest) = validate_children rest

  pub validate_each : Members → Result (Unit {0})
  validate_each no_members = return tt
  validate_each (member k s rest) = validate_schema s >> validate_each rest
