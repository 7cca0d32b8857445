-- ===== src/Storage/Interactions/Responses.antt =====
-- HumanInteractionStore.validate_response of src/harness/storage/human_interaction_store.py. A message
-- that lists names keeps its fixed part; the list is sorted after `validate_schema` found texts in it.
use md_harness.Storage.Interactions.Schemas.{unhashable, is_text}
use text.Mathlib.Text.{find?}
use md_harness.Text.{characters}
use md_harness.Json.{
  Json, null, boolean, integer, decimal, string, array, object, Members, no_members, member,
  get_member, keys, elements,
}
use md_harness.Json.Equality.{Floats, in_items}
use md_harness.Prelude.{
  if◌then◌else◌, is_some, all, ◌==◌, String, Bool, true, false, not, ◌||◌, Option, none, some, List,
  [], ◌∷◌, map, string_eq,
}
use md_harness.Effects.{Error, value_error, type_error, Result, return, raise}
use md_harness.Effects.Checks.{◌>>=◌, ◌>>◌, check}

-- A key of the dictionary `checks`, with its test.
abbrev pub is_integer : Json → Bool
is_integer (integer s n) = true
is_integer _ = false

abbrev pub is_number : Json → Bool
is_number (integer s n) = true
is_number (decimal r) = true
is_number _ = false

abbrev pub is_list : Json → Bool
is_list (array xs) = true
is_list _ = false

abbrev pub is_object : Json → Bool
is_object (object ms) = true
is_object _ = false

abbrev pub is_bool : Json → Bool
is_bool (boolean b) = true
is_bool _ = false

abbrev pub is_null : Json → Bool
is_null null = true
is_null _ = false

abbrev pub type_checks : List (String × (Json → Bool))
type_checks =
    ("object", is_object)
    ∷ ("array", is_list)
    ∷ ("string", is_text)
    ∷ ("integer", is_integer)
    ∷ ("number", is_number)
    ∷ ("boolean", is_bool)
    ∷ ("null", is_null)
    ∷ []

-- `expected_type in checks and checks[expected_type](response)`
unfoldable pub passes : List (String × (Json → Bool)) → String → Json → Bool
passes [] type response = false
passes ((name, test) ∷ rest) type response =
    if name == type then test response else passes rest type response

abbrev pub wrong_type : Error
wrong_type = value_error "response must have JSON type"

unfoldable pub check_type : Option Json → Json → Result (Unit {0})
unfolding passes
check_type (some (string t)) response = check (passes type_checks t response) wrong_type
check_type (some (array xs)) response = raise unhashable
check_type (some (object ms)) response = raise unhashable
check_type _ response = raise wrong_type

-- The keys of a dictionary are asked for a value that can be hashed.
unfoldable pub in_keys : Json → Members → Result Bool
unfolding get_member
in_keys (string k) ms = return (is_some (get_member k ms))
in_keys (array xs) ms = raise unhashable
in_keys (object ns) ms = raise unhashable
in_keys _ ms = return false

abbrev pub not_iterable : Error
not_iterable = type_error "argument is not iterable"

-- The names that `set(schema.get("required", ()))` holds.
unfoldable pub required_names : Option Json → Result (List Json)
required_names none = return []
required_names (some (array xs)) = return (elements xs)
required_names (some (object ms)) = return (map string (keys ms))
required_names (some (string s)) = return (map string (characters s))
required_names _ = raise not_iterable

unfoldable pub names_key : Members → Json → Bool
unfolding get_member
names_key ms (string k) = is_some (get_member k ms)
names_key ms _ = false

abbrev pub is_false : Option Json → Bool
is_false (some (boolean false)) = true
is_false _ = false

unfoldable pub properties_of : Option Json → Result Members
properties_of none = return no_members
properties_of (some (object ps)) = return ps
properties_of _ = raise (value_error "response schema properties must be an object")

unfoldable pub check_extra : Members → Members → Members → Result (Unit {0})
unfolding get_member
check_extra ms properties response =
    check
      (not (is_false (get_member "additionalProperties" ms))
        || all (λ k. is_some (get_member k properties)) (keys response))
      (value_error "response has unexpected fields")

-- The checks of an object's fields, before those of their values.
unfoldable pub check_fields : Members → Members → Result Members
unfolding properties_of required_names names_key check_extra get_member
check_fields ms response = do
  properties ← properties_of (get_member "properties" ms)
  names ← required_names (get_member "required" ms)
  check (all (names_key response) names) (value_error "response is missing required fields")
  check_extra ms properties response
  return properties

module _ (f : Floats) where
  -- `response in schema["enum"]`, also where the schema was not validated.
  unfoldable pub in_enum : Json → Json → Result Bool
  unfolding in_items in_keys
  in_enum (array xs) response = return (in_items f response xs)
  in_enum (string s) (string r) = return (is_some (find? s r))
  in_enum (object ms) response = in_keys response ms
  in_enum _ response = raise not_iterable

  unfoldable pub check_enum : Option Json → Json → Result (Unit {0})
  unfolding in_enum
  check_enum none response = return tt
  check_enum (some e) response = do
    found ← in_enum e response
    check found (value_error "response is not one of the allowed values")

  abbrev pub if_property : Option Json → (Json → Result (Unit {0})) → Result (Unit {0})
  if_property none validate = return tt
  if_property (some s) validate = validate s

  -- A response that passed `check_type` is a dictionary exactly if the expected type is "object".
  unfoldable mutual
    unfolding check_type check_enum check_fields get_member

    pub validate_response : Json → Json → Result (Unit {0})
    validate_response (object ms) (object rs) = do
      check_type (get_member "type" ms) (object rs)
      check_enum (get_member "enum" ms) (object rs)
      properties ← check_fields ms rs
      validate_values properties rs
    validate_response (object ms) response = do
      check_type (get_member "type" ms) response
      check_enum (get_member "enum" ms) response
    validate_response _ response = raise (type_error "response_schema must be an object")

    pub validate_values : Members → Members → Result (Unit {0})
    validate_values properties no_members = return tt
    validate_values properties (member k v rest) = do
      if_property (get_member k properties) (λ s. validate_response s v)
      validate_values properties rest
