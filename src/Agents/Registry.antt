-- ===== src/Agents/Registry.antt =====
-- AgentProfile and AgentRegistry of src/harness/agents/registry.py. AgentProfileError is a ValueError.
pub mod Profiles
pub mod Selection
use md_harness.Prelude.{
  if◌then◌else◌, ◌==◌, contains, ltb, ℕ, String, Bool, true, false, not, ◌&&◌, Option, none, some,
  List, [], ◌∷◌, nat_eq, string_eq,
}
use md_harness.Effects.{Error, value_error, Result, return, raise}
use md_harness.Effects.Checks.{◌>>=◌, ◌>>◌, check}
use md_harness.Sql.{fetchone}
use md_harness.Json.{
  Json, boolean, integer, string, array, object, Items, no_items, item, Members, no_members, member,
  get_member, elements,
}
use md_harness.Text.{is_blank}

pub record AgentProfile : Type 0 where
  pub name : String
  pub version : ℕ
  pub instructions : String
  pub task_types : List String
  pub tools : List String
  pub model : String
  pub max_steps : ℕ
  pub enabled : Bool

-- `isinstance(value, str) and value.strip()`
abbrev pub required_text : Json → Error → Result String
required_text (string s) e = if is_blank s then raise e else return s
required_text _ e = raise e

-- An int, no bool, that is 1 at least.
abbrev pub required_positive : Json → Error → Result ℕ
required_positive (integer false n) e = if ltb n 1 then raise e else return n
required_positive _ e = raise e

abbrev pub with_text : String → Option (List String) → Option (List String)
with_text s none = none
with_text s (some ss) = if s == "" then none else some (s ∷ ss)

unfoldable pub texts_of : Items → Option (List String)
texts_of no_items = some []
texts_of (item (string s) rest) = with_text s (texts_of rest)
texts_of (item _ rest) = none

abbrev pub some_texts : Option (List String) → Error → Result (List String)
some_texts none e = raise e
some_texts (some []) e = raise e
some_texts (some (s ∷ ss)) e = return (s ∷ ss)

-- `value and all(isinstance(v, str) and v for v in value)`
abbrev pub required_texts : Items → Error → Result (List String)
required_texts values e = some_texts (texts_of values) e

abbrev pub required_bool : Json → Error → Result Bool
required_bool (boolean b) e = return b
required_bool _ e = raise e

-- `len(set(names)) == len(names)`
abbrev pub distinct : List String → Bool
distinct [] = true
distinct (x ∷ xs) = not (contains xs x) && distinct xs

abbrev pub name_empty : Error
name_empty = value_error "agent name must not be empty"

abbrev pub version_wrong : Error
version_wrong = value_error "agent version must be positive"

abbrev pub texts_required : Error
texts_required = value_error "agent instructions and model are required"

-- `AgentProfile.__post_init__`, on the values that were given.
unfoldable pub agent_profile :
    Json → Json → Json → Items → Items → Json → Json → Json → Result AgentProfile
unfolding is_blank texts_of
agent_profile name version instructions task_types tools model max_steps enabled = do
  given_name ← required_text name name_empty
  given_version ← required_positive version version_wrong
  given_instructions ← required_text instructions texts_required
  given_model ← required_text model texts_required
  types ← required_texts task_types (value_error "agent task_types must be non-empty strings")
  names ← required_texts tools (value_error "agent tools must be non-empty strings")
  check (distinct names) (value_error "agent tools must be unique")
  steps ← required_positive max_steps (value_error "agent max_steps must be positive")
  is_enabled ← required_bool enabled (value_error "agent enabled must be a boolean")
  return (record {
    name = given_name;
    version = given_version;
    instructions = given_instructions;
    task_types = types;
    tools = names;
    model = given_model;
    max_steps = steps;
    enabled = is_enabled;
  })

abbrev pub items_in : Option Json → Error → Result Items
items_in (some (array xs)) e = return xs
items_in _ e = raise e

abbrev pub fields_wrong : Error
fields_wrong = value_error "invalid agent profile fields"

-- `data[key]`
abbrev pub value_in : Option Json → Result Json
value_in none = raise fields_wrong
value_in (some value) = return value

-- `data.get(key, default)`
abbrev pub value_or : Json → Option Json → Json
value_or default none = default
value_or default (some value) = value

unfoldable pub profile_from_mapping : Json → Result AgentProfile
unfolding agent_profile get_member
profile_from_mapping (object given) = do
  task_types ←
      items_in (get_member "task_types" given)
        (value_error "agent task_types and tools must be lists")
  tools ←
      items_in (get_member "tools" given) (value_error "agent task_types and tools must be lists")
  name ← value_in (get_member "name" given)
  version ← value_in (get_member "version" given)
  instructions ← value_in (get_member "instructions" given)
  model ← value_in (get_member "model" given)
  agent_profile name version instructions task_types tools model
      (value_or (integer false 8) (get_member "max_steps" given))
      (value_or (boolean true) (get_member "enabled" given))
profile_from_mapping _ = raise (value_error "agent profile must be a mapping")

abbrev pub text_items : List String → Items
text_items [] = no_items
text_items (s ∷ ss) = item (string s) (text_items ss)

-- The value that the text `payload` of `fingerprint` encodes, with its keys in order: `json.dumps`
-- writes the tuples of the profile as arrays.
unfoldable pub payload : AgentProfile → Json
payload p = object (
    member "enabled" (boolean p.enabled) (
      member "instructions" (string p.instructions) (
        member "max_steps" (integer false p.max_steps) (
          member "model" (string p.model) (
            member "name" (string p.name) (
              member "task_types" (array (text_items p.task_types)) (
                member "tools" (array (text_items p.tools))
                  (member "version" (integer false p.version) no_members))))))))

abbrev pub names_of : List AgentProfile → List String
names_of [] = []
names_of (p ∷ ps) = p.name ∷ names_of ps

-- AgentRegistry.__init__; the dict has the profiles in their order.
unfoldable pub agent_registry : List AgentProfile → Result (List AgentProfile)
agent_registry profiles = do
  check (distinct (names_of profiles)) (value_error "duplicate agent profile name")
  return profiles

-- `profile.enabled and task_type in profile.task_types`
abbrev pub serves : String → AgentProfile → Bool
serves task_type p = p.enabled && contains p.task_types task_type

abbrev pub named_agent : String → AgentProfile → Bool
named_agent name p = p.name == name

abbrev pub available : Option AgentProfile → String → Error → Result AgentProfile
available none task_type e = raise e
available (some p) task_type e = if serves task_type p then return p else raise e

abbrev pub first_serving : Option AgentProfile → Error → Result AgentProfile
first_serving none e = raise e
first_serving (some p) e = return p

abbrev pub unavailable : Error
unavailable = value_error "assigned agent is unavailable"

abbrev pub no_agent : Error
no_agent = value_error "no enabled agent for task type"

unfoldable pub select : List AgentProfile → String → Option String → Result AgentProfile
select profiles task_type (some assigned) =
    available (fetchone (named_agent assigned) profiles) task_type unavailable
select profiles task_type none = first_serving (fetchone (serves task_type) profiles) no_agent
