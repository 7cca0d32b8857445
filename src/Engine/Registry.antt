-- ===== src/Engine/Registry.antt =====
-- The contract of a tool and the registry, of src/harness/tools/base.py.
use md_harness.Prelude.{
  if◌then◌else◌, is_some, any, ◌==◌, contains, String, Bool, false, not, ◌&&◌, ◌||◌, Option, none,
  some, List, [], ◌∷◌, ◌++◌, nat_eq, string_eq,
}
use md_harness.Effects.{runtime_error, type_error, Result, return, raise}
use md_harness.Sql.{fetchone}
use md_harness.Json.{
  Json, null, boolean, integer, decimal, string, array, object, Items, no_items, item, Members,
  no_members, member, get_member,
}
use md_harness.Text.{parts, is_absolute}
use md_harness.Engine.Errors.{ExecutionErrorType, PermissionLevel, no_details, ToolError}

pub record ToolParameter : Type 0 where
  pub name : String
  pub type : String
  pub required : Bool

pub record Tool : Type 0 where
  pub tool_name : String
  pub permission : PermissionLevel
  pub parameters : List ToolParameter
  pub root : Option String
  pub path : Option String

abbrev pub deny : ExecutionErrorType → Option ToolError
deny kind = some (record { error_type = kind; details = no_details })

-- `set(arguments) - allowed`: some argument has no parameter.
unfoldable pub has_unknown : List ToolParameter → Members → Bool
has_unknown parameters no_members = false
has_unknown parameters (member k value rest) =
    not (any (λ (p : ToolParameter). p.name == k) parameters) || has_unknown parameters rest

unfoldable pub is_missing : Members → ToolParameter → Bool
unfolding get_member
is_missing arguments p = p.required && not (is_some (get_member p.name arguments))

unfoldable pub leaves_workspace : String → Bool
unfolding is_absolute parts
leaves_workspace path = is_absolute path || contains (parts path) ".."

-- `for path in paths`; `Path` of what is no text raises a TypeError.
unfoldable pub check_paths : Items → Result (Option ToolError)
unfolding leaves_workspace
check_paths no_items = return none
check_paths (item (string path) rest) =
    let later = check_paths rest in
    if leaves_workspace path then return (deny ExecutionErrorType.workspace_error) else later
check_paths (item _ rest) = raise (type_error "expected str, bytes or os.PathLike object")

unfoldable pub has_type : String → Json → Bool
has_type type (array xs) = not (contains ("string" ∷ "boolean" ∷ "number" ∷ []) type)
has_type type (string s) = not (contains ("list" ∷ "boolean" ∷ "number" ∷ "list[path]" ∷ []) type)
has_type type (boolean b) = not (contains ("list" ∷ "string" ∷ "number" ∷ "list[path]" ∷ []) type)
has_type type (integer s n) =
    not (contains ("list" ∷ "string" ∷ "boolean" ∷ "list[path]" ∷ []) type)
has_type type (decimal d) = not (contains ("list" ∷ "string" ∷ "boolean" ∷ "list[path]" ∷ []) type)
has_type type null =
    not (contains ("list" ∷ "string" ∷ "boolean" ∷ "number" ∷ "list[path]" ∷ []) type)
has_type type (object ms) =
    not (contains ("list" ∷ "string" ∷ "boolean" ∷ "number" ∷ "list[path]" ∷ []) type)

-- `value if parameter.type == "list[path]" else [value]`
unfoldable pub paths_of : String → Json → Items
paths_of type (array xs) = if type == "list[path]" then xs else item (array xs) no_items
paths_of type value = item value no_items

unfoldable pub check_value : String → Json → Result (Option ToolError)
unfolding has_type check_paths paths_of
check_value type value =
    if not (has_type type value)
    then return (deny ExecutionErrorType.invalid_arguments)
    else if contains ("path" ∷ "list[path]" ∷ []) type
    then check_paths (paths_of type value)
    else return none

abbrev pub first_error :
    Result (Option ToolError) → Result (Option ToolError) → Result (Option ToolError)
first_error (return none) rest = rest
first_error (return (some e)) rest = return (some e)
first_error (raise e) rest = raise e

abbrev pub check_argument : ToolParameter → Option Json → Result (Option ToolError)
check_argument p none = return none
check_argument p (some value) = check_value p.type value

unfoldable pub check_arguments : List ToolParameter → Members → Result (Option ToolError)
unfolding check_value get_member
check_arguments [] arguments = return none
check_arguments (p ∷ rest) arguments =
    first_error (check_argument p (get_member p.name arguments)) (check_arguments rest arguments)

-- `return none` for arguments that pass.
unfoldable pub validate_arguments : Tool → Members → Result (Option ToolError)
unfolding has_unknown is_missing check_arguments
validate_arguments tool arguments =
    if has_unknown tool.parameters arguments || any (is_missing arguments) tool.parameters
    then return (deny ExecutionErrorType.invalid_arguments)
    else check_arguments tool.parameters arguments

-- `_tools`, in the order of registration; `register` refuses a name that is taken.
unfoldable pub register_tool : Tool → List Tool → Result (List Tool)
register_tool tool tools =
    if any (λ (t : Tool). t.tool_name == tool.tool_name) tools
    then raise (runtime_error "tool already registered")
    else return (tools ++ tool ∷ [])

unfoldable pub find_tool : String → List Tool → Option Tool
find_tool name tools = fetchone (λ (t : Tool). t.tool_name == name) tools
