-- ===== src/Request/Tools.antt =====
-- The checks on `tools`, `tool_choice`, `stop` and `stream_options` (src/request.rs).
pub mod Declared
pub mod Options
use nano_llm.Common.{
  ℕ, ◌+◌, Text, lit, text_eq, contains, Bool, true, false, not, ◌&&◌, ◌||◌, Option, none, some,
  List, [], ◌∷◌, ◌++◌, leb, ltb, ◌==◌, if◌then◌else◌, is_empty, all, length, Result, ok, err,
  ensure, ◌>>=◌, ◌>>◌,
}
use nano_llm.Json.{JsonValue, values, field}
use nano_llm.Request.Outcome.{Fault, validation, unwrap}
use nano_llm.Request.Shape.{path_member, path_index, quoted, object, array, string, boolean, closed}

abbrev pub type_and_function : List Text
type_and_function = lit "type" ∷ lit "function" ∷ []

tool_name_byte : ℕ → Bool
tool_name_byte b =
    (leb b'0' b && leb b b'9')
    || (leb b'A' b && leb b b'Z')
    || (leb b'a' b && leb b b'z')
    || b == b'_'
    || b == b'-'

-- [A-Za-z0-9_-]{1,64}
unfoldable pub valid_tool_name : Text → Bool
unfolding tool_name_byte
valid_tool_name name = leb 1 (length name) && leb (length name) 64 && all tool_name_byte name

-- The optional members `description` and `parameters`.
unfoldable pub optional_string : Option JsonValue → Text → Text → Result Fault (Unit {0})
optional_string none param path = ok tt
optional_string (some v) param path = string v param path >>= λ _. ok tt

unfoldable pub optional_object : Option JsonValue → Text → Text → Result Fault (Unit {0})
optional_object none param path = ok tt
optional_object (some v) param path = object v param path >>= λ _. ok tt

-- The `function` object of a tool, with the names declared before it: its name.
unfoldable pub validate_tool_function : List Text → JsonValue → Text → Result Fault Text
unfolding optional_string optional_object
validate_tool_function names value path = do
  function ← object value (lit "tools") path
  closed function (lit "name" ∷ lit "description" ∷ lit "parameters" ∷ []) (lit "name" ∷ [])
      (lit "tools") path
  name_value ← unwrap (field function (lit "name"))
  name ← string name_value (lit "tools") (path_member path (lit "name"))
  ensure (valid_tool_name name && not (contains names name)) (
      validation (lit "tools") (
        quoted (path_member path (lit "name"))
          (lit " must be a unique name matching [A-Za-z0-9_-]{1,64}")))
  optional_string (field function (lit "description")) (lit "tools")
      (path_member path (lit "description"))
  optional_object (field function (lit "parameters")) (lit "tools")
      (path_member path (lit "parameters"))
  ok name

-- `matches!(field(fields, "type"), Some(String(kind)) if kind == "function")` after `string`.
unfoldable pub function_kind : JsonValue → Text → Text → Result Fault (Unit {0})
function_kind value param path = do
  kind ← string value param path
  ensure (text_eq kind (lit "function"))
      (validation param (quoted path (lit " must be 'function'")))

unfoldable pub validate_tool : List Text → JsonValue → Text → Result Fault Text
unfolding validate_tool_function function_kind
validate_tool names value path = do
  fields ← object value (lit "tools") path
  closed fields type_and_function type_and_function (lit "tools") path
  kind ← unwrap (field fields (lit "type"))
  function_kind kind (lit "tools") (path_member path (lit "type"))
  function ← unwrap (field fields (lit "function"))
  validate_tool_function names function (path_member path (lit "function"))

unfoldable pub tools_from : ℕ → List Text → List JsonValue → Result Fault (List Text)
unfolding validate_tool
tools_from index names [] = ok names
tools_from index names (value ∷ tools) = do
  name ← validate_tool names value (path_index (lit "tools") index)
  tools_from (index + 1) (names ++ (name ∷ [])) tools

unfoldable pub validate_tools : JsonValue → Result Fault (List Text)
unfolding tools_from
validate_tools value = do
  tools ← array value (lit "tools") (lit "tools")
  ensure (not (is_empty tools)) (validation (lit "tools") (lit "'tools' must be a nonempty array"))
  tools_from 0 [] tools

-- The named function of a tool choice.
unfoldable pub choice_function : JsonValue → List Text → Result Fault (Unit {0})
choice_function value tool_names = do
  function ← object value (lit "tool_choice") (lit "tool_choice.function")
  closed function (lit "name" ∷ []) (lit "name" ∷ []) (lit "tool_choice")
      (lit "tool_choice.function")
  name_value ← unwrap (field function (lit "name"))
  name ← string name_value (lit "tool_choice") (lit "tool_choice.function.name")
  ensure (contains tool_names name)
      (validation (lit "tool_choice") (lit "'tool_choice.function.name' must name a declared tool"))

unfoldable pub named_choice : JsonValue → List Text → Result Fault (Unit {0})
unfolding function_kind choice_function
named_choice value tool_names = do
  fields ← object value (lit "tool_choice") (lit "tool_choice")
  closed fields type_and_function type_and_function (lit "tool_choice") (lit "tool_choice")
  kind ← unwrap (field fields (lit "type"))
  function_kind kind (lit "tool_choice") (lit "tool_choice.type")
  function ← unwrap (field fields (lit "function"))
  choice_function function tool_names

abbrev pub choice_words : List Text
choice_words = lit "none" ∷ lit "auto" ∷ lit "required" ∷ []

unfoldable pub validate_tool_choice : JsonValue → List Text → Result Fault (Unit {0})
unfolding named_choice
validate_tool_choice (JsonValue.string choice) tool_names = ensure (contains choice_words choice) (
    validation (lit "tool_choice")
      (lit "'tool_choice' must be 'none', 'auto', 'required', or a named function"))
validate_tool_choice value tool_names = named_choice value tool_names

unfoldable pub validate_stop_string : Text → Text → Result Fault (Unit {0})
validate_stop_string value path = ensure (not (is_empty value) && leb (length value) 256) (
    validation (lit "stop")
      (quoted path (lit " must be a nonempty string no larger than 256 UTF-8 bytes")))

unfoldable pub stops_from : ℕ → List JsonValue → Result Fault (Unit {0})
unfolding validate_stop_string
stops_from index [] = ok tt
stops_from index (value ∷ stops) = do
  text ← string value (lit "stop") (path_index (lit "stop") index)
  validate_stop_string text (path_index (lit "stop") index)
  stops_from (index + 1) stops

unfoldable pub validate_stop : JsonValue → Result Fault (Unit {0})
unfolding validate_stop_string stops_from
validate_stop (JsonValue.string value) = validate_stop_string value (lit "stop")
validate_stop (JsonValue.array items) = do
  ensure (leb (length (values items)) 4)
      (validation (lit "stop") (lit "'stop' may contain at most four strings"))
  stops_from 0 (values items)
validate_stop _ =
    err (validation (lit "stop") (lit "'stop' must be a string or an array of strings"))

unfoldable pub validate_stream_options : JsonValue → Result Fault (Unit {0})
validate_stream_options value = do
  fields ← object value (lit "stream_options") (lit "stream_options")
  closed fields (lit "include_usage" ∷ []) (lit "include_usage" ∷ []) (lit "stream_options")
      (lit "stream_options")
  usage ← unwrap (field fields (lit "include_usage"))
  boolean usage (lit "stream_options") (lit "stream_options.include_usage") >>= λ _. ok tt
