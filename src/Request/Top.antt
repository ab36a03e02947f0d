-- ===== src/Request/Top.antt =====
-- The checks on a whole request (src/request.rs, validate_top).
pub mod Valid
use nano_llm.Common.{
  Text, lit, contains, Bool, true, false, not, ◌&&◌, Option, none, some, List, [], ◌∷◌, ◌++◌,
  is_empty, is_some, Result, ok, err, ensure, ◌>>=◌, ◌>>◌,
}
use nano_llm.Json.{JsonValue, Fields, field}
use nano_llm.Request.Outcome.{Fault, validation, unwrap}
use nano_llm.Request.Shape.{string, boolean, number}
use nano_llm.Request.Tools.{
  validate_tools, validate_tool_choice, validate_stop, validate_stream_options,
}
use nano_llm.Request.Turns.{validate_messages}

abbrev pub top_members : List Text
top_members =
    lit "model"
    ∷ lit "messages"
    ∷ lit "stream"
    ∷ lit "stream_options"
    ∷ lit "max_tokens"
    ∷ lit "max_completion_tokens"
    ∷ lit "temperature"
    ∷ lit "top_p"
    ∷ lit "stop"
    ∷ lit "tools"
    ∷ lit "tool_choice"
    ∷ []

unfoldable pub top_known : Fields → Result Fault (Unit {0})
top_known [] = ok tt
top_known ((key, value) ∷ fields) = do
  ensure (contains top_members key)
      (validation key (lit "unknown top-level member '" ++ key ++ lit "'"))
  top_known fields

unfoldable pub top_present : Fields → List Text → Result Fault (Unit {0})
top_present fields [] = ok tt
top_present fields (key ∷ keys) = do
  ensure (is_some (field fields key))
      (validation key (lit "missing required top-level member '" ++ key ++ lit "'"))
  top_present fields keys

unfoldable pub declared_names : Option JsonValue → Result Fault (List Text)
declared_names (some value) = validate_tools value
declared_names none = ok []

unfoldable pub streams : Option JsonValue → Result Fault Bool
streams (some value) = boolean value (lit "stream") (lit "stream")
streams none = ok false

unfoldable pub check_stream_options : Option JsonValue → Bool → Result Fault (Unit {0})
check_stream_options none stream = ok tt
check_stream_options (some value) stream = do
  ensure stream (
      validation (lit "stream_options")
        (lit "'stream_options' is allowed only when 'stream' is true"))
  validate_stream_options value

unfoldable pub check_tool_choice : Option JsonValue → List Text → Result Fault (Unit {0})
check_tool_choice none tool_names = ok tt
check_tool_choice (some value) tool_names = do
  ensure (not (is_empty tool_names))
      (validation (lit "tool_choice") (lit "'tool_choice' requires at least one declared tool"))
  validate_tool_choice value tool_names

unfoldable pub check_number : Option JsonValue → Text → Result Fault (Unit {0})
check_number none key = ok tt
check_number (some value) key = number value key key

unfoldable pub check_stop : Option JsonValue → Result Fault (Unit {0})
check_stop none = ok tt
check_stop (some value) = validate_stop value

abbrev pub both_limits : Fault
both_limits =
    validation (lit "max_tokens")
      (lit "'max_tokens' and 'max_completion_tokens' cannot both be supplied")

-- The numeric members and the stop sequences.
unfoldable pub validate_limits : Fields → Result Fault (Unit {0})
unfolding check_number check_stop
validate_limits fields = do
  check_number (field fields (lit "max_tokens")) (lit "max_tokens")
  check_number (field fields (lit "max_completion_tokens")) (lit "max_completion_tokens")
  check_number (field fields (lit "temperature")) (lit "temperature")
  check_number (field fields (lit "top_p")) (lit "top_p")
  ensure
      (not (
        is_some (field fields (lit "max_tokens"))
        && is_some (field fields (lit "max_completion_tokens"))))
      both_limits
  check_stop (field fields (lit "stop"))

unfoldable pub validate_top : Fields → Result Fault (Unit {0})
unfolding top_known top_present declared_names streams check_stream_options check_tool_choice
    validate_limits
validate_top fields = do
  top_known fields
  top_present fields (lit "model" ∷ lit "messages" ∷ [])
  model_value ← unwrap (field fields (lit "model"))
  model ← string model_value (lit "model") (lit "model")
  tool_names ← declared_names (field fields (lit "tools"))
  messages ← unwrap (field fields (lit "messages"))
  validate_messages messages tool_names
  stream ← streams (field fields (lit "stream"))
  check_stream_options (field fields (lit "stream_options")) stream
  check_tool_choice (field fields (lit "tool_choice")) tool_names
  validate_limits fields
