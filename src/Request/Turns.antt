-- ===== src/Request/Turns.antt =====
-- The turns of a conversation (src/request.rs, validate_messages and validate_tool_calls).
pub mod Steps
pub mod Accepted
pub mod Contents
use nano_llm.Common.{
  ℕ, ◌+◌, Text, lit, text_eq, contains, push_new, Bool, true, false, not, ◌&&◌, ◌||◌, Option, none,
  some, List, [], ◌∷◌, ◌++◌, if◌then◌else◌, is_empty, is_some, Result, ok, err, ok_or, ensure,
  ◌>>=◌, ◌>>◌,
}
use nano_llm.Json.{JsonValue, Fields, values, field}
use nano_llm.Request.Outcome.{Fault, validation, unwrap}
use nano_llm.Request.Shape.{path_member, path_index, quoted, object, array, string, closed}
use nano_llm.Request.Tools.{function_kind}

pub data TurnState : Type 0 where
  instruction after_user after_assistant tool_results after_tool_result : TurnState

-- The local variables of validate_messages, the two sets as lists.
pub record Turns : Type 0 where
  pub state : TurnState
  pub call_ids : List Text
  pub unresolved : List Text

abbrev pub invalid_at : Text → Text → Fault
invalid_at path rest = validation (lit "messages") (quoted path rest)

abbrev pub id_type_function : List Text
id_type_function = lit "id" ∷ lit "type" ∷ lit "function" ∷ []

abbrev pub name_arguments : List Text
name_arguments = lit "name" ∷ lit "arguments" ∷ []

unfoldable pub validate_call_function : JsonValue → Text → Text → Result Fault Text
validate_call_function value param path = do
  fields ← object value param path
  closed fields name_arguments name_arguments param path
  name_value ← unwrap (field fields (lit "name"))
  name ← string name_value param (path_member path (lit "name"))
  arguments_value ← unwrap (field fields (lit "arguments"))
  arguments ← string arguments_value param (path_member path (lit "arguments"))
  ok name

-- One call, with the identifiers seen before it: its own.
unfoldable pub validate_tool_call : JsonValue → Text → List Text → List Text → Result Fault Text
unfolding validate_call_function
validate_tool_call value path tool_names call_ids = do
  fields ← object value (lit "messages") path
  closed fields id_type_function id_type_function (lit "messages") path
  id_value ← unwrap (field fields (lit "id"))
  id ← string id_value (lit "messages") (path_member path (lit "id"))
  ensure (not (is_empty id) && not (contains call_ids id))
      (invalid_at (path_member path (lit "id")) (lit " must be a globally unique nonempty call ID"))
  kind ← unwrap (field fields (lit "type"))
  function_kind kind (lit "messages") (path_member path (lit "type"))
  function ← unwrap (field fields (lit "function"))
  name ← validate_call_function function (lit "messages") (path_member path (lit "function"))
  ensure (contains tool_names name)
      (invalid_at (path ++ lit ".function.name") (lit " must name a declared tool"))
  ok id

-- The identifiers of the calls, and all that have been seen after them.
unfoldable pub calls_from :
    ℕ → List JsonValue → Text → List Text → List Text → Result Fault (List Text × List Text)
unfolding validate_tool_call
calls_from index [] parent tool_names call_ids = ok ([], call_ids)
calls_from index (value ∷ calls) parent tool_names call_ids = do
  id ←
      validate_tool_call value (path_index (path_member parent (lit "tool_calls")) index) tool_names
        call_ids
  rest ← calls_from (index + 1) calls parent tool_names (id ∷ call_ids)
  ok (id ∷ rest.0, rest.1)

unfoldable pub validate_tool_calls :
    JsonValue → Text → List Text → List Text → Result Fault (List Text × List Text)
unfolding calls_from
validate_tool_calls value parent tool_names call_ids = do
  calls ← array value (lit "messages") (path_member parent (lit "tool_calls"))
  ensure (not (is_empty calls))
      (validation (lit "messages") (lit "'" ++ parent ++ lit ".tool_calls' must be nonempty"))
  calls_from 0 calls parent tool_names call_ids

abbrev pub role_content : List Text
role_content = lit "role" ∷ lit "content" ∷ []

-- closed, and `content` is a string: system, developer and user messages.
unfoldable pub plain_message : Fields → Text → Result Fault (Unit {0})
plain_message fields path = do
  closed fields role_content role_content (lit "messages") path
  content_value ← unwrap (field fields (lit "content"))
  content ← string content_value (lit "messages") (path_member path (lit "content"))
  ok tt

unfoldable pub precedes_turns : TurnState → Bool
precedes_turns TurnState.instruction = true
precedes_turns _ = false

unfoldable pub awaits_user : TurnState → Bool
awaits_user TurnState.instruction = true
awaits_user TurnState.after_assistant = true
awaits_user _ = false

unfoldable pub awaits_assistant : TurnState → Bool
awaits_assistant TurnState.after_user = true
awaits_assistant TurnState.after_tool_result = true
awaits_assistant _ = false

unfoldable pub awaits_result : TurnState → Bool
awaits_result TurnState.tool_results = true
awaits_result TurnState.after_tool_result = true
awaits_result _ = false

unfoldable pub instruction_message : Fields → Text → Turns → Result Fault Turns
unfolding plain_message precedes_turns
instruction_message fields path turns = do
  plain_message fields path
  ensure (precedes_turns turns.state)
      (invalid_at (path ++ lit ".role") (lit " instructions must precede conversation turns"))
  ok turns

unfoldable pub user_message : Fields → Text → Turns → Result Fault Turns
unfolding plain_message awaits_user
user_message fields path turns = do
  plain_message fields path
  ensure (awaits_user turns.state)
      (validation (lit "messages") (lit "unexpected user message at '" ++ path ++ lit "'"))
  ok (record turns { state = TurnState.after_user })

unfoldable pub is_text : Option JsonValue → Bool
is_text (some (JsonValue.string text)) = true
is_text _ = false

unfoldable pub text_or_null : Option JsonValue → Bool
text_or_null none = true
text_or_null (some (JsonValue.string text)) = true
text_or_null (some JsonValue.null) = true
text_or_null _ = false

-- HashSet::extend
unfoldable pub extend : List Text → List Text → List Text
extend unresolved [] = unresolved
extend unresolved (id ∷ ids) = push_new id (extend unresolved ids)

unfoldable pub call_turns : Option JsonValue → Text → List Text → Turns → Result Fault Turns
unfolding validate_tool_calls extend
call_turns none path tool_names turns = ok turns
call_turns (some calls) path tool_names turns = do
  seen ← validate_tool_calls calls path tool_names turns.call_ids
  ok (record turns { call_ids = seen.1; unresolved = extend turns.unresolved seen.0 })

unfoldable pub assistant_message : Fields → Text → List Text → Turns → Result Fault Turns
unfolding is_text text_or_null call_turns awaits_assistant
assistant_message fields path tool_names turns = do
  closed fields (lit "role" ∷ lit "content" ∷ lit "tool_calls" ∷ []) (lit "role" ∷ [])
      (lit "messages") path
  ensure (text_or_null (field fields (lit "content")))
      (invalid_at (path ++ lit ".content") (lit " must be a string or null"))
  called ← call_turns (field fields (lit "tool_calls")) path tool_names turns
  ensure (is_text (field fields (lit "content")) || is_some (field fields (lit "tool_calls")))
      (invalid_at path (lit " must contain string content and/or nonempty tool_calls"))
  ensure (awaits_assistant turns.state)
      (validation (lit "messages") (lit "unexpected assistant message at '" ++ path ++ lit "'"))
  ok (record called {
    state =
        if is_some (field fields (lit "tool_calls"))
        then TurnState.tool_results
        else TurnState.after_assistant;
  })

-- HashSet::remove
unfoldable pub remove : Text → List Text → List Text
remove k [] = []
remove k (x ∷ xs) = if text_eq x k then xs else x ∷ remove k xs

abbrev pub role_id_content : List Text
role_id_content = lit "role" ∷ lit "tool_call_id" ∷ lit "content" ∷ []

unfoldable pub tool_message : Fields → Text → Turns → Result Fault Turns
unfolding awaits_result remove
tool_message fields path turns = do
  closed fields role_id_content role_id_content (lit "messages") path
  id_value ← unwrap (field fields (lit "tool_call_id"))
  id ← string id_value (lit "messages") (path_member path (lit "tool_call_id"))
  ensure (awaits_result turns.state)
      (validation (lit "messages") (lit "unexpected tool result at '" ++ path ++ lit "'"))
  ensure (contains turns.unresolved id) (
      invalid_at (path ++ lit ".tool_call_id")
        (lit " does not resolve an immediately preceding call"))
  content_value ← unwrap (field fields (lit "content"))
  content ← string content_value (lit "messages") (path_member path (lit "content"))
  ok (record turns {
    unresolved = remove id turns.unresolved;
    state =
        if is_empty (remove id turns.unresolved)
        then TurnState.after_tool_result
        else TurnState.tool_results;
  })

unfoldable pub role_message : Text → Fields → Text → List Text → Turns → Result Fault Turns
unfolding instruction_message user_message assistant_message tool_message
role_message role fields path tool_names turns =
    if text_eq role (lit "system") || text_eq role (lit "developer")
    then instruction_message fields path turns
    else if text_eq role (lit "user")
    then user_message fields path turns
    else if text_eq role (lit "assistant")
    then assistant_message fields path tool_names turns
    else if text_eq role (lit "tool")
    then tool_message fields path turns
    else err (validation (lit "messages") (lit "unsupported role at '" ++ path ++ lit ".role'"))

unfoldable pub validate_message : JsonValue → Text → List Text → Turns → Result Fault Turns
unfolding role_message
validate_message value path tool_names turns = do
  fields ← object value (lit "messages") path
  role_value ←
      ok_or (field fields (lit "role"))
        (validation (lit "messages") (lit "missing required member 'role' at '" ++ path ++ lit "'"))
  role ← string role_value (lit "messages") (path_member path (lit "role"))
  role_message role fields path tool_names turns

-- The loop and the check after it.
unfoldable pub messages_from : ℕ → List JsonValue → List Text → Turns → Result Fault (Unit {0})
unfolding validate_message awaits_assistant
messages_from index [] tool_names turns =
    ensure (awaits_assistant turns.state)
      (validation (lit "messages") (lit "'messages' must end on a user-side turn"))
messages_from index (value ∷ messages) tool_names turns = do
  next ← validate_message value (path_index (lit "messages") index) tool_names turns
  messages_from (index + 1) messages tool_names next

abbrev pub first_turn : Turns
first_turn = record { state = TurnState.instruction; call_ids = []; unresolved = [] }

unfoldable pub validate_messages : JsonValue → List Text → Result Fault (Unit {0})
unfolding messages_from
validate_messages value tool_names = do
  messages ← array value (lit "messages") (lit "messages")
  ensure (not (is_empty messages))
      (validation (lit "messages") (lit "'messages' must be a nonempty array"))
  messages_from 0 messages tool_names first_turn
