-- ===== src/Request/Tests.antt =====
-- A request with a tool call and its result, and what the decoder of src/request.rs makes of it.
use nano_llm.Common.{
  String, Text, lit, text_eq, contains, push_new, true, false, some, Option, none, [], ◌∷◌, ◌≡◌,
  refl, is_ok,
}
use nano_llm.Float.{F64}
use nano_llm.Json.{JsonValue, Fields, Members, field, nil, cons, end, member}
use nano_llm.Config.{ProviderKind, RuntimeTarget, RuntimeRoute}
use nano_llm.Request.{CanonicalRequest, ToolChoice}
use nano_llm.Request.Outcome.{Gives}
use nano_llm.Request.Parse.Strings.Ends.{Ends}
use nano_llm.Request.Route.{validate_for_route}
use nano_llm.Request.Route.Routed.{IsRouted, validate_for_route-IsRouted}
use nano_llm.Request.Shape.{path_member, path_index, object, array, string, known, present, closed}
use nano_llm.Request.Tools.{function_kind}
use nano_llm.Request.Turns.{
  validate_call_function, validate_tool_call, calls_from, validate_tool_calls, plain_message,
  precedes_turns, awaits_user, awaits_assistant, awaits_result, instruction_message, user_message,
  is_text, text_or_null, extend, call_turns, assistant_message, remove, tool_message, role_message,
  validate_message, messages_from, validate_messages,
}
use nano_llm.Request.Turns.Accepted.{IsConversation, validate_messages-IsConversation}
use nano_llm.Request.Canonical.{decode_chat_request_fields}
use nano_llm.Request.Canonical.Decoded.{IsDecoded, decode_chat_request_fields-IsDecoded}

abbrev text : String → JsonValue
text s = JsonValue.string (lit s)

abbrev message : String → String → Members → JsonValue
message role content rest =
    JsonValue.object (member (lit "role") (text role) (member (lit "content") (text content) rest))

abbrev lookup : JsonValue
lookup = JsonValue.object (
    member (lit "id") (text "call_a") (
      member (lit "type") (text "function") (
        member (lit "function")
          (JsonValue.object
            (member (lit "name") (text "weather") (member (lit "arguments") (text "{}") end)))
          end)))

abbrev messages : JsonValue
messages = JsonValue.array (
    cons (message "system" "Be brief." end) (
      cons (message "user" "Weather?" end) (
        cons
          (JsonValue.object (
            member (lit "role") (text "assistant")
              (member (lit "tool_calls") (JsonValue.array (cons lookup nil)) end)))
          (cons (message "tool" "Sunny" (member (lit "tool_call_id") (text "call_a") end)) nil))))

abbrev weather : JsonValue
weather = JsonValue.object (
    member (lit "type") (text "function")
      (member (lit "function") (JsonValue.object (member (lit "name") (text "weather") end)) end))

abbrev request : Fields
request =
    (lit "model", text "fast")
    ∷ (lit "messages", messages)
    ∷ (lit "tools", JsonValue.array (cons weather nil))
    ∷ (lit "max_tokens", JsonValue.number (lit "64"))
    ∷ (lit "stop", text "END")
    ∷ []

abbrev no_floats : Text → Option F64
no_floats t = none

-- The conversation passes.
validate_messages_example : is_ok (validate_messages messages (lit "weather" ∷ [])) ≡ true
unfolding validate_messages messages_from validate_message role_message tool_message remove
    assistant_message call_turns extend text_or_null is_text user_message instruction_message
    awaits_result awaits_assistant awaits_user precedes_turns plain_message validate_tool_calls
    calls_from validate_tool_call validate_call_function function_kind closed present known string
    array object path_index path_member text_eq contains push_new field lit
validate_messages_example = refl

validate_messages-IsConversation_example :
    Gives (validate_messages messages (lit "weather" ∷ [])) (λ _. IsConversation messages)
validate_messages-IsConversation_example =
    validate_messages-IsConversation messages (lit "weather" ∷ [])

decode_chat_request_fields-IsDecoded_example :
    Gives (decode_chat_request_fields no_floats request) (IsDecoded request)
decode_chat_request_fields-IsDecoded_example =
    decode_chat_request_fields-IsDecoded no_floats request

abbrev routed : CanonicalRequest
routed = record {
  fields = request;
  model = lit "fast";
  stream = false;
  include_usage = false;
  max_tokens = some 64;
  temperature = none;
  top_p = none;
  stop = some (lit "END" ∷ []);
  tool_choice = ToolChoice.auto;
  instruction = some (lit "Be brief.");
}

abbrev claude : RuntimeTarget
claude = record {
  model = lit "anthropic/claude";
  provider = ProviderKind.anthropic;
  model_suffix = lit "claude";
  api_key = none;
  api_base = lit "https://api.anthropic.com/v1";
  timeout = 30;
  explicit_timeout = none;
}

abbrev route : RuntimeRoute
route = record { model_name = lit "fast"; targets = claude ∷ [] }

validate_for_route-IsRouted_example :
    Ends (λ _. IsRouted routed route) (validate_for_route routed route)
validate_for_route-IsRouted_example = validate_for_route-IsRouted routed route
