-- ===== src/Request/Route.antt =====
-- What the selected route asks of a request (src/request.rs, validate_for_route).
use nano_llm.Common.{
  ℕ, suc, ◌+◌, Text, lit, decimal, Bool, true, false, not, ◌&&◌, ◌||◌, Option, none, some, List, [],
  ◌∷◌, ◌++◌, any, length, if◌then◌else◌, is_some, is_empty, Result, ok, err, ensure, ◌>>=◌, ◌>>◌,
}
use nano_llm.Json.{JsonValue, Fields, fields_of, values, field}
use nano_llm.Config.{ProviderKind, RuntimeTarget, RuntimeRoute}
use nano_llm.Request.{CanonicalRequest}
use nano_llm.Request.Outcome.{Fault, validation}
use nano_llm.Request.Parse.Strings.{Stop, fault, out_of_fuel, Parse}
use nano_llm.Request.Parse.{ws, value}
pub mod Routed

pub is_anthropic : RuntimeTarget → Bool
is_anthropic target = elim target.provider [ ProviderKind.anthropic ↦ true | _ ↦ false ]

pub needs_objects : RuntimeTarget → Bool
needs_objects target = elim target.provider [
  | ProviderKind.anthropic ↦ true
  | ProviderKind.gemini ↦ true
  | _ ↦ false
]

abbrev panics : {A : Type 0} → Result Stop A
panics = err (fault Fault.panic)

is_object : JsonValue → Bool
is_object (JsonValue.object members) = true
is_object _ = false

no_object : Text → Fault
no_object path =
    validation (lit "messages") (lit "'" ++ path ++ lit "' must contain exactly one JSON object")

-- `map_err` on the parser's answer, and the checks after it.
parsed_object : Text → Parse JsonValue → Result Stop (Unit {0})
unfolding is_object no_object
parsed_object path (ok (v, rest)) = do
  ensure (is_empty (ws rest) && is_object v) (fault (no_object path))
  ok tt
parsed_object path (err (fault (Fault.refused e))) = err (fault (no_object path))
parsed_object path (err (fault Fault.panic)) = panics
parsed_object path (err out_of_fuel) = err out_of_fuel

-- A parser runs on fuel for one more than the bytes of the arguments.
unfoldable pub check_arguments : Text → Text → Result Stop (Unit {0})
unfolding parsed_object
check_arguments path arguments =
    parsed_object path (value (suc (length arguments)) path (some (lit "messages")) (ws arguments))

text_arguments : Text → Option JsonValue → Result Stop (Unit {0})
unfolding check_arguments
text_arguments path (some (JsonValue.string arguments)) = check_arguments path arguments
text_arguments path _ = panics

function_arguments : Text → Option JsonValue → Result Stop (Unit {0})
unfolding text_arguments
function_arguments path (some (JsonValue.object function)) =
    text_arguments path (field (fields_of function) (lit "arguments"))
function_arguments path _ = panics

call_arguments : Text → JsonValue → Result Stop (Unit {0})
unfolding function_arguments
call_arguments path (JsonValue.object call) =
    function_arguments path (field (fields_of call) (lit "function"))
call_arguments path _ = panics

calls_arguments : ℕ → ℕ → List JsonValue → Result Stop (Unit {0})
unfolding call_arguments
calls_arguments message_index call_index [] = ok tt
calls_arguments message_index call_index (call ∷ calls) = do
  call_arguments
      (lit "messages["
        ++ decimal message_index
        ++ lit "].tool_calls["
        ++ decimal call_index
        ++ lit "].function.arguments")
      call
  calls_arguments message_index (call_index + 1) calls

called_arguments : ℕ → Option JsonValue → Result Stop (Unit {0})
unfolding calls_arguments
called_arguments message_index (some (JsonValue.array calls)) =
    calls_arguments message_index 0 (values calls)
called_arguments message_index _ = ok tt

message_arguments : ℕ → JsonValue → Result Stop (Unit {0})
unfolding called_arguments
message_arguments message_index (JsonValue.object message) =
    called_arguments message_index (field (fields_of message) (lit "tool_calls"))
message_arguments message_index _ = panics

messages_arguments : ℕ → List JsonValue → Result Stop (Unit {0})
unfolding message_arguments
messages_arguments message_index [] = ok tt
messages_arguments message_index (message ∷ messages) = do
  message_arguments message_index message
  messages_arguments (message_index + 1) messages

all_arguments : Option JsonValue → Result Stop (Unit {0})
unfolding messages_arguments
all_arguments (some (JsonValue.array messages)) = messages_arguments 0 (values messages)
all_arguments _ = panics

unfoldable pub validate_route_tool_arguments : Fields → Result Stop (Unit {0})
unfolding all_arguments
validate_route_tool_arguments fields = all_arguments (field fields (lit "messages"))

unfoldable pub validate_for_route : CanonicalRequest → RuntimeRoute → Result Stop (Unit {0})
unfolding validate_route_tool_arguments is_anthropic needs_objects
validate_for_route request route = do
  ensure (not (any is_anthropic route.targets && not (is_some request.max_tokens))) (
      fault (
        validation (lit "max_tokens") (
          lit
            "'max_tokens' or 'max_completion_tokens' is required for routes containing Anthropic targets")))
  if any needs_objects route.targets then validate_route_tool_arguments request.fields else ok tt

model_text : Option JsonValue → Result Fault Text
model_text (some (JsonValue.string model)) =
    if is_empty model
    then err (validation (lit "model") (lit "'model' is required and must be a nonempty string"))
    else ok model
model_text _ =
    err (validation (lit "model") (lit "'model' is required and must be a nonempty string"))

unfoldable pub requested_model : Fields → Result Fault Text
unfolding model_text
requested_model fields = model_text (field fields (lit "model"))
