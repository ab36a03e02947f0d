-- ===== src/OpenAiCompatible/Native.antt =====
-- What the upstream sends (src/openai_compatible.rs): completions, stream events and their parts.
-- A missing or misshapen member is an invalid response.
pub mod Invalid
use nano_llm.Common.{
  ℕ, Text, lit, text_eq, Bool, true, false, not, Option, none, some, List, [], ◌∷◌, any,
  if◌then◌else◌, is_empty, Result, ok, err, ok_or, ensure, ◌>>=◌, ◌>>◌,
}
use nano_llm.Json.{JsonValue, Fields, fields_of, values, field}
use nano_llm.Request.Outcome.{Fault}
use nano_llm.Request.Parse.Strings.{Stop, fault}
use nano_llm.Request.Parse.{decode_json_object}
use nano_llm.Request.Canonical.{fractional_byte, parse_unsigned}
use nano_llm.Config.{ProviderKind}
use nano_llm.Provider.{TargetError, TargetErrorKind, new, invalid}
use nano_llm.Response.{
  ResponseError, NativeTerminal, Usage, NativeToolCall, NativeChoice, NativeResponse, to_u64,
  normalize_usage,
}
use nano_llm.Response.Stream.{ToolCallDelta, AssistantDelta}

-- What stands in the place of a value: an error of the target, or a panic of the JSON parser.
pub data Trouble : Type 0 where
  raised : TargetError → Trouble
  panicked : Trouble

abbrev pub Native : Type 0 → Type 0
Native A = Result Trouble A

abbrev pub bad : Trouble
bad = raised invalid

unfoldable pub response_error : ResponseError → TargetError
unfolding new
response_error ResponseError.overloaded = new TargetErrorKind.overloaded none
response_error (ResponseError.invalid_response _) = invalid

unfoldable pub required : Fields → Text → Native JsonValue
required fields name = ok_or (field fields name) bad

unfoldable pub object : JsonValue → Native Fields
object (JsonValue.object members) = ok (fields_of members)
object _ = err bad

unfoldable pub array : JsonValue → Native (List JsonValue)
array (JsonValue.array items) = ok (values items)
array _ = err bad

unfoldable pub string : JsonValue → Native Text
string (JsonValue.string text) = ok text
string _ = err bad

-- str::parse::<u64>
unfoldable pub unsigned : JsonValue → Native ℕ
unfolding fractional_byte parse_unsigned to_u64
unsigned (JsonValue.number text) = do
  ensure (not (any fractional_byte text)) bad
  ok_or (to_u64 (parse_unsigned text)) bad
unsigned _ = err bad

-- `unsigned(value).ok()`
unsigned_optional : Option JsonValue → Option ℕ
unfolding unsigned
unsigned_optional none = none
unsigned_optional (some value) = elim (unsigned value) [ ok n ↦ some n | err _ ↦ none ]

-- Usage that is not well formed is left out.
unfoldable pub parse_usage : JsonValue → Option Usage
unfolding unsigned_optional normalize_usage
parse_usage (JsonValue.object members) =
    normalize_usage (unsigned_optional (field (fields_of members) (lit "prompt_tokens")))
      (unsigned_optional (field (fields_of members) (lit "completion_tokens")))
parse_usage _ = none

is_deepseek : ProviderKind → Bool
is_deepseek ProviderKind.deepseek = true
is_deepseek _ = false

unfoldable pub terminal : Text → ProviderKind → NativeTerminal
unfolding is_deepseek
terminal reason provider =
    if text_eq reason (lit "stop")
    then NativeTerminal.stop
    else if text_eq reason (lit "length")
    then NativeTerminal.length
    else if text_eq reason (lit "tool_calls")
    then NativeTerminal.tool_calls
    else if text_eq reason (lit "content_filter")
    then NativeTerminal.content_filter
    else if text_eq reason (lit "insufficient_system_resource")
    then (if is_deepseek provider then NativeTerminal.overloaded else NativeTerminal.unknown)
    else NativeTerminal.unknown

-- A member that may be missing and is a text otherwise.
unfoldable pub optional_string : Option JsonValue → Native (Option Text)
optional_string none = ok none
optional_string (some (JsonValue.string text)) = ok (some text)
optional_string (some _) = err bad

-- A member that is missing or is that text.
unfoldable pub optional_word : Text → Option JsonValue → Native (Option Text)
optional_word word none = ok none
optional_word word (some (JsonValue.string text)) =
    if text_eq text word then ok (some word) else err bad
optional_word word (some _) = err bad

-- A member that has to be that text.
unfoldable pub expect_word : Text → Option JsonValue → Native (Unit {0})
expect_word word (some (JsonValue.string text)) = ensure (text_eq text word) bad
expect_word word _ = err bad

-- The content, where null says none.
unfoldable pub content_of : Option JsonValue → Native (Option Text)
unfolding optional_string
content_of (some JsonValue.null) = ok none
content_of value = optional_string value

-- `values.iter().map(parse).collect()`
unfoldable pub each : {A : Type 0} → (JsonValue → Native A) → List JsonValue → Native (List A)
each parse [] = ok []
each parse (value ∷ items) = do parsed ← parse value; rest ← each parse items; ok (parsed ∷ rest)

-- The member `tool_calls`: it may be missing, but is not empty.
unfoldable pub calls_of : {A : Type 0} → (JsonValue → Native A) → Option JsonValue → Native (List A)
unfolding array each
calls_of parse none = ok []
calls_of parse (some value) = do
  calls ← array value
  ensure (not (is_empty calls)) bad
  each parse calls

unfoldable pub parse_tool_call : JsonValue → Native NativeToolCall
unfolding object required string optional_string expect_word
parse_tool_call value = do
  call ← object value
  id ← optional_string (field call (lit "id"))
  expect_word (lit "function") (field call (lit "type"))
  member ← required call (lit "function")
  function ← object member
  named ← required function (lit "name")
  name ← string named
  given ← required function (lit "arguments")
  arguments ← string given
  ok (record { id = id; name = name; arguments = arguments })

-- Null is no terminal condition of a completed choice.
finish_of : ProviderKind → JsonValue → Native NativeTerminal
unfolding terminal
finish_of provider (JsonValue.string reason) = ok (terminal reason provider)
finish_of provider JsonValue.null = ok NativeTerminal.invalid
finish_of provider _ = err bad

unfoldable pub parse_choice : ProviderKind → JsonValue → Native NativeChoice
unfolding object required unsigned expect_word content_of calls_of parse_tool_call finish_of
parse_choice provider value = do
  choice ← object value
  place ← required choice (lit "index")
  index ← unsigned place
  said ← required choice (lit "message")
  message ← object said
  expect_word (lit "assistant") (field message (lit "role"))
  content ← content_of (field message (lit "content"))
  calls ← calls_of parse_tool_call (field message (lit "tool_calls"))
  reason ← required choice (lit "finish_reason")
  finish ← finish_of provider reason
  ok (record { index = index; content = content; calls = calls; terminal = finish })

usage_of : Option JsonValue → Option Usage
unfolding parse_usage
usage_of none = none
usage_of (some JsonValue.null) = none
usage_of (some value) = parse_usage value

-- The error of the parser is replaced, its panic is not. No call runs out of fuel, as each has fuel
-- for one more than the bytes.
unfoldable pub native_error : Stop → Trouble
native_error (fault Fault.panic) = panicked
native_error _ = bad

unfoldable pub native_object : ℕ → Text → Native Fields
unfolding native_error
native_object fuel bytes = elim (decode_json_object fuel bytes) [
  | ok fields ↦ ok fields
  | err e ↦ err (native_error e)
]

unfoldable pub parse_response : ℕ → ProviderKind → Text → Native NativeResponse
unfolding native_object required array each parse_choice usage_of
parse_response fuel provider bytes = do
  root ← native_object fuel bytes
  member ← required root (lit "choices")
  choices ← array member
  native_choices ← each (parse_choice provider) choices
  ok (record { choices = native_choices; usage = usage_of (field root (lit "usage")) })

-- The name and the arguments of the member `function`.
function_of : Option JsonValue → Native (Option Text × Option Text)
unfolding object optional_string
function_of none = ok (none, none)
function_of (some value) = do
  function ← object value
  name ← optional_string (field function (lit "name"))
  arguments ← optional_string (field function (lit "arguments"))
  ok (name, arguments)

-- A usize has 64 bits.
unfoldable pub parse_stream_tool_call : JsonValue → Native ToolCallDelta
unfolding object required unsigned optional_string optional_word function_of
parse_stream_tool_call value = do
  call ← object value
  place ← required call (lit "index")
  index ← unsigned place
  id ← optional_string (field call (lit "id"))
  kind ← optional_word (lit "function") (field call (lit "type"))
  (name, arguments) ← function_of (field call (lit "function"))
  ok (record { index = index; id = id; kind = kind; name = name; arguments = arguments })

-- Null is no terminal condition yet.
stream_finish_of : ProviderKind → JsonValue → Native (Option NativeTerminal)
unfolding terminal
stream_finish_of provider JsonValue.null = ok none
stream_finish_of provider (JsonValue.string reason) = ok (some (terminal reason provider))
stream_finish_of provider _ = err bad

abbrev pub StreamChoice : Type 0
StreamChoice = ℕ × AssistantDelta × Option NativeTerminal

unfoldable pub parse_stream_choice : ProviderKind → JsonValue → Native StreamChoice
unfolding object required unsigned optional_word content_of calls_of parse_stream_tool_call
    stream_finish_of
parse_stream_choice provider value = do
  choice ← object value
  place ← required choice (lit "index")
  index ← unsigned place
  changed ← required choice (lit "delta")
  delta ← object changed
  role ← optional_word (lit "assistant") (field delta (lit "role"))
  content ← content_of (field delta (lit "content"))
  tool_calls ← calls_of parse_stream_tool_call (field delta (lit "tool_calls"))
  reason ← required choice (lit "finish_reason")
  finish ← stream_finish_of provider reason
  ok (index, record { role = role; content = content; tool_calls = tool_calls }, finish)
