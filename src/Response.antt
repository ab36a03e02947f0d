-- ===== src/Response.antt =====
-- The canonical response of src/response.rs: its data, usage counts, finish reasons and the rules
-- on tool calls that buffered and streamed answers share.
mod Tests
pub mod Outcome
pub mod Ids
pub mod Buffered
pub mod Stream
use nano_llm.Common.{
  ℕ, ◌+◌, ◌^◌, Text, lit, text_eq, contains, Bool, true, false, not, xor, ◌&&◌, ◌||◌, Option, none,
  some, List, [], ◌∷◌, ltb, ◌==◌, if◌then◌else◌, is_some, is_empty, any, Result, ok, err, ensure,
  ◌>>=◌, ◌>>◌,
}
use nano_llm.Json.{JsonValue, values, fields_of, field}
use nano_llm.Request.{CanonicalRequest, ToolChoice}

pub data ResponseError : Type 0 where
  invalid_response : Text → ResponseError
  overloaded : ResponseError

pub data FinishReason : Type 0 where
  stop length tool_calls content_filter : FinishReason

pub data NativeTerminal : Type 0 where
  stop length tool_calls content_filter unknown overloaded invalid : NativeTerminal

pub record Usage : Type 0 where
  pub prompt_tokens : ℕ
  pub completion_tokens : ℕ
  pub total_tokens : ℕ

abbrev pub u64_limit : ℕ
u64_limit = 2 ^ 64

-- u64::try_from
unfoldable pub to_u64 : Option ℕ → Option ℕ
to_u64 none = none
to_u64 (some n) = if ltb n u64_limit then some n else none

-- u64::checked_add
unfoldable pub checked_add : ℕ → ℕ → Option ℕ
checked_add a b = if ltb (a + b) u64_limit then some (a + b) else none

unfoldable pub usage_of : Option ℕ → Option ℕ → Option Usage
unfolding checked_add
usage_of (some prompt) (some completion) = elim (checked_add prompt completion) [
  | none ↦ none
  | some total ↦
      some (record { prompt_tokens = prompt; completion_tokens = completion; total_tokens = total })
]
usage_of (some prompt) none = none
usage_of none _ = none

unfoldable pub normalize_usage : Option ℕ → Option ℕ → Option Usage
unfolding to_u64 usage_of
normalize_usage prompt_tokens completion_tokens =
    usage_of (to_u64 prompt_tokens) (to_u64 completion_tokens)

abbrev pub sum_is : Option ℕ → ℕ → Bool
sum_is none total = false
sum_is (some sum) total = sum == total

unfoldable pub valid_usage : Usage → Option Usage
unfolding checked_add
valid_usage usage =
    if sum_is (checked_add usage.prompt_tokens usage.completion_tokens) usage.total_tokens
    then some usage
    else none

pub record ResponseMetadata : Type 0 where
  pub id : Text
  pub created : ℕ

pub record FunctionCall : Type 0 where
  pub name : Text
  pub arguments : Text

pub record ToolCall : Type 0 where
  pub id : Text
  pub kind : Text
  pub function : FunctionCall

pub record NativeToolCall : Type 0 where
  pub id : Option Text
  pub name : Text
  pub arguments : Text

pub record AssistantMessage : Type 0 where
  pub role : Text
  pub content : Option Text
  pub tool_calls : Option (List ToolCall)

pub record ChatChoice : Type 0 where
  pub index : ℕ
  pub message : AssistantMessage
  pub finish_reason : FinishReason

pub record ChatResponse : Type 0 where
  pub id : Text
  pub object : Text
  pub created : ℕ
  pub model : Text
  pub choices : List ChatChoice
  pub usage : Option Usage

pub record NativeChoice : Type 0 where
  pub index : ℕ
  pub content : Option Text
  pub calls : List NativeToolCall
  pub terminal : NativeTerminal

pub record NativeResponse : Type 0 where
  pub choices : List NativeChoice
  pub usage : Option Usage

-- The name that one entry of `tools` declares.
unfoldable pub declared_name : JsonValue → Option Text
declared_name (JsonValue.object tool) = elim (field (fields_of tool) (lit "function")) [
  | some (JsonValue.object function) ↦ elim (field (fields_of function) (lit "name")) [
    | some (JsonValue.string name) ↦ some name
    | _ ↦ none
  ]
  | _ ↦ none
]
declared_name _ = none

unfoldable pub declared_names : List JsonValue → List Text
unfolding declared_name
declared_names [] = []
declared_names (tool ∷ tools) = elim (declared_name tool) [
  | none ↦ declared_names tools
  | some name ↦ name ∷ declared_names tools
]

unfoldable pub declared_tools : CanonicalRequest → List Text
unfolding declared_names
declared_tools request = elim (field request.fields (lit "tools")) [
  | some (JsonValue.array tools) ↦ declared_names (values tools)
  | _ ↦ []
]

unfoldable pub normalize_terminal :
    NativeTerminal → Option Text → (has_calls : Bool) → Result ResponseError FinishReason
normalize_terminal NativeTerminal.overloaded content has_calls = err ResponseError.overloaded
normalize_terminal NativeTerminal.invalid content has_calls =
    err (invalid_response (lit "invalid provider terminal condition"))
normalize_terminal NativeTerminal.content_filter content has_calls = ok FinishReason.content_filter
normalize_terminal NativeTerminal.tool_calls content false =
    err (invalid_response (lit "tool_calls finish reason has no completed call"))
normalize_terminal terminal content true = ok FinishReason.tool_calls
normalize_terminal NativeTerminal.length content false = ok FinishReason.length
normalize_terminal NativeTerminal.stop content false = ok FinishReason.stop
normalize_terminal NativeTerminal.unknown (some text) false = ok FinishReason.stop
normalize_terminal NativeTerminal.unknown none false =
    err (invalid_response (lit "unknown terminal reason has no candidate content"))

abbrev pub is_content_filter : FinishReason → Bool
is_content_filter FinishReason.content_filter = true
is_content_filter _ = false

abbrev pub is_tool_calls : FinishReason → Bool
is_tool_calls FinishReason.tool_calls = true
is_tool_calls _ = false

unfoldable pub other_name : Text → ToolCall → Bool
other_name name call = not (text_eq call.function.name name)

-- The match on `tool_choice` in `validate_outcome`.
unfoldable pub choice_allows : ToolChoice → List ToolCall → Result ResponseError (Unit {0})
unfolding other_name
choice_allows ToolChoice.none calls =
    ensure (is_empty calls) (invalid_response (lit "tool_choice none forbids tool calls"))
choice_allows ToolChoice.required calls =
    ensure (not (is_empty calls)) (invalid_response (lit "tool_choice required needs a tool call"))
choice_allows (ToolChoice.named name) calls =
    ensure (not (is_empty calls || any (other_name name) calls))
      (invalid_response (lit "tool calls violate named tool_choice"))
choice_allows ToolChoice.auto calls = ok tt

unfoldable pub validate_outcome :
    ToolChoice → Option Text → List ToolCall → FinishReason → Result ResponseError (Unit {0})
validate_outcome choice content calls finish = do
  ensure (is_content_filter finish || is_some content || not (is_empty calls))
      (invalid_response (lit "assistant response has neither content nor tool calls"))
  ensure (not (xor (not (is_empty calls)) (is_tool_calls finish)))
      (invalid_response (lit "completed calls and finish reason disagree"))
  if is_content_filter finish then ok tt else choice_allows choice calls
