-- ===== src/Request/Canonical.antt =====
-- The canonical form of a validated request (src/request.rs). Parsing of f64 is a parameter.
pub mod Decoded
use nano_llm.Common.{
  ℕ, ◌+◌, ◌-◌, ◌*◌, Text, lit, text_eq, Bool, true, false, not, ◌&&◌, ◌||◌, Option, none, some,
  List, [], ◌∷◌, ◌++◌, any, leb, ◌==◌, if◌then◌else◌, is_empty, is_some, Result, ok, err, ensure,
  ◌>>=◌, ◌>>◌,
}
use nano_llm.Float.{F64, in_range}
use nano_llm.Json.{JsonValue, Fields, fields_of, values, field}
use nano_llm.Config.{ProviderKind, RuntimeRoute, RuntimeTarget}
use nano_llm.Request.{CanonicalRequest, ToolChoice, DecodeError}
use nano_llm.Request.Outcome.{Fault, validation, unwrap}
use nano_llm.Request.Shape.{quoted}
use nano_llm.Request.Top.{validate_top, both_limits}

-- matches!(value, Some(JsonValue::Bool(true)))
unfoldable pub is_true : Option JsonValue → Bool
is_true (some (JsonValue.bool b)) = b
is_true _ = false

unfoldable pub model_of : JsonValue → Result Fault Text
model_of (JsonValue.string value) = ok value
model_of _ = err Fault.panic

unfoldable pub include_usage_of : Option JsonValue → Result Fault Bool
unfolding is_true
include_usage_of (some (JsonValue.object options)) =
    ok (is_true (field (fields_of options) (lit "include_usage")))
include_usage_of none = ok false
include_usage_of _ = err Fault.panic

-- text.contains(['.', 'e', 'E'])
unfoldable pub fractional_byte : ℕ → Bool
fractional_byte b = b == b'.' || b == b'e' || b == b'E'

is_digit : ℕ → Bool
is_digit b = leb b'0' b && leb b b'9'

digits_value : ℕ → Text → Option ℕ
unfolding is_digit
digits_value n [] = some n
digits_value n (b ∷ bs) =
    let rest = digits_value (n * 10 + (b - b'0')) bs in if is_digit b then rest else none

unsigned : Text → Option ℕ
unfolding digits_value
unsigned [] = none
unsigned (b ∷ bs) = digits_value 0 (b ∷ bs)

-- str::parse::<u32> up to overflow: a sign `+` is allowed, a sign `-` is not.
unfoldable pub parse_unsigned : Text → Option ℕ
unfolding unsigned
parse_unsigned [] = none
parse_unsigned (b ∷ bs) = if b == b'+' then unsigned bs else unsigned (b ∷ bs)

unfoldable pub positive : Option ℕ → Text → Result Fault ℕ
positive none param =
    err (validation param (quoted param (lit " must be an integer from 1 through 2147483647")))
positive (some n) param = do
  ensure (leb 1 n && leb n 2147483647)
      (validation param (quoted param (lit " must be an integer from 1 through 2147483647")))
  ok n

unfoldable pub positive_i32 : JsonValue → Text → Result Fault ℕ
unfolding fractional_byte parse_unsigned positive
positive_i32 (JsonValue.number text) param = do
  ensure (not (any fractional_byte text))
      (validation param (quoted param (lit " must be an integer from 1 through 2147483647")))
  positive (parse_unsigned text) param
positive_i32 _ param = err Fault.panic

unfoldable pub max_tokens_of : Option JsonValue → Option JsonValue → Result Fault (Option ℕ)
unfolding positive_i32
max_tokens_of (some value) (some other) = err both_limits
max_tokens_of (some value) none = positive_i32 value (lit "max_tokens") >>= λ n. ok (some n)
max_tokens_of none (some value) = positive_i32 value (lit "max_tokens") >>= λ n. ok (some n)
max_tokens_of none none = ok none

stop_strings : List JsonValue → Result Fault (List Text)
stop_strings [] = ok []
stop_strings (JsonValue.string value ∷ rest) = stop_strings rest >>= λ texts. ok (value ∷ texts)
stop_strings (_ ∷ rest) = err Fault.panic

unfoldable pub stop_of : Option JsonValue → Result Fault (Option (List Text))
unfolding stop_strings
stop_of (some (JsonValue.string value)) = ok (some (value ∷ []))
stop_of (some (JsonValue.array items)) = stop_strings (values items) >>= λ texts. ok (some texts)
stop_of none = ok none
stop_of _ = err Fault.panic

unfoldable pub instruction_role : Option JsonValue → Bool
instruction_role (some (JsonValue.string role)) =
    text_eq role (lit "system") || text_eq role (lit "developer")
instruction_role _ = false

unfoldable pub is_instruction : JsonValue → Bool
unfolding instruction_role
is_instruction (JsonValue.object fields) = instruction_role (field (fields_of fields) (lit "role"))
is_instruction _ = false

unfoldable pub text_content : Option JsonValue → Result Fault Text
text_content (some (JsonValue.string content)) = ok content
text_content _ = err Fault.panic

unfoldable pub instruction_content : JsonValue → Result Fault Text
unfolding text_content
instruction_content (JsonValue.object fields) =
    text_content (field (fields_of fields) (lit "content"))
instruction_content _ = err Fault.panic

unfoldable pub instruction_parts : List JsonValue → Result Fault (List Text)
unfolding is_instruction instruction_content
instruction_parts [] = ok []
instruction_parts (message ∷ messages) =
    let rest = instruction_parts messages in
    if is_instruction message
    then (do content ← instruction_content message; parts ← rest; ok (content ∷ parts))
    else ok []

-- [&str]::join
join : Text → List Text → Text
join separator [] = []
join separator (part ∷ []) = part
join separator (part ∷ next ∷ parts) = part ++ separator ++ join separator (next ∷ parts)

unfoldable pub combined_instruction : JsonValue → Result Fault (Option Text)
unfolding instruction_parts join
combined_instruction (JsonValue.array messages) = do
  parts ← instruction_parts (values messages)
  ok (if is_empty parts then none else some (join (10 ∷ 10 ∷ []) parts))
combined_instruction _ = err Fault.panic

choice_word : Text → Result Fault ToolChoice
choice_word word =
    if text_eq word (lit "none")
    then ok ToolChoice.none
    else if text_eq word (lit "auto")
    then ok ToolChoice.auto
    else if text_eq word (lit "required")
    then ok ToolChoice.required
    else err Fault.panic

choice_name : JsonValue → Result Fault ToolChoice
choice_name (JsonValue.string name) = ok (ToolChoice.named name)
choice_name _ = err Fault.panic

choice_target : JsonValue → Result Fault ToolChoice
unfolding choice_name
choice_target (JsonValue.object function) = do
  name ← unwrap (field (fields_of function) (lit "name"))
  choice_name name
choice_target _ = err Fault.panic

unfoldable pub tool_choice_of : Option JsonValue → Bool → Result Fault ToolChoice
unfolding choice_word choice_target
tool_choice_of none has_tools = ok (if has_tools then ToolChoice.auto else ToolChoice.none)
tool_choice_of (some (JsonValue.string word)) has_tools = choice_word word
tool_choice_of (some (JsonValue.object choice)) has_tools = do
  function ← unwrap (field (fields_of choice) (lit "function"))
  choice_target function
tool_choice_of _ has_tools = err Fault.panic

unfoldable pub canonical_tool_choice : Fields → Result Fault ToolChoice
unfolding tool_choice_of
canonical_tool_choice fields =
    tool_choice_of (field fields (lit "tool_choice")) (is_some (field fields (lit "tools")))

-- str::parse::<f64>
module _ (parse_f64 : Text → Option F64) where
  probability : Option F64 → Text → Result Fault (Option F64)
  probability none param =
      err (validation param (quoted param (lit " must be a number from 0 through 1")))
  probability (some x) param = do
    ensure (in_range 0 1 x)
        (validation param (quoted param (lit " must be a number from 0 through 1")))
    ok (some x)

  unfoldable pub optional_probability : Option JsonValue → Text → Result Fault (Option F64)
  unfolding probability
  optional_probability (some (JsonValue.number text)) param = probability (parse_f64 text) param
  optional_probability _ param = ok none

  unfoldable pub canonicalize : Fields → Result Fault CanonicalRequest
  unfolding is_true model_of include_usage_of max_tokens_of stop_of combined_instruction
      canonical_tool_choice optional_probability
  canonicalize fields = do
    model_value ← unwrap (field fields (lit "model"))
    model ← model_of model_value
    include_usage ← include_usage_of (field fields (lit "stream_options"))
    max_tokens ←
        max_tokens_of (field fields (lit "max_tokens")) (field fields (lit "max_completion_tokens"))
    temperature ← optional_probability (field fields (lit "temperature")) (lit "temperature")
    top_p ← optional_probability (field fields (lit "top_p")) (lit "top_p")
    stop ← stop_of (field fields (lit "stop"))
    messages ← unwrap (field fields (lit "messages"))
    instruction ← combined_instruction messages
    tool_choice ← canonical_tool_choice fields
    ok (record {
      fields = fields;
      model = model;
      stream = is_true (field fields (lit "stream"));
      include_usage = include_usage;
      max_tokens = max_tokens;
      temperature = temperature;
      top_p = top_p;
      stop = stop;
      tool_choice = tool_choice;
      instruction = instruction;
    })

  unfoldable pub decode_chat_request_fields : Fields → Result Fault CanonicalRequest
  unfolding canonicalize
  decode_chat_request_fields fields = do validate_top fields; canonicalize fields
