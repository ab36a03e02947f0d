-- ===== src/Server/Serialize.antt =====
-- The JSON that the server writes (src/server.rs): json_escape, serialize_chat_response,
-- serialize_sse_chunk.
use nano_llm.Common.{
  ℕ, ◌/◌, ◌%◌, Text, lit, decimal, hex_digit, Bool, true, false, ◌||◌, Option, none, some, List, [],
  ◌∷◌, ◌++◌, map, ltb, ◌==◌, if◌then◌else◌, is_some,
}
use nano_llm.Response.{FinishReason, Usage, ToolCall, ChatChoice, ChatResponse}
use nano_llm.Response.Stream.{ToolCallDelta, ChunkChoice, ChatChunk}

-- `\u{:04x}` of a character below U+00A0.
unfoldable pub unicode_escape : ℕ → Text
unicode_escape b = b'\\' ∷ b'u' ∷ b'0' ∷ b'0' ∷ hex_digit (b / 16) ∷ hex_digit (b % 16) ∷ []

-- A byte that is not the second one of a control character.
unfoldable pub escape_byte : ℕ → Text
unfolding unicode_escape
escape_byte b =
    if b == b'"'
    then b'\\' ∷ b'"' ∷ []
    else if b == b'\\'
    then b'\\' ∷ b'\\' ∷ []
    else if b == 10
    then b'\\' ∷ b'n' ∷ []
    else if b == 13
    then b'\\' ∷ b'r' ∷ []
    else if b == 9
    then b'\\' ∷ b't' ∷ []
    else if ltb b 32 || b == 127
    then unicode_escape b
    else b ∷ []

-- A byte 0xC2 begins U+0080 to U+00BF, of which those below U+00A0 are control characters: it is
-- held back until the byte after it is known.
abbrev lead : ℕ
lead = 194

unfoldable pub held_back : ℕ → Text
unfolding unicode_escape
held_back b = if ltb b 160 then unicode_escape b else lead ∷ b ∷ []

unfoldable pub escape_from : (held : Bool) → Text → Text
unfolding escape_byte held_back
escape_from true [] = lead ∷ []
escape_from false [] = []
escape_from true (b ∷ bs) = held_back b ++ escape_from false bs
escape_from false (b ∷ bs) = (if b == lead then [] else escape_byte b) ++ escape_from (b == lead) bs

unfoldable pub json_escape : Text → Text
unfolding escape_from
json_escape value = escape_from false value

-- format!("\"{}\"", json_escape(value))
unfoldable pub escaped : Text → Text
unfolding json_escape
escaped value = b'"' ∷ (json_escape value ++ b'"' ∷ [])

unfoldable pub raw : Text → Text
raw value = b'"' ∷ (value ++ b'"' ∷ [])

unfoldable pub as_str : FinishReason → Text
as_str FinishReason.stop = lit "stop"
as_str FinishReason.length = lit "length"
as_str FinishReason.tool_calls = lit "tool_calls"
as_str FinishReason.content_filter = lit "content_filter"

-- The loops that put a comma before every element but the first.
unfoldable pub commas : List Text → Text
commas [] = []
commas (x ∷ []) = x
commas (x ∷ y ∷ xs) = x ++ b',' ∷ commas (y ∷ xs)

unfoldable pub usage_member : Option Usage → Text
usage_member none = []
usage_member (some usage) =
    lit ",\"usage\":{\"prompt_tokens\":"
    ++ decimal usage.prompt_tokens
    ++ lit ",\"completion_tokens\":"
    ++ decimal usage.completion_tokens
    ++ lit ",\"total_tokens\":"
    ++ decimal usage.total_tokens
    ++ lit "}"

unfoldable pub serialize_tool_call : ToolCall → Text
unfolding escaped
serialize_tool_call call =
    lit "{\"id\":"
    ++ escaped call.id
    ++ lit ",\"type\":\"function\",\"function\":{\"name\":"
    ++ escaped call.function.name
    ++ lit ",\"arguments\":"
    ++ escaped call.function.arguments
    ++ lit "}}"

serialize_tool_calls : Option (List ToolCall) → Text
unfolding commas serialize_tool_call
serialize_tool_calls none = []
serialize_tool_calls (some calls) =
    lit ",\"tool_calls\":[" ++ commas (map serialize_tool_call calls) ++ lit "]"

content_value : Option Text → Text
unfolding escaped
content_value none = lit "null"
content_value (some content) = escaped content

serialize_choice : ChatChoice → Text
unfolding serialize_tool_calls content_value raw as_str
serialize_choice choice =
    lit "{\"index\":"
    ++ decimal choice.index
    ++ lit ",\"message\":{\"role\":\"assistant\",\"content\":"
    ++ content_value choice.message.content
    ++ serialize_tool_calls choice.message.tool_calls
    ++ lit "},\"finish_reason\":"
    ++ raw (as_str choice.finish_reason)
    ++ lit "}"

unfoldable pub serialize_chat_response : ChatResponse → Text
unfolding serialize_choice usage_member escaped raw commas
serialize_chat_response response =
    lit "{\"id\":"
    ++ escaped response.id
    ++ lit ",\"object\":"
    ++ raw response.object
    ++ lit ",\"created\":"
    ++ decimal response.created
    ++ lit ",\"model\":"
    ++ escaped response.model
    ++ lit ",\"choices\":["
    ++ commas (map serialize_choice response.choices)
    ++ lit "]"
    ++ usage_member response.usage
    ++ lit "}"

-- The members that have a value.
unfoldable pub optional_member : Text → (Text → Text) → Option Text → List Text
optional_member key written none = []
optional_member key written (some value) = (key ++ written value) ∷ []

unfoldable pub function_member : ToolCallDelta → List Text
unfolding optional_member escaped commas
function_member call =
    if is_some call.name || is_some call.arguments
    then (lit "\"function\":{"
        ++ commas (
            optional_member (lit "\"name\":") escaped call.name
            ++ optional_member (lit "\"arguments\":") escaped call.arguments)
        ++ lit "}")
      ∷ []
    else []

unfoldable pub serialize_call_delta : ToolCallDelta → Text
unfolding optional_member escaped raw commas function_member
serialize_call_delta call =
    lit "{"
    ++ commas (
        (lit "\"index\":" ++ decimal call.index)
        ∷ (optional_member (lit "\"id\":") escaped call.id
            ++ optional_member (lit "\"type\":") raw call.kind
            ++ function_member call))
    ++ lit "}"

unfoldable pub calls_member : List ToolCallDelta → List Text
unfolding serialize_call_delta commas
calls_member [] = []
calls_member (call ∷ calls) =
    (lit "\"tool_calls\":[" ++ commas (map serialize_call_delta (call ∷ calls)) ++ lit "]") ∷ []

unfoldable pub reason_value : Option FinishReason → Text
unfolding as_str raw
reason_value none = lit "null"
reason_value (some reason) = raw (as_str reason)

unfoldable pub serialize_chunk_choice : ChunkChoice → Text
unfolding optional_member escaped raw commas calls_member reason_value
serialize_chunk_choice choice =
    lit "{\"index\":"
    ++ decimal choice.index
    ++ lit ",\"delta\":{"
    ++ commas (
        optional_member (lit "\"role\":") raw choice.delta.role
        ++ optional_member (lit "\"content\":") escaped choice.delta.content
        ++ calls_member choice.delta.tool_calls)
    ++ lit "},\"finish_reason\":"
    ++ reason_value choice.finish_reason
    ++ lit "}"

-- The event without the two line breaks that end it.
unfoldable pub sse_line : ChatChunk → Text
unfolding serialize_chunk_choice escaped raw commas usage_member
sse_line chunk =
    lit "data: {\"id\":"
    ++ escaped chunk.id
    ++ lit ",\"object\":"
    ++ raw chunk.object
    ++ lit ",\"created\":"
    ++ decimal chunk.created
    ++ lit ",\"model\":"
    ++ escaped chunk.model
    ++ lit ",\"choices\":["
    ++ commas (map serialize_chunk_choice chunk.choices)
    ++ lit "]"
    ++ usage_member chunk.usage
    ++ lit "}"

unfoldable pub serialize_sse_chunk : ChatChunk → Text
unfolding sse_line
serialize_sse_chunk chunk = sse_line chunk ++ 10 ∷ 10 ∷ []
