-- ===== src/Response/Tests.antt =====
-- Runs of the response code of src/response.rs, and the theorems about it at concrete inputs.
use nano_llm.Common.{
  ℕ, ◌≡◌, ◌↔◌, refl, Text, lit, text_eq, contains, hex, Fresh, true, false, Option, none, some,
  List, [], ◌∷◌, arith, is_empty, ok, err,
}
use nano_llm.Json.{JsonValue, field, nil, cons, end, member}
use nano_llm.Request.{CanonicalRequest, ToolChoice}
use nano_llm.Response.{
  FinishReason, NativeTerminal, Usage, ResponseMetadata, ToolCall, NativeToolCall, ChatResponse,
  normalize_usage, declared_tools, normalize_terminal, validate_outcome, choice_allows, valid_usage,
  invalid_response,
}
use nano_llm.Response.Ids.{Ids, call_id, claim_id}
use nano_llm.Response.Ids.Fresh.{claim_id-Fresh}
use nano_llm.Response.Outcome.{IsCoherent, AddsUp, validate_outcome_iff, normalize_usage_iff}
use nano_llm.Response.Buffered.{build_response}
use nano_llm.Response.Buffered.Canonical.{IsCanonical, build_response-IsCanonical}

weather_tool : JsonValue
weather_tool = JsonValue.object (
    member (lit "type") (JsonValue.string (lit "function")) (
      member (lit "function")
        (JsonValue.object (member (lit "name") (JsonValue.string (lit "weather")) end)) end))

abbrev ask : CanonicalRequest
ask = record {
  fields = (lit "tools", JsonValue.array (cons weather_tool nil)) ∷ [];
  model = lit "fast";
  stream = false;
  include_usage = true;
  max_tokens = none;
  temperature = none;
  top_p = none;
  stop = none;
  tool_choice = ToolChoice.required;
  instruction = none;
}

abbrev stamp : ResponseMetadata
stamp = record { id = lit "chatcmpl-1-1"; created = 1 }

abbrev weather : Option Text → NativeToolCall
weather id = record { id = id; name = lit "weather"; arguments = lit "{}" }

-- The second call repeats the identifier of the first, and the third has an empty one.
abbrev three_calls : List NativeToolCall
three_calls = weather (some (lit "call_7")) ∷ weather (some (lit "call_7")) ∷ weather (some []) ∷ []

runs : Unit {0}
unfolding build_response declared_tools field text_eq lit contains claim_id call_id hex
    normalize_terminal validate_outcome choice_allows valid_usage weather_tool
runs = tt

abbrev counts : Usage
counts = record { prompt_tokens = 3; completion_tokens = 4; total_tokens = 7 }

abbrev made : Text → ToolCall
made id = record {
  id = id;
  kind = lit "function";
  function = record { name = lit "weather"; arguments = lit "{}" };
}

-- The counter stands at 7, so the generated identifiers are call_8 and call_9.
abbrev answered : ChatResponse
answered = record {
  id = lit "chatcmpl-1-1";
  object = lit "chat.completion";
  created = 1;
  model = lit "fast";
  choices =
      record {
        index = 0;
        message = record {
          role = lit "assistant";
          content = none;
          tool_calls = some (made (lit "call_7") ∷ made (lit "call_8") ∷ made (lit "call_9") ∷ []);
        };
        finish_reason = FinishReason.tool_calls;
      }
      ∷ [];
  usage = some counts;
}

three_calls_run :
    build_response ask stamp none three_calls NativeTerminal.stop (some counts) 7 ≡ ok answered
unfolding runs
three_calls_run = refl

build_response-IsCanonical_example : IsCanonical ask stamp none three_calls answered
build_response-IsCanonical_example =
    build_response-IsCanonical ask stamp none three_calls NativeTerminal.stop (some counts) 7
      answered (omega arith) three_calls_run

undeclared_run :
    build_response ask stamp none
      (record { id = none; name = lit "news"; arguments = [] } ∷ [])
      NativeTerminal.stop
      none
      7
    ≡ err (invalid_response (lit "tool call names an undeclared function"))
unfolding runs
undeclared_run = refl

validate_outcome_iff_example :
    (validate_outcome ToolChoice.required (some []) [] FinishReason.stop ≡ ok tt)
    ↔ IsCoherent ToolChoice.required (some []) [] FinishReason.stop
validate_outcome_iff_example =
    validate_outcome_iff ToolChoice.required (some []) [] FinishReason.stop

normalize_usage_iff_example : (normalize_usage (some 3) (some 4) ≡ some counts) ↔ (
    (◌≡◌ {A = Option ℕ} (some 3) (some 3)) × (◌≡◌ {A = Option ℕ} (some 4) (some 4)) × AddsUp counts)
normalize_usage_iff_example = normalize_usage_iff (some 3) (some 4) counts

overflow_run : normalize_usage (some 18446744073709551615) (some 1) ≡ none
unfolding normalize_usage
overflow_run = refl

abbrev in_use : Ids
in_use = record { used = lit "call_1" ∷ []; next = 1 }

claim_id-Fresh_example :
    Fresh (claim_id (some (lit "call_1")) in_use).0 (lit "call_1" ∷ [])
    × ((claim_id (some (lit "call_1")) in_use).2.used
        ≡ (claim_id (some (lit "call_1")) in_use).0 ∷ lit "call_1" ∷ [])
    × (is_empty (claim_id (some (lit "call_1")) in_use).0 ≡ false)
claim_id-Fresh_example = claim_id-Fresh (some (lit "call_1")) in_use (omega arith)
