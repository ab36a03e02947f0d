-- ===== src/Response/Buffered.antt =====
-- Buffered answers (src/response.rs): normalize_calls, build_response, normalize_response and
-- safety_response. The counter NEXT_ID is passed through.
pub mod Canonical
use nano_llm.Common.{
  ℕ, Text, lit, contains, Bool, true, false, not, Option, none, some, List, [], ◌∷◌, ◌==◌,
  if◌then◌else◌, is_empty, Result, ok, err, ◌>>=◌, ◌>>◌,
}
use nano_llm.Request.{CanonicalRequest}
use nano_llm.Response.{
  ResponseError, invalid_response, FinishReason, NativeTerminal, Usage, valid_usage,
  ResponseMetadata, ToolCall, NativeToolCall, ChatResponse, NativeResponse, NativeChoice,
  declared_tools, normalize_terminal, validate_outcome,
}
use nano_llm.Response.Ids.{Ids, claim_id}

unfoldable pub canonical_call : Text → NativeToolCall → ToolCall
canonical_call id call = record {
  id = id;
  kind = lit "function";
  function = record { name = call.name; arguments = call.arguments };
}

-- The collecting iterator: the first undeclared name ends it.
unfoldable pub normalize_calls :
    List Text → List NativeToolCall → Ids → Result ResponseError (List ToolCall) × Ids
unfolding canonical_call
normalize_calls declared [] ids = (ok [], ids)
normalize_calls declared (call ∷ native) ids =
    let (id, _, ids') = claim_id call.id ids in
    let (rest, ids'') = normalize_calls declared native ids' in
    if contains declared call.name
    then ((do calls ← rest; ok (canonical_call id call ∷ calls)), ids'')
    else (err (invalid_response (lit "tool call names an undeclared function")), ids)

-- The response that `build_response` constructs.
unfoldable pub answer :
    CanonicalRequest
    → ResponseMetadata
    → Option Text
    → List ToolCall
    → FinishReason
    → Option Usage
    → ChatResponse
answer request metadata content calls finish usage = record {
  id = metadata.id;
  object = lit "chat.completion";
  created = metadata.created;
  model = request.model;
  choices =
      record {
        index = 0;
        message = record {
          role = lit "assistant";
          content = content;
          tool_calls = if is_empty calls then none else some calls;
        };
        finish_reason = finish;
      }
      ∷ [];
  usage = elim usage [ none ↦ none | some counts ↦ valid_usage counts ];
}

-- What follows `normalize_calls` in `build_response`.
unfoldable pub respond :
    CanonicalRequest
    → ResponseMetadata
    → Option Text
    → List ToolCall
    → NativeTerminal
    → Option Usage
    → Result ResponseError ChatResponse
unfolding answer
respond request metadata content calls terminal usage = do
  finish ← normalize_terminal terminal content (not (is_empty calls))
  validate_outcome request.tool_choice content calls finish
  ok (answer request metadata content calls finish usage)

unfoldable pub build_response :
    CanonicalRequest
    → ResponseMetadata
    → Option Text
    → List NativeToolCall
    → NativeTerminal
    → Option Usage
    → (next_id : ℕ) → Result ResponseError ChatResponse
unfolding respond normalize_calls
build_response request metadata content native terminal usage next_id =
    let (calls, _) =
      normalize_calls (declared_tools request) native (record { used = []; next = next_id }) in
    do made ← calls; respond request metadata content made terminal usage

unfoldable pub normalize_response :
    CanonicalRequest
    → ResponseMetadata
    → NativeResponse
    → (next_id : ℕ) → Result ResponseError ChatResponse
unfolding build_response
normalize_response request metadata native next_id = elim native.choices [
  | choice ∷ [] ↦
      if choice.index == 0
      then build_response request metadata choice.content choice.calls choice.terminal native.usage
          next_id
      else err (invalid_response (lit "provider response choice index must be zero"))
  | _ ↦ err (invalid_response (lit "provider response must contain exactly one choice"))
]

unfoldable pub safety_response :
    CanonicalRequest
    → ResponseMetadata
    → Option Usage
    → (next_id : ℕ) → Result ResponseError ChatResponse
unfolding build_response
safety_response request metadata usage next_id =
    build_response request metadata none [] NativeTerminal.content_filter usage next_id
