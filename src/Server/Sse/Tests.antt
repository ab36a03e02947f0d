-- ===== src/Server/Sse/Tests.antt =====
-- A stream of two chunks, sent as src/server.rs sends it.
use nano_llm.Common.{
  zero, suc, ◌*◌, lit, text_eq, false, ◌≡◌, refl, Option, none, some, [], ◌∷◌, ok, arith,
}
use nano_llm.Response.{FinishReason}
use nano_llm.Response.Stream.{AssistantDelta, ChatChunk}
use nano_llm.Provider.{ProviderStream, pending, World}
use nano_llm.Server.Dispatch.{second, saturating_add}
use nano_llm.Server.Gate.{first, metadata_of, accept}
use nano_llm.Server.Serialize.{serialize_sse_chunk}
use nano_llm.Server.StreamDispatch.{StreamRouteDispatch}
use nano_llm.Server.Sse.{
  completed, Sent, done_event, sent_before, idle_after, write_item, write_from, write_sse_stream,
  sse_response,
}
use nano_llm.Server.Sse.Delivered.{Delivered, write_sse_stream-Delivered}
use nano_llm.Server.Sse.Body.{always, as_response, sse_response-write_sse_stream}
use nano_llm.Server.Sse.Ends.{write_sse_stream_total}

abbrev chunk : AssistantDelta → Option FinishReason → ChatChunk
chunk delta reason = record {
  id = lit "chatcmpl-1";
  object = lit "chat.completion.chunk";
  created = 1;
  model = lit "fast";
  choices = record { index = 0; delta = delta; finish_reason = reason } ∷ [];
  usage = none;
}

abbrev opening : ChatChunk
opening =
    chunk (record { role = some (lit "assistant"); content = some (lit "hi"); tool_calls = [] })
      none

abbrev ending : ChatChunk
ending = chunk (record { role = none; content = none; tool_calls = [] }) (some FinishReason.stop)

items : ProviderStream
items zero = some (ok opening)
items (suc zero) = some (ok ending)
items (suc (suc k)) = none

abbrev dispatch : StreamRouteDispatch
dispatch = record {
  first_chunk = opening;
  stream = items;
  attempts = [];
  diagnostics = record {
    requested_model = lit "fast";
    selected_provider = none;
    selected_model = none;
    attempt_count = 0;
    error_kind = none;
    upstream_status = none;
  };
  idle_timeout = 30 * second;
  include_usage = false;
}

abbrev world : World
world = record {
  now = λ m. m * second;
  cancelled = λ m. false;
  provider_factory = λ t. record { complete = λ _ m. pending; complete_stream = λ _ m. pending };
}

abbrev sent : Sent
sent = record {
  events = serialize_sse_chunk opening ∷ serialize_sse_chunk ending ∷ done_event ∷ [];
  outcome = completed;
  cancels = false;
}

stream_run : write_sse_stream world 5 always dispatch 0 ≡ some sent
unfolding write_sse_stream write_from write_item idle_after sent_before items first metadata_of
    accept saturating_add text_eq lit
stream_run = refl

write_sse_stream-Delivered_example : Delivered dispatch sent
write_sse_stream-Delivered_example =
    write_sse_stream-Delivered world 5 always dispatch 0 sent stream_run

sse_response-write_sse_stream_example :
    sse_response world 5 dispatch 0 ≡ as_response [] (write_sse_stream world 5 always dispatch 0)
sse_response-write_sse_stream_example = sse_response-write_sse_stream world 5 dispatch 0

no_more : items 2 ≡ none
unfolding items
no_more = refl

write_sse_stream_total_example : (s : Sent) × (write_sse_stream world 5 always dispatch 0 ≡ some s)
write_sse_stream_total_example =
    write_sse_stream_total world always dispatch 5 1 0 (omega arith) no_more
