-- ===== src/OpenAiCompatible/Tests.antt =====
-- A completion and a stream of an upstream that answers as the tests of src/openai_compatible.rs do.
use nano_llm.Common.{
  suc, length, ◌≢◌, Distinct, text_eq_iff, String, Text, lit, text_eq, hex_digit, is_utf8, contains,
  true, false, Option, none, some, [], ◌∷◌, ◌++◌, ◌≡◌, refl, Result, ok, err, arith,
}
use nano_llm.Json.{JsonValue, Fields, of_fields, of_values, field}
use nano_llm.Config.{ProviderKind, RuntimeTarget}
use nano_llm.Request.{CanonicalRequest, ToolChoice}
use nano_llm.Provider.Transport.{
  OutboundResponse, OutboundByteStream, OutboundTransport, TransportError, TransportErrorKind,
}
use nano_llm.Response.{ResponseMetadata}
use nano_llm.Request.Parse.{decode_json_object, decode_json_value, number, keys}
use nano_llm.Request.Parse.Strings.{string}
use nano_llm.Response.{normalize_terminal, validate_outcome, declared_tools, choice_allows}
use nano_llm.Response.Stream.{ChatChunk, accept_parts, sort_calls}
use nano_llm.Response.Stream as Stream
use nano_llm.Response.Stream.Push.{push, completed_calls, finish}
use nano_llm.OpenAiCompatible.Native.{
  bad, panicked, native_object, required, array, parse_stream_choice,
}
use nano_llm.OpenAiCompatible.Decoder.{Decoder, new, Next, item, finished, next, consume_line}
use nano_llm.OpenAiCompatible.Decoder.Reference.{body, events_from}
use nano_llm.OpenAiCompatible.Decoder.Bounded.{Answered, after, next-after-Answered}
use nano_llm.OpenAiCompatible.Decoder.Framed.Yields.{Yields, new-Yields}
use nano_llm.OpenAiCompatible.Adapter.{OpenAiCompatibleProvider, outbound_request, complete}
use nano_llm.OpenAiCompatible.Encode.{encode}
use nano_llm.OpenAiCompatible.Encode.Elements.{IsJson, HoldJson}
use nano_llm.OpenAiCompatible.Encode.Decoded.{decode_json_value-encode}
use nano_llm.OpenAiCompatible.Adapter.Outbound.{IsSent, outbound_request-IsSent}
use nano_llm.OpenAiCompatible.Adapter.Completed.{Completed, complete-Completed}

abbrev said : String → String → JsonValue
said role content = JsonValue.object (
    of_fields (
      (lit "role", JsonValue.string (lit role))
      ∷ (lit "content", JsonValue.string (lit content))
      ∷ []))

abbrev request : CanonicalRequest
request = record {
  fields =
      (lit "model", JsonValue.string (lit "alias"))
      ∷ (
        lit "messages",
        JsonValue.array
            (of_values (said "developer" "be\nbrief" ∷ said "system" "x" ∷ said "user" "hi" ∷ [])),
      )
      ∷ [];
  model = lit "alias";
  stream = false;
  include_usage = false;
  max_tokens = none;
  temperature = none;
  top_p = none;
  stop = none;
  tool_choice = ToolChoice.none;
  instruction = some (lit "be\nbrief\n\nx");
}

abbrev target : RuntimeTarget
target = record {
  model = lit "openai/gpt";
  provider = ProviderKind.openai;
  model_suffix = lit "gpt";
  api_key = some (record { secret = lit "key" });
  api_base = lit "https://api.test/v1";
  timeout = 30;
  explicit_timeout = none;
}

abbrev completion : Text
completion =
    lit "{\"choices\":[{\"index\":0,\"message\":{\"role\":\"assistant\",\"content\":\"hello\"},"
    ++ lit "\"finish_reason\":\"stop\"}],\"usage\":{\"prompt_tokens\":2,\"completion_tokens\":3}}"

abbrev fragment : String → Result TransportError Text
fragment text = ok (lit text)

-- The lines of the stream, cut inside a text and inside the line break between events.
abbrev stream : OutboundByteStream
stream =
    fragment ": keepalive\n\ndata: {\"choices\":[{\"index\":0,\"delta\":{\"content\":\"hel"
    ∷ fragment "lo\"},\"finish_reason\":null}]}\r\n"
    ∷ fragment "\ndata: {\"choices\":[{\"index\":0,\"delta\":{},\"finish_reason\":\"stop\"}]}\n\n"
    ∷ fragment "data: [DONE]\n\n"
    ∷ []

abbrev transport : OutboundTransport
transport = record {
  execute = λ policy sent. ok (record { status = 200; body = completion });
  execute_stream = λ policy sent. ok (record { status = 200; body = stream });
}

abbrev provider : OpenAiCompatibleProvider
provider = record {
  target = target;
  transport = transport;
  transport_policy = nano_llm.Provider.Transport.secure;
}

abbrev metadata : ResponseMetadata
metadata = record { id = lit "chatcmpl-1"; created = 7 }

abbrev fresh : OutboundByteStream → Decoder
fresh source = new request metadata ProviderKind.openai source 0

sent_body :
    (outbound_request target request true).body
    ≡ lit
        "{\"model\":\"gpt\",\"messages\":[{\"role\":\"system\",\"content\":\"be\\nbrief\\n\\nx\"},"
      ++ lit "{\"role\":\"user\",\"content\":\"hi\"}],\"stream\":true}"
unfolding outbound_request lit text_eq field
sent_body = refl

abbrev told : Next → Option Text
told (item (ok chunk)) = elim chunk.choices [ choice ∷ [] ↦ choice.delta.content | _ ↦ none ]
told _ = none

first_chunk : told (next (fresh stream)).0 ≡ some (lit "hello")
unfolding next new lit consume_line text_eq native_object decode_json_object is_utf8 string contains
    required field array parse_stream_choice push Stream.new accept_parts
first_chunk = refl

third_call : (next (after 2 (fresh stream))).0 ≡ finished
unfolding next new lit consume_line text_eq native_object decode_json_object is_utf8 string contains
    required field array parse_stream_choice push Stream.new accept_parts after completed_calls
    sort_calls normalize_terminal validate_outcome declared_tools choice_allows finish
third_call = refl

-- The stream may not end before the event that says so.
cut_off : (next (fresh [])).0 ≡ item (err bad)
unfolding next new lit
cut_off = refl

complete-Completed_example : Completed provider request 7 1 (complete provider request 7 1)
complete-Completed_example = complete-Completed provider request 7 1

next-after-Answered_example : Answered (next (after 1 (fresh stream)))
next-after-Answered_example = next-after-Answered request metadata ProviderKind.openai stream 0 1

new-Yields_example :
    Yields
      (next (fresh stream))
      (events_from (body stream).1 [] (body stream).0 (fresh stream).events)
new-Yields_example =
    new-Yields request metadata ProviderKind.openai stream 0 (unfold body lit in omega arith)

-- A number with all its parts, and a text with a quote, a control character and a longer character.
abbrev written : JsonValue
written = JsonValue.object (
    of_fields (
      (lit "n", JsonValue.number (lit "-1.5e+3"))
      ∷ (lit "s", JsonValue.array (of_values (JsonValue.string (b'"' ∷ 1 ∷ 195 ∷ 169 ∷ []) ∷ [])))
      ∷ []))

apart : (a b : Text) → text_eq a b ≡ false → a ≢ b
apart a b h e = absurd (cc (h, (text_eq_iff a b).1 e))

written-IsJson : IsJson written
unfolding IsJson is_utf8 lit number text_eq
written-IsJson =
    (((apart (lit "s") (lit "n") refl, tt), (tt, tt)), (refl, (refl, refl), (refl, (refl, tt), tt)))

decode_json_value-encode_example :
    decode_json_value (suc (length (encode written))) (encode written) ≡ ok written
decode_json_value-encode_example = decode_json_value-encode written written-IsJson

encoded : encode written ≡ lit "{\"n\":-1.5e+3,\"s\":[\"\\\"\\u0001" ++ 195 ∷ 169 ∷ lit "\"]}"
unfolding encode lit hex_digit
encoded = refl

said-IsJson :
    (role content : String)
    → is_utf8 (lit role) ≡ true
    → is_utf8 (lit content) ≡ true
    → IsJson (said role content)
unfolding IsJson is_utf8 lit text_eq
said-IsJson role content u v =
    (((apart (lit "content") (lit "role") refl, tt), (tt, tt)), (refl, u, (refl, v, tt)))

request-HoldJson : HoldJson (of_fields request.fields)
unfolding IsJson is_utf8 lit
request-HoldJson = (
  refl,
  refl,
  (
    refl,
    (
      said-IsJson "developer" "be\nbrief" refl refl,
      (said-IsJson "system" "x" refl refl, (said-IsJson "user" "hi" refl refl, tt)),
    ),
    tt,
  ),
)

request-Distinct : Distinct (keys request.fields)
unfolding lit text_eq
request-Distinct = ((apart (lit "messages") (lit "model") refl, tt), (tt, tt))

outbound_request-IsSent_example :
    let sent_body = (outbound_request target request true).body in
    (sent : Fields) × (decode_json_object (suc (length sent_body)) sent_body ≡ ok sent)
    × IsSent target request true sent
outbound_request-IsSent_example =
    outbound_request-IsSent target request request-Distinct request-HoldJson
      (unfold is_utf8 lit in refl) (unfold is_utf8 lit in refl) true

-- A \u escape that a longer character cuts.
abbrev cut_escape : Text
cut_escape = lit "data: {\"a\":\"\\u000" ++ 195 ∷ 169 ∷ lit "\"}\n\n"

crashing : (next (fresh (ok cut_escape ∷ []))).0 ≡ item (err panicked)
unfolding next new lit consume_line text_eq native_object decode_json_object is_utf8 string contains
    required field array parse_stream_choice push Stream.new accept_parts
crashing = refl
