-- ===== src/OpenAiCompatible/Adapter.antt =====
-- OpenAiCompatibleProvider (src/openai_compatible.rs): the outbound request, `complete` and
-- `complete_stream`. The transport, the clock and the counter NEXT_ID are arguments.
pub mod Told
pub mod Completed
pub mod Replaced
pub mod Outbound
use nano_llm.Common.{
  ℕ, suc, ◌+◌, ◌%◌, Text, lit, hex, text_eq, Bool, true, false, not, ◌&&◌, ◌||◌, Option, none, some,
  List, [], ◌∷◌, ◌++◌, length, leb, if◌then◌else◌, Result, ok, err, ensure, ◌>>=◌, ◌>>◌,
}
use nano_llm.Json.{JsonValue, Fields, fields_of, of_fields, of_values, values, field}
use nano_llm.Config.{RuntimeTarget, SecretString}
use nano_llm.Request.{CanonicalRequest}
use nano_llm.Provider.{TargetError, TargetErrorKind, new, timed_out, from_upstream_status}
use nano_llm.Provider.Transport.{
  SecureTransportPolicy, secure, OutboundRequest, OutboundResponse, TransportErrorKind,
  TransportError, OutboundByteStream, OutboundTransport,
}
use nano_llm.Response.{ChatResponse, ResponseError, ResponseMetadata, u64_limit}
use nano_llm.Response.Buffered.{normalize_response}
use nano_llm.OpenAiCompatible.Native.{Trouble, raised, bad, Native, response_error, parse_response}
use nano_llm.OpenAiCompatible.Decoder.{Decoder}
use nano_llm.OpenAiCompatible.Decoder as Decoder
use nano_llm.OpenAiCompatible.Encode.{encode_object, replace_field}

-- ResponseMetadata::for_model at a second since 1970, with the value of the counter.
unfoldable pub for_model : (created : ℕ) → (next_id : ℕ) → ResponseMetadata
for_model created next_id = record {
  id = lit "chatcmpl-" ++ (hex created ++ (lit "-" ++ hex (next_id % u64_limit)));
  created = created;
}

-- MAX_BUFFERED_RESPONSE_BYTES
abbrev pub max_buffered_response_bytes : ℕ
max_buffered_response_bytes = 8388608

pub record OpenAiCompatibleProvider : Type 0 where
  pub target : RuntimeTarget
  pub transport : OutboundTransport
  pub transport_policy : SecureTransportPolicy

-- OpenAiCompatibleProvider::new
unfoldable pub compatible_provider : RuntimeTarget → OutboundTransport → OpenAiCompatibleProvider
compatible_provider target transport = record {
  target = target;
  transport = transport;
  transport_policy = secure;
}

role_of : Option JsonValue → Option Text
role_of (some (JsonValue.string role)) = some role
role_of _ = none

unfoldable pub role : JsonValue → Option Text
unfolding role_of
role (JsonValue.object members) = role_of (field (fields_of members) (lit "role"))
role _ = none

is_instruction_role : Option Text → Bool
is_instruction_role none = false
is_instruction_role (some word) = text_eq word (lit "system") || text_eq word (lit "developer")

-- What follows the leading system and developer messages.
unfoldable pub after_leading : List JsonValue → List JsonValue
unfolding role is_instruction_role
after_leading [] = []
after_leading (message ∷ messages) =
    let rest = after_leading messages in
    if is_instruction_role (role message) then rest else message ∷ messages

abbrev pub or_empty : Option Text → Text
or_empty none = []
or_empty (some text) = text

unfoldable pub system_message : Text → JsonValue
system_message text = JsonValue.object (
    of_fields
      ((lit "role", JsonValue.string (lit "system")) ∷ (lit "content", JsonValue.string text) ∷ []))

-- Leading instructions become one system message.
unfoldable pub combined : Option Text → List JsonValue → List JsonValue
unfolding after_leading system_message is_instruction_role role
combined instruction [] = []
combined instruction (message ∷ messages) =
    if is_instruction_role (role message)
    then system_message (or_empty instruction) ∷ after_leading (message ∷ messages)
    else message ∷ messages

unfoldable pub messages_of : Option JsonValue → List JsonValue
messages_of (some (JsonValue.array messages)) = values messages
messages_of _ = []

unfoldable pub compatible_messages : CanonicalRequest → JsonValue
unfolding combined messages_of
compatible_messages request =
    JsonValue.array (
      of_values
        (combined request.instruction (messages_of (field request.fields (lit "messages")))))

unfoldable pub outbound_fields : RuntimeTarget → CanonicalRequest → (stream : Bool) → Fields
unfolding replace_field compatible_messages
outbound_fields target request stream =
    let named = replace_field request.fields (lit "model") (JsonValue.string target.model_suffix) in
    let fields = replace_field named (lit "messages") (compatible_messages request) in
    if stream then replace_field fields (lit "stream") (JsonValue.bool true) else fields

unfoldable pub authorization : Option SecretString → List (Text × Text)
authorization none = []
authorization (some key) = (lit "Authorization", lit "Bearer " ++ key.secret) ∷ []

unfoldable pub outbound_request :
    RuntimeTarget → CanonicalRequest → (stream : Bool) → OutboundRequest
unfolding outbound_fields authorization encode_object
outbound_request target request stream = record {
  method = lit "POST";
  url = target.api_base ++ lit "/chat/completions";
  headers = (lit "Content-Type", lit "application/json") ∷ authorization target.api_key;
  body = encode_object (outbound_fields target request stream);
}

unfoldable pub transport_error : TransportErrorKind → TargetError
unfolding new
transport_error TransportErrorKind.timed_out = timed_out
transport_error TransportErrorKind.not_connected = new TargetErrorKind.connection_error none

-- `.map_err(…)?`
unfoldable pub reached : {A : Type 0} → Result TransportError A → Native A
unfolding transport_error
reached (ok response) = ok response
reached (err error) = err (raised (transport_error error.kind))

unfoldable pub normalized : Result ResponseError ChatResponse → Native ChatResponse
normalized (ok response) = ok response
normalized (err error) = err (raised (response_error error))

-- (200..300).contains(&status)
unfoldable pub is_success : ℕ → Bool
is_success status = leb 200 status && leb status 299

unfoldable pub complete :
    OpenAiCompatibleProvider
    → CanonicalRequest
    → (created : ℕ) → (next_id : ℕ) → Native ChatResponse
unfolding reached normalized is_success outbound_request parse_response for_model
complete provider request created next_id = do
  response ← reached (
      provider.transport.execute provider.transport_policy
        (outbound_request provider.target request false))
  ensure (is_success response.status) (raised (from_upstream_status response.status))
  ensure (leb (length response.body) max_buffered_response_bytes) bad
  native ← parse_response (suc (length response.body)) provider.target.provider response.body
  normalized (normalize_response request (for_model created next_id) native (next_id + 1))

-- The stream is an iterator.
unfoldable pub complete_stream :
    OpenAiCompatibleProvider → CanonicalRequest → (created : ℕ) → (next_id : ℕ) → Native Decoder
unfolding reached is_success outbound_request for_model
complete_stream provider request created next_id = do
  response ← reached (
      provider.transport.execute_stream provider.transport_policy
        (outbound_request provider.target request true))
  ensure (is_success response.status) (raised (from_upstream_status response.status))
  ok (
      Decoder.new request (for_model created next_id) provider.target.provider response.body
        (next_id + 1))
