-- ===== src/OpenAiCompatible/Decoder.antt =====
-- OpenAiSseDecoder (src/openai_compatible.rs): lines, events and the iterator over the chunks. The
-- fields that lines change stand in a record of their own.
pub mod Limits
pub mod Framed
pub mod Reference
pub mod Bounded
use nano_llm.Common.{
  ℕ, zero, suc, ◌+◌, Text, lit, text_eq, Bool, true, false, not, ◌&&◌, Option, none, some, List, [],
  ◌∷◌, ◌++◌, length, leb, ◌==◌, if◌then◌else◌, is_empty, Result, ok, err, ◌>>=◌,
}
use nano_llm.Common.Scan.{split_at_first, strip_prefix}
use nano_llm.Json.{JsonValue, Fields, field}
use nano_llm.Config.{ProviderKind}
use nano_llm.Request.{CanonicalRequest}
use nano_llm.Provider.{TargetErrorKind}
use nano_llm.Provider as Provider
use nano_llm.Provider.Transport.{TransportError, OutboundByteStream}
use nano_llm.Response.{ResponseError, Usage, ResponseMetadata}
use nano_llm.Response.Stream.{ChatChunk, StreamAssembler, Outcome}
use nano_llm.Response.Stream as Stream
use nano_llm.Response.Stream.Push.{push, finish, usage_chunk}
use nano_llm.OpenAiCompatible.Native.{
  Trouble, raised, bad, Native, StreamChoice, response_error, required, array, native_object,
  parse_usage, parse_stream_choice,
}

-- MAX_SSE_EVENT_BYTES
abbrev pub max_sse_event_bytes : ℕ
max_sse_event_bytes = 1048576

abbrev pub max_input_bytes : ℕ
max_input_bytes = 1114112

-- What a call of `next` gives. Where the JSON parser panics on an event, the panic stands for the item
-- of the call that it ends.
abbrev pub Item : Type 0
Item = Native ChatChunk

pub record Events : Type 0 where
  pub provider : ProviderKind
  pub assembler : StreamAssembler
  pub event_data : Text
  pub pending : List Item
  pub done : Bool
  pub usage : Option Usage

pub record Decoder : Type 0 where
  pub source : OutboundByteStream
  pub input : Text
  pub events : Events
  pub exhausted : Bool

unfoldable pub new :
    CanonicalRequest
    → ResponseMetadata
    → ProviderKind
    → OutboundByteStream
    → (next_id : ℕ) → Decoder
new request metadata provider source next_id = record {
  source = source;
  input = [];
  events = record {
    provider = provider;
    assembler = Stream.new request metadata next_id;
    event_data = [];
    pending = [];
    done = false;
    usage = none;
  };
  exhausted = false;
}

-- Result<(), TargetError> of a `&mut self` method
abbrev pub Handled : Type 0
Handled = Native (Unit {0}) × Events

-- `if let Some(chunk) = …? { pending.push_back(Ok(chunk)) }`
unfoldable pub queued : Outcome (Option ChatChunk) → Events → Handled
queued (err e, assembler) s = (err (raised (response_error e)), record s { assembler = assembler })
queued (ok none, assembler) s = (ok tt, record s { assembler = assembler })
queued (ok (some chunk), assembler) s =
    (ok tt, record s { assembler = assembler; pending = s.pending ++ ok chunk ∷ [] })

last_usage : Option Usage → Events → Handled
unfolding queued
last_usage none s = (ok tt, s)
last_usage (some usage) s = queued (usage_chunk usage s.assembler) s

-- The event that marks the end of the stream.
unfoldable pub concluded : Result ResponseError (Unit {0}) → Events → Handled
unfolding last_usage
concluded (err e) s = (err (raised (response_error e)), s)
concluded (ok _) s = last_usage s.usage (record s { done = true; usage = none })

-- An event without choices has to be about usage.
usage_event : Option JsonValue → Events → Handled
usage_event none s = (err bad, s)
usage_event (some value) s = (ok tt, record s { usage = parse_usage value })

push_choice : Native StreamChoice → Events → Handled
unfolding queued
push_choice (err e) s = (err e, s)
push_choice (ok (index, delta, terminal)) s = queued (push index delta terminal s.assembler) s

unfoldable pub with_choices : Native (Fields × List JsonValue) → Events → Handled
unfolding usage_event push_choice
with_choices (err e) s = (err e, s)
with_choices (ok (fields, [])) s = usage_event (field fields (lit "usage")) s
with_choices (ok (fields, choice ∷ [])) s = push_choice (parse_stream_choice s.provider choice) s
with_choices (ok (fields, _ ∷ _ ∷ _)) s = (err bad, s)

unfoldable pub choices_of : Text → Native (Fields × List JsonValue)
choices_of payload = do
  fields ← native_object (suc (length payload)) payload
  member ← required fields (lit "choices")
  choices ← array member
  ok (fields, choices)

-- `dispatch` after the data is taken.
unfoldable pub dispatch_payload : Text → Events → Handled
unfolding concluded with_choices choices_of
dispatch_payload payload s =
    if s.done
    then (err bad, s)
    else if text_eq payload (lit "[DONE]")
    then concluded (finish s.assembler) s
    else with_choices (choices_of payload) s

unfoldable pub dispatch : Events → Handled
unfolding dispatch_payload
dispatch s =
    if is_empty s.event_data
    then (ok tt, s)
    else dispatch_payload s.event_data (record s { event_data = [] })

-- The line without the carriage return at its end.
unfoldable pub trim_return : Text → Text
trim_return [] = []
trim_return (b ∷ []) = if b == 13 then [] else b ∷ []
trim_return (b ∷ c ∷ line) = b ∷ trim_return (c ∷ line)

-- The value without one space before it.
unfoldable pub trim_space : Text → Text
trim_space [] = []
trim_space (b ∷ value) = if b == b' ' then value else b ∷ value

-- The data of an event, with one more line.
unfoldable pub add_data : Text → Text → Text
add_data [] value = value
add_data (b ∷ bs) value = (b ∷ bs) ++ 10 ∷ value

-- `data.len() + extra <= MAX_SSE_EVENT_BYTES`, where a line break separates the lines.
unfoldable pub append_data : Text → Events → Handled
unfolding add_data
append_data value s =
    if leb (length s.event_data + (length value + (if is_empty s.event_data then 0 else 1)))
      max_sse_event_bytes
    then (ok tt, record s { event_data = add_data s.event_data value })
    else (err bad, s)

-- A line that is neither empty nor a comment: only `data` matters.
data_line : Option Text → Events → Handled
unfolding trim_space append_data
data_line none s = (ok tt, s)
data_line (some value) s = append_data (trim_space value) s

unfoldable pub trimmed_line : Text → Events → Handled
unfolding dispatch data_line strip_prefix
trimmed_line [] s = dispatch s
trimmed_line (b ∷ line) s =
    if b == b':' then (ok tt, s) else data_line (strip_prefix (lit "data:") (b ∷ line)) s

unfoldable pub consume_line : Text → Events → Handled
unfolding trim_return trimmed_line
consume_line line s = trimmed_line (trim_return line) s

unfoldable pub after_line : Handled → Decoder → Native Bool × Decoder
after_line (ok _, s) d = (ok true, record d { events = s })
after_line (err e, s) d = (err e, record d { events = s })

-- A line that the input has whole, or what happens else.
unfoldable pub take_line :
    Option (Text × Text)
    → OutboundByteStream
    → Decoder
    → Native Bool × Decoder
    → Native Bool × Decoder
unfolding after_line
take_line none source d otherwise = otherwise
take_line (some (line, rest)) source d otherwise =
    after_line (consume_line line d.events) (record d { source = source; input = rest })

-- The stream may end only after the event that says so.
unfoldable pub at_end : Decoder → Native Bool × Decoder
at_end d = (
  if is_empty d.input && is_empty d.events.event_data && d.events.done then ok false else err bad,
  record d { source = []; exhausted = true },
)

-- The loop of `next_event`: it pulls until the input has a line.
unfoldable pub next_event_from : OutboundByteStream → Decoder → Native Bool × Decoder
unfolding take_line at_end split_at_first
next_event_from [] d = take_line (split_at_first 10 d.input) [] d (at_end d)
next_event_from (err e ∷ source) d = take_line (split_at_first 10 d.input) (err e ∷ source) d (
  err (raised (Provider.new TargetErrorKind.connection_error none)),
  record d { source = source },
)
next_event_from (ok bytes ∷ source) d =
    take_line (split_at_first 10 d.input) (ok bytes ∷ source) d (
      if leb (length d.input + length bytes) max_input_bytes
      then next_event_from source (record d { input = d.input ++ bytes })
      else (err bad, record d { source = source }))

unfoldable pub next_event : Decoder → Native Bool × Decoder
unfolding next_event_from
next_event d = next_event_from d.source d

pub data Next : Type 0 where
  item : Item → Next
  finished out_of_fuel : Next

-- `pending.pop_front()`, or what happens if it is empty.
unfoldable pub pop : List Item → Decoder → Next × Decoder → Next × Decoder
pop [] d otherwise = otherwise
pop (first ∷ later) d otherwise =
    (item first, record d { events = record d.events { pending = later } })

unfoldable pub after_event : Native Bool × Decoder → (Decoder → Next × Decoder) → Next × Decoder
unfolding pop
after_event (err e, d) again = (item (err e), record d { exhausted = true })
after_event (ok false, d) again = pop d.events.pending d (finished, d)
after_event (ok true, d) again = pop d.events.pending d (again d)

unfoldable pub next_loop : ℕ → Decoder → Next × Decoder
unfolding next_event after_event
next_loop zero d = (out_of_fuel, d)
next_loop (suc fuel) d = after_event (next_event d) (λ d'. next_loop fuel d')

unfoldable pub bytes_left : OutboundByteStream → ℕ
bytes_left [] = 0
bytes_left (ok bytes ∷ source) = length bytes + bytes_left source
bytes_left (err e ∷ source) = bytes_left source

-- `next`: each round takes at least the line break off what is left.
unfoldable pub next : Decoder → Next × Decoder
unfolding next_loop bytes_left
next d = pop d.events.pending d (
    if d.exhausted then (finished, d) else next_loop (suc (length d.input + bytes_left d.source)) d)
