-- ===== src/Response/Stream.antt =====
-- StreamAssembler (src/response.rs): the state that one native stream keeps, and its operations.
-- An operation returns its result and the state that it leaves, after an error too.
pub mod Push
pub mod Frame
use nano_llm.Common.{
  ℕ, ◌+◌, Text, lit, text_eq, contains, Bool, true, false, not, ◌&&◌, ◌||◌, Option, none, some,
  List, [], ◌∷◌, ◌++◌, ltb, leb, ◌==◌, if◌then◌else◌, is_some, is_empty, Result, ok, err, ensure,
  ◌>>=◌, ◌>>◌,
}
use nano_llm.Request.{CanonicalRequest}
use nano_llm.Response.{
  ResponseError, invalid_response, FinishReason, NativeTerminal, Usage, valid_usage,
  ResponseMetadata, ToolCall, declared_tools, normalize_terminal, validate_outcome,
}
use nano_llm.Response.Ids.{Ids, claim_id}

pub record ToolCallDelta : Type 0 where
  pub index : ℕ
  pub id : Option Text
  pub kind : Option Text
  pub name : Option Text
  pub arguments : Option Text

pub record AssistantDelta : Type 0 where
  pub role : Option Text
  pub content : Option Text
  pub tool_calls : List ToolCallDelta

pub record ChunkChoice : Type 0 where
  pub index : ℕ
  pub delta : AssistantDelta
  pub finish_reason : Option FinishReason

pub record ChatChunk : Type 0 where
  pub id : Text
  pub object : Text
  pub created : ℕ
  pub model : Text
  pub choices : List ChunkChoice
  pub usage : Option Usage

pub record PartialCall : Type 0 where
  pub id : Text
  pub preserved_native_id : Bool
  pub name : Text
  pub arguments : Text

-- HashMap<usize, PartialCall>, as an association list
abbrev pub Calls : Type 0
Calls = List (ℕ × PartialCall)

unfoldable pub get_call : Calls → ℕ → Option PartialCall
get_call [] index = none
get_call ((key, call) ∷ calls) index = if key == index then some call else get_call calls index

unfoldable pub put_call : ℕ → PartialCall → Calls → Calls
put_call index call [] = (index, call) ∷ []
put_call index call ((key, old) ∷ calls) =
    if key == index then (key, call) ∷ calls else (key, old) ∷ put_call index call calls

-- sort_by_key on the index
insert_sorted : ℕ × PartialCall → Calls → Calls
insert_sorted entry [] = entry ∷ []
insert_sorted entry (other ∷ calls) =
    if leb entry.0 other.0 then entry ∷ other ∷ calls else other ∷ insert_sorted entry calls

unfoldable pub sort_calls : Calls → Calls
unfolding insert_sorted
sort_calls [] = []
sort_calls (entry ∷ calls) = insert_sorted entry (sort_calls calls)

-- `ids` holds `used_ids` and the counter NEXT_ID.
pub record StreamAssembler : Type 0 where
  pub request : CanonicalRequest
  pub metadata : ResponseMetadata
  pub calls : Calls
  pub ids : Ids
  pub next_index : ℕ
  pub started : Bool
  pub saw_content : Bool
  pub terminal : Bool
  pub emitted_usage : Bool

unfoldable pub new : CanonicalRequest → ResponseMetadata → (next_id : ℕ) → StreamAssembler
new request metadata next_id = record {
  request = request;
  metadata = metadata;
  calls = [];
  ids = record { used = []; next = next_id };
  next_index = 0;
  started = false;
  saw_content = false;
  terminal = false;
  emitted_usage = false;
}

-- Result<A, ResponseError> of a `&mut self` method
abbrev pub Outcome : Type 0 → Type 0
Outcome A = Result ResponseError A × StreamAssembler

-- The branch `part.index == self.next_index`.
unfoldable pub introduce : ToolCallDelta → StreamAssembler → ToolCallDelta × StreamAssembler
introduce part s =
    let (id, preserved, ids') = claim_id part.id s.ids in
    if part.index == s.next_index
    then (
      record part { id = some id },
      record s {
        ids = ids';
        calls =
            put_call part.index
              (record { id = id; preserved_native_id = preserved; name = []; arguments = [] })
              s.calls;
        next_index = s.next_index + 1;
      },
    )
    else (part, s)

unfoldable pub id_changed : PartialCall → Option Text → Bool
id_changed call none = false
id_changed call (some id) = call.preserved_native_id && not (text_eq id call.id)

unfoldable pub wrong_kind : Option Text → Bool
wrong_kind none = false
wrong_kind (some kind) = not (text_eq kind (lit "function"))

abbrev pub push_str : Text → Option Text → Text
push_str text none = text
push_str text (some more) = text ++ more

-- What follows the lookup of the call.
unfoldable pub extend_call : ToolCallDelta → PartialCall → StreamAssembler → Outcome ToolCallDelta
unfolding id_changed wrong_kind
extend_call part call s =
    if id_changed call part.id
    then (err (invalid_response (lit "tool-call ID changed during stream")), s)
    else if wrong_kind part.kind
    then (err (invalid_response (lit "stream tool-call type must be function")), s)
    else (
      ok (record part { id = if call.preserved_native_id then part.id else some call.id }),
      record s {
        calls =
            put_call part.index
              (record call {
                name = push_str call.name part.name;
                arguments = push_str call.arguments part.arguments;
              })
              s.calls;
      },
    )

unfoldable pub accept_call_delta : ToolCallDelta → StreamAssembler → Outcome ToolCallDelta
unfolding introduce extend_call
accept_call_delta part s =
    let (part', s') = introduce part s in
    if ltb s.next_index part.index
    then (
      err (invalid_response (lit "tool-call indices must be introduced in increasing order")),
      s,
    )
    else elim (get_call s'.calls part.index) [
      | none ↦ (err (invalid_response (lit "tool-call index was not introduced")), s')
      | some call ↦ extend_call part' call s'
    ]

-- `?` in a `&mut self` method: an error keeps the state that the failed call left.
abbrev pub and_then : {A B : Type 0} → Outcome A → (A → StreamAssembler → Outcome B) → Outcome B
and_then (ok a, s) f = f a s
and_then (err e, s) f = (err e, s)

-- `for part in &mut delta.tool_calls`
unfoldable pub accept_parts : List ToolCallDelta → StreamAssembler → Outcome (List ToolCallDelta)
accept_parts [] s = (ok [], s)
accept_parts (part ∷ parts) s =
    and_then (accept_call_delta part s)
      λ part' s'. and_then (accept_parts parts s') λ parts' t. (ok (part' ∷ parts'), t)
