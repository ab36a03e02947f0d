-- ===== src/Response/Stream/Push.antt =====
-- StreamAssembler (src/response.rs): push, finish, usage_chunk and completed_calls.
use nano_llm.Common.{
  ℕ, Text, lit, text_eq, contains, Bool, true, false, not, ◌&&◌, ◌||◌, Option, none, some, List, [],
  ◌∷◌, ◌==◌, if◌then◌else◌, is_some, is_empty, Result, ok, err, ◌>>=◌, ◌>>◌,
}
use nano_llm.Response.{
  ResponseError, invalid_response, FinishReason, NativeTerminal, Usage, valid_usage, ToolCall,
  declared_tools, normalize_terminal, validate_outcome,
}
use nano_llm.Response.Stream.{
  AssistantDelta, ChatChunk, PartialCall, Calls, sort_calls, StreamAssembler, Outcome, and_then,
  accept_parts,
}

completed_call : List Text → PartialCall → Result ResponseError ToolCall
completed_call declared call =
    if is_empty call.name || not (contains declared call.name)
    then err (invalid_response (lit "streamed tool call is incomplete or undeclared"))
    else ok (record {
      id = call.id;
      kind = lit "function";
      function = record { name = call.name; arguments = call.arguments };
    })

complete_all : List Text → Calls → Result ResponseError (List ToolCall)
unfolding completed_call
complete_all declared [] = ok []
complete_all declared ((index, call) ∷ calls) = do
  done ← completed_call declared call
  rest ← complete_all declared calls
  ok (done ∷ rest)

unfoldable pub completed_calls : StreamAssembler → Result ResponseError (List ToolCall)
unfolding complete_all
completed_calls s = complete_all (declared_tools s.request) (sort_calls s.calls)

-- `self.saw_content.then_some("")`
abbrev pub seen_content : StreamAssembler → Option Text
seen_content s = if s.saw_content then some [] else none

-- The finish reason that a terminal event gives the stream.
unfoldable pub finish_reason : NativeTerminal → StreamAssembler → Result ResponseError FinishReason
finish_reason native s = do
  calls ← completed_calls s
  finish ← normalize_terminal native (seen_content s) (not (is_empty calls))
  validate_outcome s.request.tool_choice (seen_content s) calls finish
  ok finish

unfoldable pub chunk : StreamAssembler → AssistantDelta → Option FinishReason → ChatChunk
chunk s delta finish = record {
  id = s.metadata.id;
  object = lit "chat.completion.chunk";
  created = s.metadata.created;
  model = s.request.model;
  choices = record { index = 0; delta = delta; finish_reason = finish } ∷ [];
  usage = none;
}

-- The branch `if let Some(native) = terminal`, after its checks.
unfoldable pub conclude :
    AssistantDelta
    → Result ResponseError FinishReason
    → StreamAssembler
    → Outcome (Option ChatChunk)
unfolding chunk
conclude delta (err e) s = (err e, s)
conclude delta (ok finish) s =
    (ok (some (chunk s delta (some finish))), record s { terminal = true })

unfoldable pub close :
    AssistantDelta → Option NativeTerminal → StreamAssembler → Outcome (Option ChatChunk)
unfolding finish_reason chunk conclude
close delta none s = (ok (some (chunk s delta none)), s)
close delta (some native) s = conclude delta (finish_reason native s) s

unfoldable pub is_silent : AssistantDelta → Option NativeTerminal → Bool
is_silent delta terminal =
    not (is_some delta.role)
    && not (is_some delta.content)
    && is_empty delta.tool_calls
    && not (is_some terminal)

-- The first delta that is delivered has the role.
unfoldable pub with_role : Bool → AssistantDelta → AssistantDelta
with_role true delta = delta
with_role false delta = record delta { role = some (lit "assistant") }

abbrev pub opened : AssistantDelta → StreamAssembler → StreamAssembler
opened delta s = record s { started = true; saw_content = s.saw_content || is_some delta.content }

unfoldable pub deliver :
    AssistantDelta → Option NativeTerminal → StreamAssembler → Outcome (Option ChatChunk)
unfolding is_silent with_role close
deliver delta terminal s =
    if is_silent delta terminal
    then (ok none, s)
    else close (with_role s.started delta) terminal (opened delta s)

unfoldable pub foreign_role : Option Text → Bool
foreign_role none = false
foreign_role (some role) = not (text_eq role (lit "assistant"))

-- What follows the three checks of `push`.
unfoldable pub push_checked :
    AssistantDelta → Option NativeTerminal → StreamAssembler → Outcome (Option ChatChunk)
unfolding deliver
push_checked delta terminal s =
    and_then (accept_parts delta.tool_calls s)
      λ parts s'. deliver (record delta { tool_calls = parts }) terminal s'

unfoldable pub push :
    (choice_index : ℕ)
    → AssistantDelta
    → Option NativeTerminal
    → StreamAssembler
    → Outcome (Option ChatChunk)
unfolding foreign_role push_checked
push choice_index delta terminal s =
    if not (choice_index == 0)
    then (err (invalid_response (lit "ordinary stream choice index must be zero")), s)
    else if s.terminal
    then (err (invalid_response (lit "ordinary chunk after terminal chunk")), s)
    else if foreign_role delta.role
    then (err (invalid_response (lit "stream delta role must be assistant")), s)
    else push_checked delta terminal s

unfoldable pub finish : StreamAssembler → Result ResponseError (Unit {0})
finish s =
    if not s.started
    then err (invalid_response (lit "stream ended before an ordinary chunk"))
    else if not s.terminal
    then err (invalid_response (lit "stream ended without a terminal chunk"))
    else ok tt

usage_only : Usage → StreamAssembler → ChatChunk
usage_only usage s = record {
  id = s.metadata.id;
  object = lit "chat.completion.chunk";
  created = s.metadata.created;
  model = s.request.model;
  choices = [];
  usage = some usage;
}

unfoldable pub usage_chunk : Usage → StreamAssembler → Outcome (Option ChatChunk)
unfolding finish usage_only
usage_chunk usage s = elim (finish s) [
  | err e ↦ (err e, s)
  | ok _ ↦
      if not s.request.include_usage || s.emitted_usage
      then (ok none, s)
      else elim (valid_usage usage) [
        | none ↦ (ok none, s)
        | some counts ↦ (ok (some (usage_only counts s)), record s { emitted_usage = true })
      ]
]
