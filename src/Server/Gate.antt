-- ===== src/Server/Gate.antt =====
-- StreamSuccessState (src/server.rs): the last check on each chunk before its bytes are public.
pub mod Fits
pub mod Session
use nano_llm.Common.{
  ℕ, Text, lit, text_eq, Bool, true, false, not, ◌&&◌, ◌||◌, Option, none, some, List, [], ◌∷◌,
  ◌==◌, if◌then◌else◌, is_some, is_empty,
}
use nano_llm.Response.{Usage, checked_add, sum_is}
use nano_llm.Response.Stream.{AssistantDelta, ChunkChoice, ChatChunk}

pub record StreamMetadata : Type 0 where
  pub id : Text
  pub object : Text
  pub created : ℕ
  pub model : Text

unfoldable pub metadata_of : ChatChunk → StreamMetadata
metadata_of chunk = record {
  id = chunk.id;
  object = chunk.object;
  created = chunk.created;
  model = chunk.model;
}

pub record StreamSuccessState : Type 0 where
  pub terminal : Bool
  pub usage_seen : Bool
  pub include_usage : Bool

unfoldable pub same_metadata : ChatChunk → StreamMetadata → Bool
same_metadata chunk metadata =
    text_eq chunk.id metadata.id
    && text_eq chunk.object metadata.object
    && chunk.created == metadata.created
    && text_eq chunk.model metadata.model

counts_add_up : Usage → Bool
counts_add_up usage =
    sum_is (checked_add usage.prompt_tokens usage.completion_tokens) usage.total_tokens

-- A chunk with no choice carries the usage.
accept_usage : Option Usage → StreamSuccessState → Bool × StreamSuccessState
unfolding counts_add_up
accept_usage none state = (false, state)
accept_usage (some usage) state =
    if not state.include_usage
      || state.usage_seen
      || not state.terminal
      || not (counts_add_up usage)
    then (false, state)
    else (true, record state { usage_seen = true })

unfoldable pub has_delta : AssistantDelta → Bool
has_delta delta = is_some delta.role || is_some delta.content || not (is_empty delta.tool_calls)

other_role : Option Text → Bool
other_role none = false
other_role (some role) = not (text_eq role (lit "assistant"))

accept_choice : ChunkChoice → StreamSuccessState → Bool × StreamSuccessState
unfolding has_delta other_role
accept_choice choice state =
    if not (choice.index == 0)
    then (false, state)
    else if (not (has_delta choice.delta) && not (is_some choice.finish_reason))
        || other_role choice.delta.role
    then (false, state)
    else if is_some choice.finish_reason
    then (true, record state { terminal = true })
    else (true, state)

accept_choices : ChatChunk → List ChunkChoice → StreamSuccessState → Bool × StreamSuccessState
unfolding accept_usage accept_choice
accept_choices chunk [] state = accept_usage chunk.usage state
accept_choices chunk (choice ∷ []) state =
    if state.terminal || is_some chunk.usage then (false, state) else accept_choice choice state
accept_choices chunk (_ ∷ _ ∷ _) state = (false, state)

-- `accept` returns its verdict and the state that it leaves.
unfoldable pub accept : ChatChunk → StreamMetadata → StreamSuccessState → Bool × StreamSuccessState
unfolding same_metadata accept_choices
accept chunk metadata state =
    if same_metadata chunk metadata
    then accept_choices chunk chunk.choices state
    else (false, state)

unfoldable pub has_initial_role : List ChunkChoice → Bool
has_initial_role (choice ∷ []) = elim choice.delta.role [
  | none ↦ false
  | some role ↦ text_eq role (lit "assistant")
]
has_initial_role _ = false

unfoldable pub first : ChatChunk → (include_usage : Bool) → Option StreamSuccessState
unfolding accept has_initial_role metadata_of
first chunk include_usage =
    let (fine, state) =
      accept chunk (metadata_of chunk)
        (record { terminal = false; usage_seen = false; include_usage = include_usage }) in
    if has_initial_role chunk.choices && fine then some state else none
