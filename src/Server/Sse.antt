-- ===== src/Server/Sse.antt =====
-- The two ways in which src/server.rs sends a committed stream: write_sse_stream to the socket, event
-- by event, and sse_response into one body. `writes k` says whether the k-th write to the socket
-- succeeds; `none` means that the fuel ran out before the stream did.
mod Tests
pub mod Delivered
pub mod Ends
pub mod Body
use nano_llm.Common.{
  ℕ, zero, suc, ◌+◌, Text, lit, Bool, true, false, Option, none, some, List, [], ◌∷◌, ◌++◌, leb,
  if◌then◌else◌, is_empty, Result, ok, err,
}
use nano_llm.Response.Stream.{ChatChunk}
use nano_llm.Provider.{TargetError, ProviderStream, World}
use nano_llm.Server.Dispatch.{saturating_add}
use nano_llm.Server.Gate.{StreamMetadata, metadata_of, StreamSuccessState, first, accept}
use nano_llm.Server.Serialize.{serialize_sse_chunk}
use nano_llm.Server.StreamDispatch.{StreamRouteDispatch}

pub data StreamCompletionOutcome : Type 0 where
  completed client_disconnected upstream_failed_after_commit : StreamCompletionOutcome

-- What write_sse_stream did: the events that it wrote, the outcome that it returns, and whether it
-- cancelled the upstream.
pub record Sent : Type 0 where
  pub events : List Text
  pub outcome : StreamCompletionOutcome
  pub cancels : Bool

abbrev pub done_event : Text
done_event = lit "data: [DONE]" ++ 10 ∷ 10 ∷ []

abbrev pub stopped : StreamCompletionOutcome → Bool → Option Sent
stopped outcome cancels = some (record { events = []; outcome = outcome; cancels = cancels })

unfoldable pub sent_before : Text → Option Sent → Option Sent
sent_before event none = none
sent_before event (some sent) = some (record sent { events = event ∷ sent.events })

abbrev pub failed : StreamCompletionOutcome
failed = StreamCompletionOutcome.upstream_failed_after_commit

abbrev pub disconnected : StreamCompletionOutcome
disconnected = StreamCompletionOutcome.client_disconnected

module _ (w : World) (idle : ℕ) where
  -- The idle deadline after a chunk: a chunk without choices leaves it. The clock is read at `t` only
  -- for a chunk with choices.
  unfoldable pub idle_after : ChatChunk → (deadline t : ℕ) → ℕ × ℕ
  idle_after chunk deadline t =
      if is_empty chunk.choices then (deadline, t) else (saturating_add (w.now t) idle, t + 1)

  module _ (writes : ℕ → Bool) (stream : ProviderStream) (expected : StreamMetadata) where
    -- The item of one round; `next` is the loop from the next item on.
    unfoldable pub write_item :
        Option (Result TargetError ChatChunk)
        → StreamSuccessState
        → (deadline t k : ℕ) → (StreamSuccessState → (deadline t : ℕ) → Option Sent)
        → Option Sent
    unfolding idle_after sent_before serialize_sse_chunk
    write_item none state deadline t k next =
        if state.terminal
        then (if writes k
            then some (record {
              events = done_event ∷ [];
              outcome = StreamCompletionOutcome.completed;
              cancels = false;
            })
            else stopped disconnected true)
        else stopped failed false
    write_item (some (err error)) state deadline t k next = stopped failed false
    write_item (some (ok chunk)) state deadline t k next =
        let (fine, state') = accept chunk expected state in
        let (deadline', t') = idle_after chunk deadline t in
        if fine
        then (if writes k
            then sent_before (serialize_sse_chunk chunk) (next state' deadline' t')
            else stopped disconnected true)
        else stopped failed false

    -- The loop of `write_sse_stream`; the k-th item is the k-th write.
    unfoldable pub write_from : ℕ → StreamSuccessState → (deadline t k : ℕ) → Option Sent
    unfolding write_item
    write_from zero state deadline t k = none
    write_from (suc fuel) state deadline t k =
        if w.cancelled t
        then stopped disconnected false
        else if leb deadline (w.now (t + 1))
        then stopped failed false
        else if w.cancelled (t + 2)
        then stopped disconnected false
        else if leb deadline (w.now (t + 3))
        then stopped failed false
        else write_item (stream k) state deadline (t + 4) k
            (λ state' deadline' t'. write_from fuel state' deadline' t' (k + 1))

  module _ (stream : ProviderStream) (expected : StreamMetadata) where
    abbrev pub Written : Type 0
    Written = Option (Text × StreamCompletionOutcome)

    unfoldable pub body_item :
        Option (Result TargetError ChatChunk)
        → Text
        → StreamSuccessState
        → (deadline t : ℕ) → (Text → StreamSuccessState → (deadline t : ℕ) → Written)
        → Written
    unfolding idle_after serialize_sse_chunk
    body_item none body state deadline t next =
        if state.terminal
        then some (body, StreamCompletionOutcome.completed)
        else some (body, failed)
    body_item (some (err error)) body state deadline t next = some (body, failed)
    body_item (some (ok chunk)) body state deadline t next =
        let (fine, state') = accept chunk expected state in
        let (deadline', t') = idle_after chunk deadline t in
        if fine
        then next (body ++ serialize_sse_chunk chunk) state' deadline' t'
        else some (body, failed)

    -- The loop of `sse_response`.
    unfoldable pub body_from : ℕ → Text → StreamSuccessState → (deadline t k : ℕ) → Written
    unfolding body_item
    body_from zero body state deadline t k = none
    body_from (suc fuel) body state deadline t k =
        if w.cancelled t
        then some (body, disconnected)
        else if leb deadline (w.now (t + 1))
        then some (body, failed)
        else if w.cancelled (t + 2)
        then some (body, disconnected)
        else if leb deadline (w.now (t + 3))
        then some (body, failed)
        else body_item (stream k) body state deadline (t + 4)
            (λ body' state' deadline' t'. body_from fuel body' state' deadline' t' (k + 1))

pub record HttpResponse : Type 0 where
  pub status : ℕ
  pub headers : List (Text × Text)
  pub body : Text

abbrev pub empty_sse_response_with_body : Text → HttpResponse
empty_sse_response_with_body body = record {
  status = 200;
  headers =
      (lit "content-type", lit "text/event-stream") ∷ (lit "cache-control", lit "no-cache") ∷ [];
  body = body;
}

-- The marker of a completed stream.
unfoldable pub closing : StreamCompletionOutcome → List Text
closing StreamCompletionOutcome.completed = done_event ∷ []
closing StreamCompletionOutcome.client_disconnected = []
closing StreamCompletionOutcome.upstream_failed_after_commit = []

unfoldable pub close_body :
    Option (Text × StreamCompletionOutcome) → Option (HttpResponse × StreamCompletionOutcome)
close_body none = none
close_body (some (body, StreamCompletionOutcome.completed)) =
    some (empty_sse_response_with_body (body ++ done_event), StreamCompletionOutcome.completed)
close_body (some (body, outcome)) = some (empty_sse_response_with_body body, outcome)

module _ (w : World) (fuel : ℕ) where
  write_first :
      (writes : ℕ → Bool) → StreamRouteDispatch → Option StreamSuccessState → ℕ → Option Sent
  unfolding write_from sent_before serialize_sse_chunk
  write_first writes dispatch none t = stopped failed false
  write_first writes dispatch (some state) t =
      if writes 0
      then sent_before (serialize_sse_chunk dispatch.first_chunk) (
          write_from w dispatch.idle_timeout writes dispatch.stream
            (metadata_of dispatch.first_chunk) fuel state
            (saturating_add (w.now t) dispatch.idle_timeout) (t + 1) 1)
      else stopped disconnected true

  unfoldable pub write_sse_stream : (writes : ℕ → Bool) → StreamRouteDispatch → ℕ → Option Sent
  unfolding write_first
  write_sse_stream writes dispatch t =
      write_first writes dispatch (first dispatch.first_chunk dispatch.include_usage) t

  body_first :
      StreamRouteDispatch
      → Option StreamSuccessState
      → ℕ
      → Option (HttpResponse × StreamCompletionOutcome)
  unfolding body_from close_body serialize_sse_chunk
  body_first dispatch none t = some (empty_sse_response_with_body [], failed)
  body_first dispatch (some state) t = close_body (
      body_from w dispatch.idle_timeout dispatch.stream (metadata_of dispatch.first_chunk) fuel
        (serialize_sse_chunk dispatch.first_chunk) state
        (saturating_add (w.now t) dispatch.idle_timeout) (t + 1) 1)

  unfoldable pub sse_response :
      StreamRouteDispatch → ℕ → Option (HttpResponse × StreamCompletionOutcome)
  unfolding body_first
  sse_response dispatch t =
      body_first dispatch (first dispatch.first_chunk dispatch.include_usage) t
