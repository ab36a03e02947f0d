-- ===== src/Server/Sse/Body.antt =====
-- The two ways of sending a stream (src/server.rs, write_sse_stream and sse_response) agree.
use nano_llm.Common.{
  ℕ, zero, suc, ◌+◌, Text, Bool, true, false, ◌≡◌, refl, sym, ap, ◌∙◌, inl, inr, Option, none, some,
  List, [], ◌∷◌, ◌++◌, leb, Bool-cases, Result, ok, err,
}
use mathlib.Core.List.{append-nil, append_assoc}
use nano_llm.Response.Stream.{ChatChunk}
use nano_llm.Provider.{TargetError, ProviderStream, World}
use nano_llm.Server.Gate.{StreamMetadata, StreamSuccessState, first, accept}
use nano_llm.Server.Serialize.{serialize_sse_chunk}
use nano_llm.Server.StreamDispatch.{StreamRouteDispatch}
use nano_llm.Server.Sse.{
  StreamCompletionOutcome, completed, client_disconnected, upstream_failed_after_commit, Sent,
  done_event, stopped, sent_before, failed, disconnected, write_item, write_from, body_item,
  body_from, closing, close_body, HttpResponse, empty_sse_response_with_body, write_first,
  write_sse_stream, body_first, sse_response,
}

-- The bytes of the events.
abbrev pub bytes : List Text → Text
bytes [] = []
bytes (event ∷ events) = event ++ bytes events

-- The response whose body is what was sent, after `body`.
abbrev pub as_response : Text → Option Sent → Option (HttpResponse × StreamCompletionOutcome)
as_response body none = none
as_response body (some sent) =
    some (empty_sse_response_with_body (body ++ bytes sent.events), sent.outcome)

-- A socket that takes every write.
abbrev pub always : ℕ → Bool
always k = true

stop_body :
    (body : Text) (outcome : StreamCompletionOutcome) (cancels : Bool)
    → closing outcome ≡ []
    → close_body (some (body, outcome)) ≡ as_response body (stopped outcome cancels)
unfolding close_body closing
stop_body body completed cancels h = cc
stop_body body client_disconnected cancels h = rw (append-nil body) refl
stop_body body upstream_failed_after_commit cancels h = rw (append-nil body) refl

sent_before-response :
    (body event : Text) (o : Option Sent)
    → as_response (body ++ event) o ≡ as_response body (sent_before event o)
unfolding sent_before
sent_before-response body event none = refl
sent_before-response body event (some sent) = rw (append_assoc body event (bytes sent.events)) refl

module _ (w : World) (idle : ℕ) (stream : ProviderStream) (m : StreamMetadata) where
  failed_body :
      (body : Text) → close_body (some (body, failed)) ≡ as_response body (stopped failed false)
  failed_body body = stop_body body failed false (unfold closing in refl)

  gone_body :
      (body : Text)
      → close_body (some (body, disconnected)) ≡ as_response body (stopped disconnected false)
  gone_body body = stop_body body disconnected false (unfold closing in refl)

  done_body :
      (body : Text)
      → close_body (some (body, completed))
        ≡ some (empty_sse_response_with_body (body ++ bytes (done_event ∷ [])), completed)
  unfolding close_body
  done_body body =
      ap (λ d. some (empty_sse_response_with_body (body ++ d), completed))
        (sym (append-nil done_event))

  body_item-response :
      (item : Option (Result TargetError ChatChunk)) (body : Text) (g : StreamSuccessState)
      (deadline t k : ℕ)
      (next_body : Text
        → StreamSuccessState
        → (deadline t : ℕ) → Option (Text × StreamCompletionOutcome))
      (next : StreamSuccessState → (deadline t : ℕ) → Option Sent)
      → ((b : Text) (g' : StreamSuccessState) (d u : ℕ)
          → close_body (next_body b g' d u) ≡ as_response b (next g' d u))
      → close_body (body_item w idle stream m item body g deadline t next_body)
        ≡ as_response body (write_item w idle always stream m item g deadline t k next)
  unfolding body_item write_item
  body_item-response none body g deadline t k next_body next h = elim (Bool-cases g.terminal) [
    | inl p ↦ simp (p) (done_body body)
    | inr p ↦ simp (p) (failed_body body)
  ]
  body_item-response (some (err error)) body g deadline t k next_body next h = failed_body body
  body_item-response (some (ok c)) body g deadline t k next_body next h =
      elim (Bool-cases (accept c m g).0) [
        | inl p ↦ rw p (
            h _ _ _ _
            ∙ sent_before-response body (serialize_sse_chunk c) (next (accept c m g).1 _ _))
        | inr p ↦ rw p (failed_body body)
      ]

  body_from-response :
      (fuel : ℕ) (body : Text) (g : StreamSuccessState) (deadline t k : ℕ)
      → close_body (body_from w idle stream m fuel body g deadline t k)
        ≡ as_response body (write_from w idle always stream m fuel g deadline t k)
  unfolding body_from write_from
  body_from-response zero body g deadline t k = unfold close_body in refl
  body_from-response (suc fuel) body g deadline t k = elim (Bool-cases (w.cancelled t)) [
    | inl p ↦ rw p (gone_body body)
    | inr p ↦ rw p (elim (Bool-cases (leb deadline (w.now (t + 1)))) [
      | inl q ↦ rw q (failed_body body)
      | inr q ↦ rw q (elim (Bool-cases (w.cancelled (t + 2))) [
        | inl r ↦ rw r (gone_body body)
        | inr r ↦ rw r (elim (Bool-cases (leb deadline (w.now (t + 3)))) [
          | inl u ↦ rw u (failed_body body)
          | inr u ↦ rw u (
              body_item-response (stream k) body g deadline (t + 4) k _ _
                λ b g' d v. body_from-response fuel b g' d v (k + 1))
        ])
      ])
    ])
  ]

body_first-response :
    (w : World) (fuel : ℕ) (dispatch : StreamRouteDispatch) (o : Option StreamSuccessState) (t : ℕ)
    → body_first w fuel dispatch o t ≡ as_response [] (write_first w fuel always dispatch o t)
unfolding body_first write_first
body_first-response w fuel dispatch none t = refl
body_first-response w fuel dispatch (some g) t =
    body_from-response w _ dispatch.stream _ fuel (serialize_sse_chunk dispatch.first_chunk) g _ _ 1
    ∙ sent_before-response [] (serialize_sse_chunk dispatch.first_chunk) _

-- On a socket that takes every write, `write_sse_stream` sends exactly the bytes of the body that
-- `sse_response` builds, and both report the same outcome, whatever the clock, the client and the
-- upstream do.
pub sse_response-write_sse_stream :
    (w : World) (fuel : ℕ) (dispatch : StreamRouteDispatch) (t : ℕ)
    → sse_response w fuel dispatch t ≡ as_response [] (write_sse_stream w fuel always dispatch t)
unfolding sse_response write_sse_stream
sse_response-write_sse_stream w fuel dispatch t =
    body_first-response w fuel dispatch (first dispatch.first_chunk dispatch.include_usage) t
