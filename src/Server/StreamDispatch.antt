-- ===== src/Server/StreamDispatch.antt =====
-- Routing of a streamed request (src/server.rs, dispatch_stream_route): a target is chosen once its
-- first chunk is there.
pub mod Opening
pub mod Started
use nano_llm.Common.{
  ℕ, ◌+◌, ◌*◌, min, Text, text_eq, Bool, true, false, ◌&&◌, Option, none, some, List, [], ◌∷◌, ◌++◌,
  leb, if◌then◌else◌, is_some, Result, ok, err,
}
use nano_llm.Config.{RuntimeTarget}
use nano_llm.Request.{CanonicalRequest}
use nano_llm.Response.Stream.{ChatChunk}
use nano_llm.Provider.{TargetError, timed_out, invalid, ProviderStream, World}
use nano_llm.Server.Dispatch.{
  AttemptOutcome, AttemptRecord, RouteDiagnostics, RouteExhausted, DeadlineOutcome,
  route_diagnostics, route_exhausted, attempt_at, failed_attempt, second, saturating_add,
  block_on_until,
}
use nano_llm.Server.Gate.{first}

-- The clock and the cancellation flag that the source keeps beside these are the World's.
pub record StreamRouteDispatch : Type 0 where
  pub first_chunk : ChatChunk
  pub stream : ProviderStream
  pub attempts : List AttemptRecord
  pub diagnostics : RouteDiagnostics
  pub idle_timeout : ℕ
  pub include_usage : Bool

module _ (w : World) (fuel : ℕ) (request : CanonicalRequest) where
  abbrev pub StreamDispatched : Type 0
  StreamDispatched = Option (Result RouteExhausted StreamRouteDispatch × ℕ)

  abbrev pub Rest : Type 0
  Rest = List AttemptRecord → ℕ → StreamDispatched

  -- The client is gone while the target is tried.
  abbrev pub gone_at : ℕ → RuntimeTarget → List AttemptRecord → ℕ → StreamDispatched
  gone_at route_index target attempts t = some (
    err (
        route_exhausted request
          (attempts ++ attempt_at route_index target AttemptOutcome.cancelled ∷ []) false true),
    t,
  )

  -- The guard of the success arm.
  unfoldable pub opens : ChatChunk → Bool
  opens chunk = is_some (first chunk request.include_usage) && text_eq chunk.model request.model

  unfoldable pub committed :
      ℕ → RuntimeTarget → List AttemptRecord → ProviderStream → ChatChunk → StreamRouteDispatch
  committed route_index target attempts stream chunk =
      let attempts' = attempts ++ attempt_at route_index target AttemptOutcome.succeeded ∷ [] in
      record {
        first_chunk = chunk;
        stream = stream;
        attempts = attempts';
        diagnostics = route_diagnostics request attempts';
        idle_timeout = target.timeout * second;
        include_usage = request.include_usage;
      }

  -- The match on the first item; `next` is the rest of the loop.
  unfoldable pub take_first :
      ℕ
      → RuntimeTarget
      → List AttemptRecord
      → ProviderStream
      → Option (Result TargetError ChatChunk)
      → ℕ
      → Rest
      → StreamDispatched
  unfolding opens committed
  take_first route_index target attempts stream (some (ok chunk)) t next =
      if opens chunk
      then some (ok (committed route_index target attempts stream chunk), t)
      else next (attempts ++ failed_attempt route_index target invalid ∷ []) t
  take_first route_index target attempts stream (some (err error)) t next =
      next (attempts ++ failed_attempt route_index target error ∷ []) t
  take_first route_index target attempts stream none t next =
      next (attempts ++ failed_attempt route_index target invalid ∷ []) t

  -- The checks before and after the first pull on the stream.
  unfoldable pub pull_first :
      (attempt overall : ℕ)
      → ℕ
      → RuntimeTarget
      → List AttemptRecord
      → ProviderStream
      → ℕ
      → Rest
      → StreamDispatched
  unfolding take_first
  pull_first attempt overall route_index target attempts stream t next =
      if w.cancelled t
      then gone_at route_index target attempts (t + 1)
      else if leb overall (w.now (t + 1))
      then some (err (route_exhausted request attempts true false), t + 2)
      else if leb attempt (w.now (t + 2))
      then next (attempts ++ failed_attempt route_index target timed_out ∷ []) (t + 3)
      else if leb overall (w.now (t + 3))
      then some (err (route_exhausted request attempts true false), t + 4)
      else if w.cancelled (t + 4)
      then gone_at route_index target attempts (t + 5)
      else if leb attempt (w.now (t + 5))
      then next (attempts ++ failed_attempt route_index target timed_out ∷ []) (t + 6)
      else take_first route_index target attempts stream (stream 0) (t + 6) next

  -- The match on the outcome of the setup.
  unfoldable pub connect :
      (attempt overall : ℕ)
      → ℕ
      → RuntimeTarget
      → List AttemptRecord
      → Option (Result DeadlineOutcome (Result TargetError ProviderStream) × ℕ)
      → Rest
      → StreamDispatched
  unfolding pull_first
  connect attempt overall route_index target attempts none next = none
  connect attempt overall route_index target attempts (some (ok (ok stream), t)) next =
      pull_first attempt overall route_index target attempts stream t next
  connect attempt overall route_index target attempts (some (ok (err error), t)) next =
      next (attempts ++ failed_attempt route_index target error ∷ []) t
  connect attempt overall route_index target attempts
        (some (err DeadlineOutcome.attempt_timeout, t)) next =
      next (attempts ++ failed_attempt route_index target timed_out ∷ []) t
  connect attempt overall route_index target attempts
        (some (err DeadlineOutcome.overall_timeout, t)) next =
      some (err (route_exhausted request attempts true false), t)
  connect attempt overall route_index target attempts (some (err DeadlineOutcome.cancelled, t))
        next =
      gone_at route_index target attempts t

  unfoldable pub try_streams :
      (overall : ℕ) → ℕ → List RuntimeTarget → List AttemptRecord → ℕ → StreamDispatched
  unfolding connect
  try_streams overall route_index [] attempts t =
      some (err (route_exhausted request attempts false false), t)
  try_streams overall route_index (target ∷ targets) attempts t =
      let attempt = min (saturating_add (w.now (t + 2)) (target.timeout * second)) overall in
      let done =
        block_on_until w fuel ((w.provider_factory target).complete_stream request) attempt overall
          (t + 3) in
      if w.cancelled t
      then some (err (route_exhausted request attempts false true), t + 1)
      else if leb overall (w.now (t + 1))
      then some (err (route_exhausted request attempts true false), t + 2)
      else if leb overall (w.now (t + 2))
      then some (err (route_exhausted request attempts true false), t + 3)
      else connect attempt overall route_index target attempts done
          (λ attempts' t'. try_streams overall (route_index + 1) targets attempts' t')

  unfoldable pub dispatch_stream_route : (seconds : ℕ) → List RuntimeTarget → ℕ → StreamDispatched
  unfolding try_streams saturating_add
  dispatch_stream_route seconds targets t =
      try_streams (saturating_add (w.now t) (seconds * second)) 0 targets [] (t + 1)
