-- ===== src/Server/StreamDispatch/Opening.antt =====
-- How one target fails or opens a stream (src/server.rs, dispatch_stream_route).
use nano_llm.Common.{ℕ, ◌+◌, ◌≤◌, ◌<◌, ◌≡◌, Option, none, some, Result, ok, err}
use nano_llm.Config.{RuntimeTarget}
use nano_llm.Request.{CanonicalRequest}
use nano_llm.Response.Stream.{ChatChunk}
use nano_llm.Provider.{TargetError, TargetErrorKind, ProviderStream, ready, World}
use nano_llm.Server.Dispatch.Failover.{budget}
use nano_llm.Server.Gate.{StreamSuccessState, first}
use nano_llm.Server.StreamDispatch.{StreamRouteDispatch}

module _ (w : World) (request : CanonicalRequest) (overall : ℕ) where
  -- The attempt that starts at t set its stream up and pulled the first item before either deadline;
  -- t' is the moment after it.
  pub record Pulled (target : RuntimeTarget) (t t' : ℕ) (stream : ProviderStream) : Type 0 where
    pub moment : ℕ
    pub begun : t + 3 ≤ moment
    pub connected : (w.provider_factory target).complete_stream request moment ≡ ready (ok stream)
    pub in_time : w.now (moment + 6) < overall
    pub in_budget : w.now (moment + 8) < budget w request overall target t
    pub ended : t' ≡ moment + 9

  -- The first item in time is a chunk that the check accepts as the opening of a stream by the
  -- requested model.
  pub record Opened (target : RuntimeTarget) (t t' : ℕ) (d : StreamRouteDispatch) : Type 0 where
    pub pulled : Pulled target t t' d.stream
    pub first_item : d.stream 0 ≡ some (ok d.first_chunk)
    pub accepted : (g : StreamSuccessState) × (first d.first_chunk request.include_usage ≡ some g)
    pub requested : d.first_chunk.model ≡ request.model

  -- The stream ends, or starts with a chunk that opens none.
  pub data NoOpening (item : Option (Result TargetError ChatChunk)) : Type 0 where
    ends_at_once : item ≡ none → NoOpening item
    no_start :
        (chunk : ChatChunk)
        → item ≡ some (ok chunk)
        → first chunk request.include_usage ≡ none
        → NoOpening item
    other_model :
        (chunk : ChatChunk)
        → item ≡ some (ok chunk)
        → ¬ (chunk.model ≡ request.model)
        → NoOpening item

  -- How a streamed attempt fails.
  pub data StreamFails (target : RuntimeTarget) (t t' : ℕ) (kind : TargetErrorKind)
      (status : Option ℕ) : Type 0 where
    setup_failed :
        (error : TargetError) (moment : ℕ)
        → t + 3 ≤ moment
        → (w.provider_factory target).complete_stream request moment ≡ ready (err error)
        → w.now (moment + 1) < overall
        → w.now (moment + 2) < budget w request overall target t
        → t' ≡ moment + 3
        → kind ≡ error.kind
        → status ≡ error.upstream_status
        → StreamFails target t t' kind status
    too_slow :
        (moment : ℕ)
        → t + 3 ≤ moment
        → budget w request overall target t ≤ w.now moment
        → t' ≡ moment + 1
        → kind ≡ TargetErrorKind.timeout
        → status ≡ none
        → StreamFails target t t' kind status
    first_failed :
        (stream : ProviderStream) (error : TargetError)
        → Pulled target t t' stream
        → stream 0 ≡ some (err error)
        → kind ≡ error.kind
        → status ≡ error.upstream_status
        → StreamFails target t t' kind status
    opened_none :
        (stream : ProviderStream)
        → Pulled target t t' stream
        → NoOpening (stream 0)
        → kind ≡ TargetErrorKind.invalid_response
        → status ≡ none
        → StreamFails target t t' kind status
