-- ===== src/Server/Chat/Handled.antt =====
-- A chat request from its body to its answer (src/server.rs, chat_response_with_permit).
use nano_llm.Common.{
  ℕ, ◌+◌, ◌*◌, Text, true, false, ◌≡◌, Option, none, some, Result, ok, err, if◌then◌else◌,
}
use nano_llm.Float.{F64}
use nano_llm.Config.{RuntimeRoute, RuntimeConfig}
use nano_llm.Request.{CanonicalRequest}
use nano_llm.Provider.{World}
use nano_llm.Server.Dispatch.{RouteDispatch, RouteExhausted, second, saturating_add, dispatch_route}
use nano_llm.Server.Dispatch.Failover.{Served}
use nano_llm.Server.StreamDispatch.{StreamRouteDispatch, dispatch_stream_route}
use nano_llm.Server.StreamDispatch.Started.{Started}
use nano_llm.Server.Sse.{StreamCompletionOutcome, sse_response}
use nano_llm.Server.Serialize.{serialize_chat_response}
use nano_llm.Server.Http.{HttpRequest}
use nano_llm.Server.Perimeter.{json_response}
use nano_llm.Server.Chat.{ChatHandling, Exit, starved}
use nano_llm.Server.Chat.Prepared.{Ended, Ready}

module _ (w : World) (fuel : ℕ) (config : RuntimeConfig) (parse_f64 : Text → Option F64)
    (request : HttpRequest) (t : ℕ) where
  -- The budget of the whole route starts once the request has been checked.
  abbrev pub deadline : ℕ
  deadline = saturating_add (w.now t) (config.general_settings.overall_timeout * second)

  -- The overall limit of the configuration, in seconds.
  abbrev limit : ℕ
  limit = config.general_settings.overall_timeout

  -- The answer says what routing came to. The first target is tried at the moment t + 1.
  pub data Reported (canonical : CanonicalRequest) (route : RuntimeRoute)
      : Result Exit ChatHandling → Type 0 where
    completed :
        (h : ChatHandling) (d : RouteDispatch) (t' : ℕ)
        → canonical.stream ≡ false
        → Served w canonical deadline (t + 1) route.targets t' (ok d)
        → h.response ≡ json_response 200 (serialize_chat_response d.response)
        → h.attempts ≡ d.attempts
        → Reported canonical route (ok h)
    streamed :
        (h : ChatHandling) (d : StreamRouteDispatch) (outcome : StreamCompletionOutcome) (t' : ℕ)
        → canonical.stream ≡ true
        → Started w canonical deadline (t + 1) route.targets t' (ok d)
        → sse_response w fuel d t' ≡ some (h.response, outcome)
        → h.attempts ≡ d.attempts
        → Reported canonical route (ok h)
    failed :
        (h : ChatHandling) (e : RouteExhausted) (t' : ℕ)
        → canonical.stream ≡ false
        → Served w canonical deadline (t + 1) route.targets t' (err e)
        → h.response.status ≡ (if e.overall_timeout then 504 else 502)
        → h.attempts ≡ e.attempts
        → Reported canonical route (ok h)
    stream_failed :
        (h : ChatHandling) (e : RouteExhausted) (t' : ℕ)
        → canonical.stream ≡ true
        → Started w canonical deadline (t + 1) route.targets t' (err e)
        → h.response.status ≡ (if e.overall_timeout then 504 else 502)
        → h.attempts ≡ e.attempts
        → Reported canonical route (ok h)
    unserved :
        canonical.stream ≡ false
        → dispatch_route w fuel canonical limit route.targets t ≡ none
        → Reported canonical route (err starved)
    unstarted :
        canonical.stream ≡ true
        → dispatch_stream_route w fuel canonical limit route.targets t ≡ none
        → Reported canonical route (err starved)
    unsent :
        (d : StreamRouteDispatch) (t' : ℕ)
        → canonical.stream ≡ true
        → Started w canonical deadline (t + 1) route.targets t' (ok d)
        → sse_response w fuel d t' ≡ none
        → Reported canonical route (err starved)

  pub data Handled : Result Exit ChatHandling → Type 0 where
    unrouted : (x : Exit) → Ended config parse_f64 request x → Handled (err x)
    routed :
        (canonical : CanonicalRequest) (route : RuntimeRoute) (r : Result Exit ChatHandling)
        → Ready config parse_f64 request canonical route
        → Reported canonical route r
        → Handled r
