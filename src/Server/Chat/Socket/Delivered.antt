-- ===== src/Server/Chat/Socket/Delivered.antt =====
-- What the listener gets for an admitted chat request (src/server.rs, handle_admitted_socket_chat).
use nano_llm.Common.{
  ℕ, ◌+◌, Text, Bool, true, false, ◌≡◌, Option, none, Result, ok, err, if◌then◌else◌,
}
use nano_llm.Float.{F64}
use nano_llm.Config.{RuntimeRoute, RuntimeConfig}
use nano_llm.Request.{CanonicalRequest}
use nano_llm.Provider.{World}
use nano_llm.Server.Dispatch.{RouteExhausted}
use nano_llm.Server.StreamDispatch.{dispatch_stream_route}
use nano_llm.Server.StreamDispatch.Started.{Started}
use nano_llm.Server.Sse.{HttpResponse}
use nano_llm.Server.Http.{HttpRequest}
use nano_llm.Server.Chat.{Exit, panicked, starved, prepare, chat_response_with_permit}
use nano_llm.Server.Chat.Prepared.{Crashed, Ready}
use nano_llm.Server.Chat.Handled.{deadline}
use nano_llm.Server.Chat.Socket.{SocketStreamDelivery, SocketChatResult, response, stream, with_id}

-- The checks accept the request, and it asks for a stream.
abbrev pub asks_stream : Result Exit (CanonicalRequest × RuntimeRoute) → Bool
asks_stream (ok (canonical, route)) = canonical.stream
asks_stream (err e) = false

module _ (w : World) (fuel : ℕ) (config : RuntimeConfig) (parse_f64 : Text → Option F64)
    (request : HttpRequest) (request_id : Text) (t : ℕ) where
  abbrev limit : ℕ
  limit = config.general_settings.overall_timeout

  -- What the listener gets. The first target is tried at the moment t + 1.
  pub data Delivered : Result Exit SocketChatResult → Type 0 where
    started :
        (canonical : CanonicalRequest) (route : RuntimeRoute) (delivery : SocketStreamDelivery)
        (t' : ℕ)
        → Ready config parse_f64 request canonical route
        → canonical.stream ≡ true
        → Started w canonical
            (deadline w fuel config parse_f64 request t)
            (t + 1)
            route.targets
            t'
            (ok delivery.dispatch)
        → delivery.response.status ≡ 200
        → Delivered (ok (stream delivery))
    not_started :
        (canonical : CanonicalRequest) (route : RuntimeRoute) (e : RouteExhausted)
        (answer : HttpResponse) (t' : ℕ)
        → Ready config parse_f64 request canonical route
        → canonical.stream ≡ true
        → Started w canonical
            (deadline w fuel config parse_f64 request t)
            (t + 1)
            route.targets
            t'
            (err e)
        → answer.status ≡ (if e.overall_timeout then 504 else 502)
        → Delivered (ok (response answer))
    ordinary :
        asks_stream (prepare config parse_f64 request) ≡ false
        → Delivered
            (with_id request_id (chat_response_with_permit w fuel config parse_f64 request t))
    crashed : Crashed config parse_f64 request → Delivered (err panicked)
    unstarted :
        (canonical : CanonicalRequest) (route : RuntimeRoute)
        → Ready config parse_f64 request canonical route
        → canonical.stream ≡ true
        → dispatch_stream_route w fuel canonical limit route.targets t ≡ none
        → Delivered (err starved)
