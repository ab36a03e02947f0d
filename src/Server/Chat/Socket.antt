-- ===== src/Server/Chat/Socket.antt =====
-- The listener's way to a chat answer (src/server.rs): is_socket_stream_candidate,
-- begin_socket_stream_with_permit and handle_admitted_socket_chat. The permit goes with the delivery.
pub mod Candidate
pub mod Declined
pub mod Delivered
use nano_llm.Common.{
  ℕ, suc, Text, lit, Bool, true, false, Option, none, some, [], length, if◌then◌else◌, Result, ok,
  err, ok_or, ensure, ◌>>=◌, ◌>>◌,
}
use nano_llm.Float.{F64}
use nano_llm.Config.{RuntimeRoute, RuntimeConfig, get_route}
use nano_llm.Request.{CanonicalRequest}
use nano_llm.Request.Outcome.{Fault}
use nano_llm.Request.Parse.Strings.{Stop, fault, out_of_fuel}
use nano_llm.Request.Parse.{decode_json_object}
use nano_llm.Request.Canonical.{decode_chat_request_fields}
use nano_llm.Request.Route.{requested_model, validate_for_route}
use nano_llm.Provider.{World}
use nano_llm.Server.Dispatch.{RouteExhausted}
use nano_llm.Server.StreamDispatch.{StreamRouteDispatch, dispatch_stream_route}
use nano_llm.Server.Sse.{HttpResponse, empty_sse_response_with_body}
use nano_llm.Server.Http.{HttpRequest}
use nano_llm.Server.Perimeter.{GatewayErrorKind, plain_error, with_request_id, buffer_body, is_chat}
use nano_llm.Server.Chat.{
  ChatHandling, Exit, answered, declined, panicked, starved, chat_response_with_permit,
}

-- `result.ok()?`: an error is no answer here.
unfoldable pub or_decline : {A : Type 0} → Result Fault A → Result Exit A
or_decline (ok value) = ok value
or_decline (err (Fault.refused error)) = err declined
or_decline (err Fault.panic) = err panicked

unfoldable pub parsed_or_decline : {A : Type 0} → Result Stop A → Result Exit A
unfolding or_decline
parsed_or_decline (ok value) = ok value
parsed_or_decline (err (fault f)) = or_decline (err f)
parsed_or_decline (err out_of_fuel) = err starved

unfoldable pub body_or_decline : Result GatewayErrorKind Text → Result Exit Text
body_or_decline (ok body) = ok body
body_or_decline (err kind) = err declined

module _ (config : RuntimeConfig) (parse_f64 : Text → Option F64) where
  -- The checks that both functions make: a valid streaming request and its route.
  unfoldable pub stream_candidate : HttpRequest → Result Exit (CanonicalRequest × RuntimeRoute)
  unfolding body_or_decline parsed_or_decline or_decline
  stream_candidate request = do
    body ← body_or_decline (buffer_body request)
    fields ← parsed_or_decline (decode_json_object (suc (length body)) body)
    model ← or_decline (requested_model fields)
    route ← ok_or (get_route config model) declined
    canonical ← or_decline (decode_chat_request_fields parse_f64 fields)
    ensure canonical.stream declined
    parsed_or_decline (validate_for_route canonical route)
    ok (canonical, route)

  is_candidate : Result Exit (CanonicalRequest × RuntimeRoute) → Result Exit Bool
  is_candidate (ok found) = ok true
  is_candidate (err panicked) = err panicked
  is_candidate (err starved) = err starved
  is_candidate (err _) = ok false

  unfoldable pub is_socket_stream_candidate : HttpRequest → Result Exit Bool
  unfolding stream_candidate is_candidate
  is_socket_stream_candidate request = is_candidate (stream_candidate request)

pub record SocketStreamDelivery : Type 0 where
  pub dispatch : StreamRouteDispatch
  pub response : HttpResponse

pub data SocketChatResult : Type 0 where
  response : HttpResponse → SocketChatResult
  stream : SocketStreamDelivery → SocketChatResult

exhausted_response : RouteExhausted → HttpResponse
exhausted_response exhausted =
    if exhausted.overall_timeout
    then plain_error GatewayErrorKind.overall_timeout (lit "Overall request timed out")
    else plain_error GatewayErrorKind.upstream_exhausted
        (lit "All configured upstream targets failed")

-- `Option::expect`
expected : Result Exit SocketChatResult → Result Exit SocketChatResult
expected (err declined) = err panicked
expected result = result

pub with_id : Text → Result Exit ChatHandling → Result Exit SocketChatResult
with_id request_id (ok handled) = ok (response (with_request_id handled.response request_id))
with_id request_id (err (answered handled)) =
    ok (response (with_request_id handled.response request_id))
with_id request_id (err e) = err e

module _ (w : World) (fuel : ℕ) (config : RuntimeConfig) (parse_f64 : Text → Option F64) where
  delivered :
      Text → Option (Result RouteExhausted StreamRouteDispatch × ℕ) → Result Exit SocketChatResult
  unfolding exhausted_response
  delivered request_id none = err starved
  delivered request_id (some (ok dispatch, t)) = ok (
      stream (record {
        dispatch = dispatch;
        response = with_request_id (empty_sse_response_with_body []) request_id;
      }))
  delivered request_id (some (err exhausted, t)) =
      ok (response (with_request_id (exhausted_response exhausted) request_id))

  unfoldable pub begin_socket_stream_with_permit :
      HttpRequest → (request_id : Text) → ℕ → Result Exit SocketChatResult
  unfolding stream_candidate delivered
  begin_socket_stream_with_permit request request_id t = do
    ensure (is_chat request) declined
    (canonical, route) ← stream_candidate config parse_f64 request
    delivered request_id (
        dispatch_stream_route w fuel canonical config.general_settings.overall_timeout route.targets
          t)

  unfoldable pub handle_admitted_socket_chat :
      HttpRequest → (request_id : Text) → ℕ → Result Exit SocketChatResult
  unfolding is_socket_stream_candidate begin_socket_stream_with_permit chat_response_with_permit
      expected with_id
  handle_admitted_socket_chat request request_id t = do
    candidate ← is_socket_stream_candidate config parse_f64 request
    if candidate
        then expected (begin_socket_stream_with_permit request request_id t)
        else with_id request_id (chat_response_with_permit w fuel config parse_f64 request t)
