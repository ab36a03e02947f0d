-- ===== src/Server/Chat.antt =====
-- A chat request from its body to its answer (src/server.rs): chat_response_with_permit,
-- chat_response, and handle_admitted_socket_chat with the stream that it starts. What the logs are
-- told stands in the outcome, the context and the attempts.
pub mod Checks
pub mod Prepared
pub mod Handled
pub mod Socket
mod Tests
use nano_llm.Common.{
  ℕ, suc, Text, lit, Bool, true, false, not, Option, none, some, List, [], length, if◌then◌else◌,
  ◌==◌, Result, ok, err, ok_or, ensure, ◌>>=◌, ◌>>◌,
}
use nano_llm.Float.{F64}
use nano_llm.Json.{Fields}
use nano_llm.Config.{ProviderKind, RuntimeRoute, RuntimeConfig, get_route}
use nano_llm.Request.{CanonicalRequest, DecodeError}
use nano_llm.Request.Outcome.{Fault}
use nano_llm.Request.Parse.Strings.{Stop, fault, out_of_fuel}
use nano_llm.Request.Parse.{decode_json_object}
use nano_llm.Request.Canonical.{decode_chat_request_fields}
use nano_llm.Request.Route.{requested_model, validate_for_route}
use nano_llm.Provider.{World}
use nano_llm.Server.Dispatch.{
  AttemptRecord, RouteDiagnostics, RouteDispatch, RouteExhausted, dispatch_route,
}
use nano_llm.Server.StreamDispatch.{StreamRouteDispatch, dispatch_stream_route}
use nano_llm.Server.Sse.{HttpResponse, StreamCompletionOutcome, sse_response}
use nano_llm.Server.Serialize.{serialize_chat_response}
use nano_llm.Server.Http.{HttpRequest, valid_json_content_type}
use nano_llm.Server.Perimeter.{
  GatewayErrorKind, json_response, error_response, plain_error, decode_error_response,
  with_request_id, buffer_body,
}

pub record CompletionContext : Type 0 where
  pub requested_model : Option Text
  pub selected_provider : Option ProviderKind
  pub selected_model : Option Text
  pub attempt_count : Option ℕ

abbrev pub no_context : CompletionContext
no_context = record {
  requested_model = none;
  selected_provider = none;
  selected_model = none;
  attempt_count = none;
}

abbrev pub context_of : Text → CompletionContext
context_of model = record no_context { requested_model = some model }

abbrev pub from_diagnostics : RouteDiagnostics → CompletionContext
from_diagnostics diagnostics = record {
  requested_model = some diagnostics.requested_model;
  selected_provider = diagnostics.selected_provider;
  selected_model = diagnostics.selected_model;
  attempt_count = some diagnostics.attempt_count;
}

pub record ChatHandling : Type 0 where
  pub response : HttpResponse
  pub outcome : Text
  pub context : CompletionContext
  pub attempts : List AttemptRecord

unfoldable pub gateway_outcome : GatewayErrorKind → Text
gateway_outcome GatewayErrorKind.invalid_request = lit "invalid_request"
gateway_outcome GatewayErrorKind.invalid_json = lit "invalid_json"
gateway_outcome GatewayErrorKind.authentication_failed = lit "authentication_failed"
gateway_outcome GatewayErrorKind.model_not_found = lit "model_not_found"
gateway_outcome GatewayErrorKind.route_not_found = lit "route_not_found"
gateway_outcome GatewayErrorKind.request_body_timeout = lit "request_body_timeout"
gateway_outcome GatewayErrorKind.request_too_large = lit "request_too_large"
gateway_outcome GatewayErrorKind.unsupported_media_type = lit "unsupported_media_type"
gateway_outcome GatewayErrorKind.upstream_exhausted = lit "upstream_exhausted"
gateway_outcome GatewayErrorKind.capacity_exhausted = lit "capacity_exhausted"
gateway_outcome GatewayErrorKind.overall_timeout = lit "overall_timeout"

decode_error_kind : DecodeError → GatewayErrorKind
decode_error_kind (DecodeError.invalid_json message) = GatewayErrorKind.invalid_json
decode_error_kind (DecodeError.validation param message) = GatewayErrorKind.invalid_request

abbrev pub with_context :
    HttpResponse → Text → CompletionContext → List AttemptRecord → ChatHandling
with_context response outcome context attempts = record {
  response = response;
  outcome = outcome;
  context = context;
  attempts = attempts;
}

unfoldable pub early : GatewayErrorKind → Text → ChatHandling
unfolding gateway_outcome
early kind message = with_context (plain_error kind message) (gateway_outcome kind) no_context []

unfoldable pub decode_error_with_context : DecodeError → CompletionContext → ChatHandling
unfolding gateway_outcome decode_error_kind
decode_error_with_context error context =
    with_context (decode_error_response error) (gateway_outcome (decode_error_kind error)) context
      []

-- How the handling of a request ends before its target is chosen: with an answer, without one
-- where the caller asks only whether there is a stream, by a panic, or by the fuel of a model.
pub data Exit : Type 0 where
  answered : ChatHandling → Exit
  declined panicked starved : Exit

-- `match result { Ok(value) => value, Err(error) => return ChatHandling::decode_error(error) }`
unfoldable pub or_answer : {A : Type 0} → CompletionContext → Result Fault A → Result Exit A
unfolding decode_error_with_context
or_answer context (ok value) = ok value
or_answer context (err (Fault.refused error)) =
    err (answered (decode_error_with_context error context))
or_answer context (err Fault.panic) = err panicked

unfoldable pub parsed_or_answer : {A : Type 0} → CompletionContext → Result Stop A → Result Exit A
unfolding or_answer
parsed_or_answer context (ok value) = ok value
parsed_or_answer context (err (fault f)) = or_answer context (err f)
parsed_or_answer context (err out_of_fuel) = err starved

body_message : GatewayErrorKind → Result Exit Text
body_message GatewayErrorKind.request_body_timeout = ok (lit "Request body timed out")
body_message GatewayErrorKind.request_too_large = ok (lit "Request body is too large")
body_message _ = err panicked

body_or_answer : Result GatewayErrorKind Text → Result Exit Text
unfolding body_message early
body_or_answer (ok body) = ok body
body_or_answer (err kind) = do message ← body_message kind; err (answered (early kind message))

abbrev pub unknown_model : Text → ChatHandling
unknown_model model =
    with_context
      (error_response (record {
        kind = GatewayErrorKind.model_not_found;
        message = lit "Model not found";
        param = some (lit "model");
      }))
      (lit "model_not_found") (context_of model) []

module _ (config : RuntimeConfig) (parse_f64 : Text → Option F64) where
  -- The checks of chat_response_with_permit: the request and its route. The parser has fuel for one
  -- more than the bytes of the body.
  unfoldable pub prepare : HttpRequest → Result Exit (CanonicalRequest × RuntimeRoute)
  unfolding body_or_answer or_answer parsed_or_answer
  prepare request = do
    body ← body_or_answer (buffer_body request)
    fields ← parsed_or_answer no_context (decode_json_object (suc (length body)) body)
    model ← or_answer no_context (requested_model fields)
    route ← ok_or (get_route config model) (answered (unknown_model model))
    canonical ← or_answer (context_of model) (decode_chat_request_fields parse_f64 fields)
    parsed_or_answer (context_of model) (validate_for_route canonical route)
    ok (canonical, route)

module _ (w : World) (fuel : ℕ) where
  exhausted_outcome : RouteExhausted → Text
  exhausted_outcome exhausted =
      if exhausted.cancelled then lit "client_disconnected" else lit "upstream_exhausted"

  -- The arms of both matches for a route without an answer; only the streamed one names a client
  -- that is gone.
  exhausted_answer : Text → RouteExhausted → ChatHandling
  exhausted_answer outcome exhausted =
      if exhausted.overall_timeout
      then with_context
          (plain_error GatewayErrorKind.overall_timeout (lit "Overall request timed out"))
          (lit "overall_timeout") (from_diagnostics exhausted.diagnostics) exhausted.attempts
      else with_context
          (plain_error GatewayErrorKind.upstream_exhausted
            (lit "All configured upstream targets failed"))
          outcome (from_diagnostics exhausted.diagnostics) exhausted.attempts

  unfoldable pub complete_answer :
      Option (Result RouteExhausted RouteDispatch × ℕ) → Result Exit ChatHandling
  unfolding exhausted_answer
  complete_answer none = err starved
  complete_answer (some (ok dispatch, t)) = ok (
      with_context (json_response 200 (serialize_chat_response dispatch.response)) (lit "completed")
        (from_diagnostics dispatch.diagnostics) dispatch.attempts)
  complete_answer (some (err exhausted, t)) =
      ok (exhausted_answer (lit "upstream_exhausted") exhausted)

  outcome_text : StreamCompletionOutcome → Text
  outcome_text StreamCompletionOutcome.completed = lit "completed"
  outcome_text StreamCompletionOutcome.client_disconnected = lit "client_disconnected"
  outcome_text StreamCompletionOutcome.upstream_failed_after_commit =
      lit "upstream_failed_after_commit"

  materialized :
      StreamRouteDispatch
      → Option (HttpResponse × StreamCompletionOutcome)
      → Result Exit ChatHandling
  unfolding outcome_text
  materialized dispatch none = err starved
  materialized dispatch (some (response, outcome)) = ok (
      with_context response (outcome_text outcome) (from_diagnostics dispatch.diagnostics)
        dispatch.attempts)

  unfoldable pub stream_answer :
      Option (Result RouteExhausted StreamRouteDispatch × ℕ) → Result Exit ChatHandling
  unfolding exhausted_answer exhausted_outcome materialized
  stream_answer none = err starved
  stream_answer (some (ok dispatch, t)) = materialized dispatch (sse_response w fuel dispatch t)
  stream_answer (some (err exhausted, t)) =
      ok (exhausted_answer (exhausted_outcome exhausted) exhausted)

  unfoldable pub generate :
      (seconds : ℕ) → CanonicalRequest → RuntimeRoute → ℕ → Result Exit ChatHandling
  unfolding complete_answer stream_answer
  generate seconds canonical route t =
      if canonical.stream
      then stream_answer (dispatch_stream_route w fuel canonical seconds route.targets t)
      else complete_answer (dispatch_route w fuel canonical seconds route.targets t)

module _ (w : World) (fuel : ℕ) (config : RuntimeConfig) (parse_f64 : Text → Option F64) where
  unfoldable pub chat_response_with_permit : HttpRequest → ℕ → Result Exit ChatHandling
  unfolding prepare generate
  chat_response_with_permit request t = do
    (canonical, route) ← prepare config parse_f64 request
    generate w fuel config.general_settings.overall_timeout canonical route t

  -- The permit is given back at the end: as many are left as there were.
  unfoldable pub chat_response : HttpRequest → (available : ℕ) → ℕ → Result Exit ChatHandling
  unfolding chat_response_with_permit early
  chat_response request available t = do
    ensure (valid_json_content_type request)
        (answered (early GatewayErrorKind.unsupported_media_type (lit "Unsupported media type")))
    ensure (not (available == 0))
        (answered (early GatewayErrorKind.capacity_exhausted (lit "Generation capacity exhausted")))
    chat_response_with_permit request t
