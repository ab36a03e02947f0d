-- ===== src/Server/Perimeter.antt =====
-- The edge of the application (src/server.rs): error answers, the body of a request, and what the
-- listener admits before it reads a body.
mod Tests
pub mod Body
pub mod Models
pub mod Admission
use nano_llm.Common.{
  ℕ, ◌+◌, ◌-◌, ◌*◌, Text, lit, text_eq, Bool, true, false, not, ◌&&◌, ◌||◌, Option, none, some,
  List, [], ◌∷◌, ◌++◌, map, length, leb, ltb, ◌==◌, if◌then◌else◌, Result, ok, err,
}
use nano_llm.Request.{DecodeError}
use nano_llm.Config.{RuntimeRoute}
use nano_llm.Server.Dispatch.{second}
use nano_llm.Server.Serialize.{escaped, commas, raw}
use nano_llm.Server.Sse.{HttpResponse}
use nano_llm.Server.Http.{
  HttpRequest, eq_ignore_ascii_case, is_authenticated, valid_json_content_type, select_request_id,
}

pub data GatewayErrorKind : Type 0 where
  invalid_request invalid_json authentication_failed model_not_found route_not_found
        request_body_timeout request_too_large unsupported_media_type upstream_exhausted
        capacity_exhausted overall_timeout :
      GatewayErrorKind

pub record GatewayError : Type 0 where
  pub kind : GatewayErrorKind
  pub message : Text
  pub param : Option Text

-- Status, type and code.
unfoldable pub contract : GatewayErrorKind → ℕ × Text × Text
contract GatewayErrorKind.invalid_request =
    (400, lit "invalid_request_error", lit "invalid_request")
contract GatewayErrorKind.invalid_json = (400, lit "invalid_request_error", lit "invalid_json")
contract GatewayErrorKind.authentication_failed =
    (401, lit "authentication_error", lit "authentication_failed")
contract GatewayErrorKind.model_not_found = (404, lit "not_found_error", lit "model_not_found")
contract GatewayErrorKind.route_not_found = (404, lit "not_found_error", lit "route_not_found")
contract GatewayErrorKind.request_body_timeout =
    (408, lit "invalid_request_error", lit "request_body_timeout")
contract GatewayErrorKind.request_too_large =
    (413, lit "invalid_request_error", lit "request_too_large")
contract GatewayErrorKind.unsupported_media_type =
    (415, lit "invalid_request_error", lit "unsupported_media_type")
contract GatewayErrorKind.upstream_exhausted = (502, lit "server_error", lit "upstream_exhausted")
contract GatewayErrorKind.capacity_exhausted = (503, lit "server_error", lit "capacity_exhausted")
contract GatewayErrorKind.overall_timeout = (504, lit "server_error", lit "overall_timeout")

unfoldable pub json_response : ℕ → Text → HttpResponse
json_response status body = record {
  status = status;
  headers = (lit "content-type", lit "application/json") ∷ [];
  body = body;
}

public_param : GatewayErrorKind → Option Text → Option Text
public_param GatewayErrorKind.invalid_request param = param
public_param GatewayErrorKind.model_not_found param = some (lit "model")
public_param _ param = none

param_value : Option Text → Text
param_value none = lit "null"
param_value (some param) = escaped param

unfoldable pub error_response : GatewayError → HttpResponse
unfolding contract json_response public_param param_value
error_response error =
    let (status, error_type, code) = contract error.kind in
    json_response status (
      lit "{\"error\":{\"message\":"
      ++ escaped error.message
      ++ lit ",\"type\":"
      ++ raw error_type
      ++ lit ",\"param\":"
      ++ param_value (public_param error.kind error.param)
      ++ lit ",\"code\":"
      ++ raw code
      ++ lit "}}")

unfoldable pub plain_error : GatewayErrorKind → Text → HttpResponse
unfolding error_response
plain_error kind message = error_response (record { kind = kind; message = message; param = none })

unfoldable pub decode_error_response : DecodeError → HttpResponse
unfolding error_response
decode_error_response (DecodeError.invalid_json message) =
    error_response
      (record { kind = GatewayErrorKind.invalid_json; message = message; param = none })
decode_error_response (DecodeError.validation param message) =
    error_response
      (record { kind = GatewayErrorKind.invalid_request; message = message; param = param })

-- headers.retain(|(name, _)| !name.eq_ignore_ascii_case(REQUEST_ID_HEADER))
without_id : List (Text × Text) → List (Text × Text)
without_id [] = []
without_id ((name, value) ∷ headers) =
    if eq_ignore_ascii_case name (lit "x-request-id")
    then without_id headers
    else (name, value) ∷ without_id headers

unfoldable pub with_request_id : HttpResponse → Text → HttpResponse
unfolding without_id
with_request_id response request_id = record response {
  headers = without_id response.headers ++ (lit "x-request-id", request_id) ∷ [];
}

model_entry : RuntimeRoute → Text
model_entry route =
    lit "{\"id\":\""
    ++ route.model_name
    ++ lit "\",\"object\":\"model\",\"created\":0,\"owned_by\":\"nano-llm\"}"

unfoldable pub models_response : List RuntimeRoute → HttpResponse
unfolding model_entry
models_response routes =
    json_response 200
      (lit "{\"object\":\"list\",\"data\":[" ++ commas (map model_entry routes) ++ lit "]}")

abbrev pub max_request_body_bytes : ℕ
max_request_body_bytes = 1048576

-- REQUEST_BODY_TIMEOUT
abbrev pub body_timeout : ℕ
body_timeout = 30 * second

-- The loop of buffer_body over the chunks and their arrival times.
unfoldable pub buffer_chunks : Text → List (ℕ × Text) → Result GatewayErrorKind Text
buffer_chunks body [] = ok body
buffer_chunks body ((arrival, chunk) ∷ chunks) =
    let rest = buffer_chunks (body ++ chunk) chunks in
    if leb body_timeout arrival
    then err GatewayErrorKind.request_body_timeout
    else if ltb max_request_body_bytes (length body + length chunk)
    then err GatewayErrorKind.request_too_large
    else rest

unfoldable pub buffer_parts : Option (List (ℕ × Text)) → Text → Result GatewayErrorKind Text
unfolding buffer_chunks
buffer_parts (some chunks) body = buffer_chunks [] chunks
buffer_parts none body =
    if ltb max_request_body_bytes (length body)
    then err GatewayErrorKind.request_too_large
    else ok body

unfoldable pub buffer_body : HttpRequest → Result GatewayErrorKind Text
unfolding buffer_parts
buffer_body request = buffer_parts request.body_chunks request.body

pub data SocketAdmission : Type 0 where
  respond : HttpResponse → SocketAdmission
  chat : (request_id : Text) → SocketAdmission

abbrev pub is_chat : HttpRequest → Bool
is_chat request =
    text_eq request.path (lit "/v1/chat/completions") && text_eq request.method (lit "POST")

starts_with : Text → Text → Bool
starts_with [] text = true
starts_with (p ∷ prefix) [] = false
starts_with (p ∷ prefix) (b ∷ text) = p == b && starts_with prefix text

module _ (no_auth : Bool) (master_key : Option Text) (routes : List RuntimeRoute)
    (generated_uuid_v4 : Text) where
  -- `handle` of a request that is no chat.
  unfoldable pub handle_other : HttpRequest → HttpResponse
  unfolding starts_with plain_error models_response
  handle_other request =
      let id = select_request_id request generated_uuid_v4 in
      with_request_id
        (if text_eq request.path (lit "/health") && text_eq request.method (lit "GET")
          then json_response 200 (lit "{\"status\":\"ok\"}")
          else if starts_with (lit "/v1/") request.path
          then (if not (is_authenticated no_auth master_key request)
              then plain_error GatewayErrorKind.authentication_failed (lit "Authentication failed")
              else if text_eq request.path (lit "/v1/models") && text_eq request.method (lit "GET")
              then models_response routes
              else plain_error GatewayErrorKind.route_not_found (lit "Route not found"))
          else plain_error GatewayErrorKind.route_not_found (lit "Route not found"))
        id

  abbrev early : HttpRequest → GatewayErrorKind → Text → SocketAdmission
  early request kind message =
      respond
        (with_request_id (plain_error kind message) (select_request_id request generated_uuid_v4))

  -- Beside the verdict: the permits that are left.
  unfoldable pub socket_admit : HttpRequest → (available : ℕ) → SocketAdmission × ℕ
  unfolding handle_other plain_error
  socket_admit request available =
      if not (is_chat request)
      then (respond (handle_other request), available)
      else if not (is_authenticated no_auth master_key request)
      then (
        early request GatewayErrorKind.authentication_failed (lit "Authentication failed"),
        available,
      )
      else if not (valid_json_content_type request)
      then (
        early request GatewayErrorKind.unsupported_media_type (lit "Unsupported media type"),
        available,
      )
      else if available == 0
      then (
        early request GatewayErrorKind.capacity_exhausted (lit "Generation capacity exhausted"),
        available,
      )
      else (chat (select_request_id request generated_uuid_v4), available - 1)
