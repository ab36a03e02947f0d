-- ===== src/Server/Chat/Socket/Declined.antt =====
-- How the listener's check for a stream ends where it finds none (src/server.rs,
-- is_socket_stream_candidate): it declines, or the JSON parser panics.
use nano_llm.Common.{
  suc, Text, lit, Bool, true, false, ◌≡◌, refl, Option, some, length, Result, ok, err, ensure,
  ok_or, ◌>>◌, arith,
}
use nano_llm.Float.{F64}
use nano_llm.Json.{JsonValue, Fields, field}
use nano_llm.Config.{RuntimeRoute, RuntimeConfig, get_route}
use nano_llm.Request.{CanonicalRequest}
use nano_llm.Request.Outcome.{Fault}
use nano_llm.Request.Parse.Strings.{Stop, fault}
use nano_llm.Request.Parse.Strings.Ends.{Ends, ends, faults}
use nano_llm.Request.Parse.{decode_json_object}
use nano_llm.Request.Parse.Total.{decode_json_object-Ends}
use nano_llm.Request.Canonical.{decode_chat_request_fields}
use nano_llm.Request.Canonical.Decoded.{IsDecoded, decode_chat_request_fields-IsDecoded}
use nano_llm.Request.Route.{requested_model, validate_for_route}
use nano_llm.Request.Route.Routed.{
  IsRouted, requested_model-found, requested_model-no_panic, validate_for_route-IsRouted,
}
use nano_llm.Server.Http.{HttpRequest}
use nano_llm.Server.Perimeter.{GatewayErrorKind, buffer_body}
use nano_llm.Server.Chat.{Exit, declined, panicked}
use nano_llm.Server.Chat.Prepared.{Parsed, Named, Crashed, in_body, in_arguments, Ready, renamed}
use nano_llm.Server.Chat.Checks.{
  Safe, safe, leaves, Safe-bind, known-Safe, Gives-value, Gives-no_panic,
}
use nano_llm.Server.Chat.Socket.{or_decline, parsed_or_decline, body_or_decline, stream_candidate}

or_decline-Safe :
    {A : Type 0} {R : Exit → Type 0} {P : A → Type 0} (m : Result Fault A)
    → ((a : A) → m ≡ ok a → P a)
    → R declined
    → (m ≡ err Fault.panic → R panicked)
    → Safe R P (or_decline m)
unfolding or_decline
or_decline-Safe (ok a) h k l = safe a refl (h a refl)
or_decline-Safe (err (Fault.refused error)) h k l = leaves declined refl k
or_decline-Safe (err Fault.panic) h k l = leaves panicked refl (l refl)

parsed_or_decline-Safe :
    {A : Type 0} {R : Exit → Type 0} {P Q : A → Type 0} (m : Result Stop A)
    → Ends P m
    → ((a : A) → m ≡ ok a → P a → Q a)
    → R declined
    → (m ≡ err (fault Fault.panic) → R panicked)
    → Safe R Q (parsed_or_decline m)
unfolding parsed_or_decline or_decline
parsed_or_decline-Safe m (ends a e h) g k l = rw e (safe a refl (g a e h))
parsed_or_decline-Safe m (faults (Fault.refused error) e) g k l = rw e (leaves declined refl k)
parsed_or_decline-Safe m (faults Fault.panic e) g k l = rw e (leaves panicked refl (l e))

body_or_decline-Safe :
    {R : Exit → Type 0} (m : Result GatewayErrorKind Text)
    → R declined
    → Safe R (λ body. m ≡ ok body) (body_or_decline m)
unfolding body_or_decline
body_or_decline-Safe (ok body) k = safe body refl refl
body_or_decline-Safe (err kind) k = leaves declined refl k

ensure-Safe :
    {B : Type 0} {R : Exit → Type 0} {Q : B → Type 0} (t : Bool) (x : Exit) (k : Result Exit B)
    → R x
    → (t ≡ true → Safe R Q k)
    → Safe R Q (ensure t x >> k)
ensure-Safe true x k h l = l refl
ensure-Safe false x k h l = leaves x refl h

module _ (config : RuntimeConfig) (parse_f64 : Text → Option F64) (request : HttpRequest) where
  pub data Declines : Exit → Type 0 where
    declines : Declines declined
    crashes : Crashed config parse_f64 request → Declines panicked

  json-Safe :
      (body : Text)
      → buffer_body request ≡ ok body
      → Safe Declines
          (Parsed config parse_f64 request)
          (parsed_or_decline (decode_json_object (suc (length body)) body))
  json-Safe body e =
      parsed_or_decline-Safe _ (decode_json_object-Ends (suc (length body)) body (omega arith))
        (λ fields parsed _. record { body = body; buffered = e; parsed = parsed }) declines
        λ p. crashes (in_body body e p)

  model-Safe :
      (fields : Fields)
      → Safe Declines
          (λ model. field fields (lit "model") ≡ some (JsonValue.string model))
          (or_decline (requested_model fields))
  model-Safe fields =
      or_decline-Safe _ (requested_model-found fields) declines
        λ p. absurd (requested_model-no_panic fields p)

  request-Safe :
      (fields : Fields)
      → Safe Declines (IsDecoded fields) (or_decline (decode_chat_request_fields parse_f64 fields))
  request-Safe fields =
      let gives_request = decode_chat_request_fields-IsDecoded parse_f64 fields in
      or_decline-Safe _ (λ a p. Gives-value a gives_request p) declines
        λ p. absurd (Gives-no_panic gives_request p)

  fit-Safe :
      (fields : Fields) (route : RuntimeRoute) (canonical : CanonicalRequest)
      → Named config parse_f64 request fields canonical.model route
      → IsDecoded fields canonical
      → Safe Declines
          (λ _. IsRouted canonical route)
          (parsed_or_decline (validate_for_route canonical route))
  fit-Safe fields route canonical named decoded =
      parsed_or_decline-Safe _ (validate_for_route-IsRouted canonical route) (λ _ _ fits. fits)
        declines λ p. crashes (in_arguments fields route canonical named decoded p)

  -- A candidate is a request that is ready for its route and asks for a stream.
  pub stream_candidate-Safe :
      Safe Declines
        (λ (canonical, route).
          Ready config parse_f64 request canonical route × (canonical.stream ≡ true))
        (stream_candidate config parse_f64 request)
  unfolding stream_candidate
  stream_candidate-Safe =
      Safe-bind (body_or_decline (buffer_body request)) _
        (body_or_decline-Safe (buffer_body request) declines)
        λ body buffered.
          Safe-bind (parsed_or_decline (decode_json_object (suc (length body)) body)) _
            (json-Safe body buffered)
            λ fields parsed.
              Safe-bind (or_decline (requested_model fields)) _ (model-Safe fields)
                λ model requested.
                  Safe-bind (ok_or (get_route config model) declined) _
                    (known-Safe {P = λ route. get_route config model ≡ some route} _ _
                      (λ _. declines) λ route found. found)
                    λ route found.
                      Safe-bind (or_decline (decode_chat_request_fields parse_f64 fields)) _
                        (request-Safe fields)
                        λ canonical decoded.
                          ensure-Safe canonical.stream declined _ declines λ streams.
                            let named =
                              renamed config parse_f64 request fields model route canonical
                                (record { is_parsed = parsed; named = requested; found = found })
                                decoded in
                            Safe-bind (parsed_or_decline (validate_for_route canonical route)) _
                              (fit-Safe fields route canonical named decoded)
                              λ _ fits.
                                safe (canonical, route) refl
                                  (
                                    record {
                                      fields = fields;
                                      is_named = named;
                                      decoded = decoded;
                                      fits = fits;
                                    },
                                    streams,
                                  )
