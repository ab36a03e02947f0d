-- ===== src/Server/Chat/Prepared.antt =====
-- What stands before a provider is contacted (src/server.rs, chat_response_with_permit).
use nano_llm.Common.{
  suc, Text, lit, inl, inr, ◌≡◌, refl, sym, ap, ◌∙◌, subst, Option, none, some, [], length, Result,
  ok, err, ok_or, arith,
}
use nano_llm.Float.{F64}
use nano_llm.Json.{JsonValue, Fields, field}
use nano_llm.Config.{RuntimeRoute, RuntimeConfig, get_route}
use nano_llm.Request.{CanonicalRequest, DecodeError}
use nano_llm.Request.Outcome.{Fault}
use nano_llm.Request.Parse.Strings.{fault}
use nano_llm.Request.Parse.{decode_json_object}
use nano_llm.Request.Parse.Total.{decode_json_object-Ends}
use nano_llm.Request.Canonical.{decode_chat_request_fields}
use nano_llm.Request.Canonical.Decoded.{IsDecoded, decode_chat_request_fields-IsDecoded}
use nano_llm.Request.Route.{requested_model, validate_for_route}
use nano_llm.Request.Route.Routed.{
  IsRouted, requested_model-found, requested_model-no_panic, validate_for_route-IsRouted,
}
use nano_llm.Server.Http.{HttpRequest}
use nano_llm.Server.Perimeter.{
  GatewayErrorKind, contract, error_response, plain_error, decode_error_response, json_response,
  buffer_body,
}
use nano_llm.Server.Perimeter.Body.{buffer_body-refuses}
use nano_llm.Server.Chat.{
  CompletionContext, ChatHandling, Exit, answered, panicked, early, decode_error_with_context,
  or_answer, parsed_or_answer, body_or_answer, unknown_model, prepare, context_of, no_context,
}
use nano_llm.Server.Chat.Checks.{
  Safe, safe, Safe-bind, or_answer-Safe, parsed_or_answer-Safe, known-Safe, Gives-value,
  Gives-no_panic, leaves,
}

-- The answer to a request that the decoder or the route refuses.
abbrev pub Explains : DecodeError → ChatHandling → Type 0
Explains error h = (h.response ≡ decode_error_response error) × (h.response.status ≡ 400)

decode_error-Explains :
    (error : DecodeError) (context : CompletionContext)
    → Explains error (decode_error_with_context error context)
unfolding decode_error_with_context decode_error_response error_response contract json_response
decode_error-Explains (DecodeError.invalid_json message) context = (refl, refl)
decode_error-Explains (DecodeError.validation param message) context = (refl, refl)

decode_error-untried :
    (error : DecodeError) (context : CompletionContext)
    → (decode_error_with_context error context).attempts ≡ []
unfolding decode_error_with_context
decode_error-untried error context = refl

same_model :
    {o : Option JsonValue} {model kept : Text}
    → o ≡ some (JsonValue.string model)
    → o ≡ some (JsonValue.string kept)
    → kept ≡ model
same_model e f = cc (e, f)

module _ (config : RuntimeConfig) (parse_f64 : Text → Option F64) (request : HttpRequest) where
  -- The body came whole and in time, and is the JSON object with these members.
  pub record Parsed (fields : Fields) : Type 0 where
    pub body : Text
    pub buffered : buffer_body request ≡ ok body
    pub parsed : decode_json_object (suc (length body)) body ≡ ok fields

  -- The object names a configured model.
  pub record Named (fields : Fields) (model : Text) (route : RuntimeRoute) : Type 0 where
    pub is_parsed : Parsed fields
    pub named : field fields (lit "model") ≡ some (JsonValue.string model)
    pub found : get_route config model ≡ some route

  -- What is wrong with a request that is refused, and what it is told.
  pub data Refused (h : ChatHandling) : Type 0 where
    body_late :
        buffer_body request ≡ err GatewayErrorKind.request_body_timeout
        → h.response.status ≡ 408
        → Refused h
    body_large :
        buffer_body request ≡ err GatewayErrorKind.request_too_large
        → h.response.status ≡ 413
        → Refused h
    no_object :
        (body : Text) (error : DecodeError)
        → buffer_body request ≡ ok body
        → decode_json_object (suc (length body)) body ≡ err (fault (Fault.refused error))
        → Explains error h
        → Refused h
    no_model :
        (fields : Fields) (error : DecodeError)
        → Parsed fields
        → requested_model fields ≡ err (Fault.refused error)
        → Explains error h
        → Refused h
    unknown :
        (fields : Fields) (model : Text)
        → Parsed fields
        → field fields (lit "model") ≡ some (JsonValue.string model)
        → get_route config model ≡ none
        → h.response.status ≡ 404
        → Refused h
    invalid :
        (fields : Fields) (model : Text) (route : RuntimeRoute) (error : DecodeError)
        → Named fields model route
        → decode_chat_request_fields parse_f64 fields ≡ err (Fault.refused error)
        → Explains error h
        → Refused h
    unfit :
        (fields : Fields) (route : RuntimeRoute) (canonical : CanonicalRequest)
        (error : DecodeError)
        → Named fields canonical.model route
        → IsDecoded fields canonical
        → validate_for_route canonical route ≡ err (fault (Fault.refused error))
        → Explains error h
        → Refused h

  -- Where the checks panic: in the JSON parser, on the body or on the arguments of a tool call.
  pub data Crashed : Type 0 where
    in_body :
        (body : Text)
        → buffer_body request ≡ ok body
        → decode_json_object (suc (length body)) body ≡ err (fault Fault.panic)
        → Crashed
    in_arguments :
        (fields : Fields) (route : RuntimeRoute) (canonical : CanonicalRequest)
        → Named fields canonical.model route
        → IsDecoded fields canonical
        → validate_for_route canonical route ≡ err (fault Fault.panic)
        → Crashed

  -- How the checks end without a route. No target has been tried.
  pub data Ended : Exit → Type 0 where
    refused : (h : ChatHandling) → Refused h → h.attempts ≡ [] → Ended (answered h)
    crashed : Crashed → Ended panicked

  -- The body was read and decoded, and the request fits the route of its model.
  pub record Ready (canonical : CanonicalRequest) (route : RuntimeRoute) : Type 0 where
    pub fields : Fields
    pub is_named : Named fields canonical.model route
    pub decoded : IsDecoded fields canonical
    pub fits : IsRouted canonical route

  explained :
      (error : DecodeError) (context : CompletionContext)
      → (Explains error (decode_error_with_context error context)
          → Refused (decode_error_with_context error context))
      → Ended (answered (decode_error_with_context error context))
  explained error context k =
      refused _ (k (decode_error-Explains error context)) (decode_error-untried error context)

  body_or_answer-Safe :
      (m : Result GatewayErrorKind Text)
      → buffer_body request ≡ m
      → Safe Ended (λ body. buffer_body request ≡ ok body) (body_or_answer m)
  unfolding body_or_answer early plain_error error_response contract json_response
  body_or_answer-Safe (ok body) e = safe body refl e
  body_or_answer-Safe (err kind) e = elim (buffer_body-refuses request kind e) [
    | inl late ↦ rw late (leaves _ refl (refused _ (body_late (e ∙ ap err late) refl) refl))
    | inr large ↦ rw large (leaves _ refl (refused _ (body_large (e ∙ ap err large) refl) refl))
  ]

  json-Safe :
      (body : Text)
      → buffer_body request ≡ ok body
      → Safe Ended Parsed
          (parsed_or_answer no_context (decode_json_object (suc (length body)) body))
  json-Safe body e =
      parsed_or_answer-Safe no_context _
        (decode_json_object-Ends (suc (length body)) body (omega arith))
        (λ fields parsed _. record { body = body; buffered = e; parsed = parsed })
        (λ error p. explained error no_context (no_object body error e p))
        λ p. crashed (in_body body e p)

  model-Safe :
      (fields : Fields)
      → Parsed fields
      → Safe Ended
          (λ model. field fields (lit "model") ≡ some (JsonValue.string model))
          (or_answer no_context (requested_model fields))
  model-Safe fields parsed =
      or_answer-Safe no_context _ (requested_model-found fields)
        (λ error p. explained error no_context (no_model fields error parsed p))
        λ p. absurd (requested_model-no_panic fields p)

  route-Safe :
      (fields : Fields) (model : Text)
      → Parsed fields
      → field fields (lit "model") ≡ some (JsonValue.string model)
      → Safe Ended
          (Named fields model)
          (ok_or (get_route config model) (answered (unknown_model model)))
  unfolding error_response contract json_response
  route-Safe fields model parsed named =
      known-Safe _ _ (λ e. refused _ (unknown fields model parsed named e refl) refl)
        λ route found. record { is_parsed = parsed; named = named; found = found }

  request-Safe :
      (fields : Fields) (model : Text) (route : RuntimeRoute)
      → Named fields model route
      → Safe Ended
          (IsDecoded fields)
          (or_answer (context_of model) (decode_chat_request_fields parse_f64 fields))
  request-Safe fields model route named =
      let gives_request = decode_chat_request_fields-IsDecoded parse_f64 fields in
      or_answer-Safe (context_of model) _ (λ a p. Gives-value a gives_request p)
        (λ error p. explained error (context_of model) (invalid fields model route error named p))
        λ p. absurd (Gives-no_panic gives_request p)

  -- The decoded request keeps the model.
  pub renamed :
      (fields : Fields) (model : Text) (route : RuntimeRoute) (canonical : CanonicalRequest)
      → Named fields model route
      → IsDecoded fields canonical
      → Named fields canonical.model route
  renamed fields model route canonical named decoded =
      subst (λ m. Named fields m route) (sym (same_model named.named decoded.model_kept)) named

  fit-Safe :
      (context : CompletionContext) (fields : Fields) (route : RuntimeRoute)
      (canonical : CanonicalRequest)
      → Named fields canonical.model route
      → IsDecoded fields canonical
      → Safe Ended
          (λ _. IsRouted canonical route)
          (parsed_or_answer context (validate_for_route canonical route))
  fit-Safe context fields route canonical named decoded =
      parsed_or_answer-Safe context _ (validate_for_route-IsRouted canonical route)
        (λ _ _ fits. fits)
        (λ error p. explained error context (unfit fields route canonical error named decoded p))
        λ p. crashed (in_arguments fields route canonical named decoded p)

  pub prepare-Safe :
      Safe Ended (λ (canonical, route). Ready canonical route) (prepare config parse_f64 request)
  unfolding prepare
  prepare-Safe =
      Safe-bind (body_or_answer (buffer_body request)) _
        (body_or_answer-Safe (buffer_body request) refl)
        λ body buffered.
          Safe-bind (parsed_or_answer no_context (decode_json_object (suc (length body)) body)) _
            (json-Safe body buffered)
            λ fields parsed.
              Safe-bind (or_answer no_context (requested_model fields)) _ (model-Safe fields parsed)
                λ model requested.
                  Safe-bind (ok_or (get_route config model) (answered (unknown_model model))) _
                    (route-Safe fields model parsed requested)
                    λ route named.
                      Safe-bind
                        (or_answer (context_of model) (decode_chat_request_fields parse_f64 fields))
                        _ (request-Safe fields model route named)
                        λ canonical decoded.
                          let same = renamed fields model route canonical named decoded in
                          Safe-bind
                            (parsed_or_answer (context_of model)
                              (validate_for_route canonical route))
                            _ (fit-Safe (context_of model) fields route canonical same decoded)
                            λ _ fits.
                              safe (canonical, route) refl
                                (record {
                                  fields = fields;
                                  is_named = same;
                                  decoded = decoded;
                                  fits = fits;
                                })
