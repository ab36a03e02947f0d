-- ===== src/Server/Chat/Socket/Candidate.antt =====
-- The listener's check for a stream agrees with the checks of chat_response_with_permit
-- (src/server.rs).
use nano_llm.Common.{
  suc, Text, Bool, true, false, ◌≡◌, ◌⊎◌, refl, ap, ◌∙◌, Option, length, Result, ok, err, ensure,
  ◌>>=◌, ◌>>◌, Bool-cases, inl, inr, Accepts, accepts, rejects, Accepts-bind, Accepts-ok,
  Accepts-ok_or,
}
use nano_llm.Float.{F64}
use nano_llm.Config.{RuntimeConfig, get_route}
use nano_llm.Request.Outcome.{Fault}
use nano_llm.Request.Parse.Strings.{Stop, fault, out_of_fuel}
use nano_llm.Request.Parse.{decode_json_object}
use nano_llm.Request.Canonical.{decode_chat_request_fields}
use nano_llm.Request.Route.{requested_model, validate_for_route}
use nano_llm.Server.Http.{HttpRequest}
use nano_llm.Server.Perimeter.{GatewayErrorKind, buffer_body}
use nano_llm.Server.Chat.{
  CompletionContext, Exit, or_answer, parsed_or_answer, body_or_answer, prepare, context_of,
  no_context,
}
use nano_llm.Server.Chat.Socket.{or_decline, parsed_or_decline, body_or_decline, stream_candidate}

or_answer-ok :
    {A : Type 0} (context : CompletionContext) (m : Result Fault A)
    → Accepts (or_answer context m) (λ a. or_decline m ≡ ok a)
unfolding or_decline or_answer
or_answer-ok context (ok a) = accepts a refl refl
or_answer-ok context (err (Fault.refused error)) = rejects _ refl
or_answer-ok context (err Fault.panic) = rejects _ refl

parsed_or_answer-ok :
    {A : Type 0} (context : CompletionContext) (m : Result Stop A)
    → Accepts (parsed_or_answer context m) (λ a. parsed_or_decline m ≡ ok a)
unfolding parsed_or_decline parsed_or_answer or_answer
parsed_or_answer-ok context (ok a) = accepts a refl refl
parsed_or_answer-ok context (err (fault (Fault.refused error))) = rejects _ refl
parsed_or_answer-ok context (err (fault Fault.panic)) = rejects _ refl
parsed_or_answer-ok context (err out_of_fuel) = rejects _ refl

-- A check that is passed drops out.
passed : {A : Type 0} (t : Bool) (e : Exit) (k : Result Exit A) → t ≡ true → (ensure t e >> k) ≡ k
passed t e k h = rw h refl

failed-Accepts :
    {A B : Type 0} {P : B → Type 0} (m : Result Exit A) (f : A → Exit)
    → Accepts {A = B} (m >>= λ a. err (f a)) P
failed-Accepts (ok a) f = rejects (f a) refl
failed-Accepts (err x) f = rejects x refl

body_or_answer-ok :
    (m : Result GatewayErrorKind Text)
    → Accepts (body_or_answer m) (λ body. body_or_decline m ≡ ok body)
unfolding body_or_decline body_or_answer
body_or_answer-ok (ok body) = accepts body refl refl
body_or_answer-ok (err kind) = failed-Accepts _ _

module _ (config : RuntimeConfig) (parse_f64 : Text → Option F64) (request : HttpRequest) where
  -- A request that the ordinary checks accept asks for no stream, or is a candidate.
  pub prepare-stream_candidate : Accepts (prepare config parse_f64 request) (λ (canonical, route).
      (canonical.stream ≡ false)
      ⊎ (stream_candidate config parse_f64 request ≡ ok (canonical, route)))
  unfolding stream_candidate prepare
  prepare-stream_candidate =
      Accepts-bind (body_or_answer (buffer_body request)) _
        (body_or_answer-ok (buffer_body request))
        λ body b.
          Accepts-bind (parsed_or_answer no_context (decode_json_object (suc (length body)) body)) _
            (parsed_or_answer-ok no_context _)
            λ fields p.
              Accepts-bind (or_answer no_context (requested_model fields)) _
                (or_answer-ok no_context _)
                λ model m. Accepts-ok_or (get_route config model) _ _ λ route r.
                  Accepts-bind
                    (or_answer (context_of model) (decode_chat_request_fields parse_f64 fields)) _
                    (or_answer-ok (context_of model) _)
                    λ canonical d.
                      Accepts-bind
                        (parsed_or_answer (context_of model) (validate_for_route canonical route)) _
                        (parsed_or_answer-ok (context_of model) _)
                        λ _ v.
                          Accepts-ok (canonical, route)
                            (elim (Bool-cases canonical.stream) [
                              | inr whole ↦ inl whole
                              | inl streams ↦ inr (
                                  rw b (
                                    rw p (
                                      rw m (
                                        rw r (
                                          rw d (
                                            passed _ _ _ streams
                                            ∙ ap (λ x. x >> ok (canonical, route)) v))))))
                            ])
