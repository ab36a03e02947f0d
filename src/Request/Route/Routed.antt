-- ===== src/Request/Route/Routed.antt =====
-- A request that passes a route's checks (src/request.rs, validate_for_route) has what the route
-- needs; the parser of the tool calls' arguments does not run out of fuel.
use nano_llm.Common.{
  ℕ, suc, ◌+◌, Text, lit, Bool, true, false, not, ◌≡◌, refl, ◌⊎◌, inl, inr, Bool-cases, All, ◌&&◌,
  Option, none, some, List, [], ◌∷◌, length, any, is_some, is_empty, ok, err, arith,
}
use nano_llm.Json.{JsonValue, Fields, Members, fields_of, values, field}
use nano_llm.Config.{RuntimeRoute}
use nano_llm.Request.{CanonicalRequest}
use nano_llm.Request.Outcome.{Fault}
use nano_llm.Request.Parse.{ws, value}
use nano_llm.Request.Parse.Strings.{fault, Parse}
use nano_llm.Request.Parse.Strings.Ends.{Ends, Left, Ends-ok, Ends-mono, Ends-bind, ends, faults}
use nano_llm.Request.Parse.Total.{ws_shorter, value-Ends}
use nano_llm.Request.Route.{
  model_text, requested_model, is_object, no_object, parsed_object, check_arguments, text_arguments,
  called_arguments, all_arguments, function_arguments, call_arguments, calls_arguments,
  message_arguments, messages_arguments, validate_route_tool_arguments, needs_objects, is_anthropic,
  validate_for_route,
}

-- The text is one JSON object, with white space around it.
pub data IsObjectText (arguments : Text) : Type 0 where
  object_text :
      (path rest : Text) (ms : Members)
      → value (suc (length arguments)) path (some (lit "messages")) (ws arguments)
        ≡ ok (JsonValue.object ms, rest)
      → is_empty (ws rest) ≡ true
      → IsObjectText arguments

abbrev pub HasObjectText : Option JsonValue → Type 0
HasObjectText (some (JsonValue.string arguments)) = IsObjectText arguments
HasObjectText _ = ⊥

abbrev pub IsObjectFunction : Option JsonValue → Type 0
IsObjectFunction (some (JsonValue.object function)) =
    HasObjectText (field (fields_of function) (lit "arguments"))
IsObjectFunction _ = ⊥

abbrev pub IsObjectCall : JsonValue → Type 0
IsObjectCall (JsonValue.object call) = IsObjectFunction (field (fields_of call) (lit "function"))
IsObjectCall _ = ⊥

abbrev pub AreObjectCalls : Option JsonValue → Type 0
AreObjectCalls (some (JsonValue.array calls)) = All IsObjectCall (values calls)
AreObjectCalls _ = Unit

abbrev pub IsObjectMessage : JsonValue → Type 0
IsObjectMessage (JsonValue.object message) =
    AreObjectCalls (field (fields_of message) (lit "tool_calls"))
IsObjectMessage _ = ⊥

abbrev pub AreObjectMessages : Option JsonValue → Type 0
AreObjectMessages (some (JsonValue.array messages)) = All IsObjectMessage (values messages)
AreObjectMessages _ = ⊥

panics-Ends : {P : Unit {0} → Type 0} → Ends P (err (fault Fault.panic))
panics-Ends = faults Fault.panic refl

is_object-members : (v : JsonValue) → is_object v ≡ true → (ms : Members) × v ≡ JsonValue.object ms
unfolding is_object
is_object-members JsonValue.null e = absurd (cc e)
is_object-members (JsonValue.bool b) e = absurd (cc e)
is_object-members (JsonValue.number t) e = absurd (cc e)
is_object-members (JsonValue.string t) e = absurd (cc e)
is_object-members (JsonValue.array vs) e = absurd (cc e)
is_object-members (JsonValue.object ms) e = (ms, refl)

parsed_object-Ends :
    (path arguments : Text) (n : ℕ) (m : Parse JsonValue)
    → m ≡ value (suc (length arguments)) path (some (lit "messages")) (ws arguments)
    → Ends (Left n) m
    → Ends (λ _. IsObjectText arguments) (parsed_object path m)
unfolding parsed_object no_object
parsed_object-Ends path arguments n m from (ends (v, rest) e h) =
    elim (Bool-cases (is_empty (ws rest))) [
      | inl whole ↦ elim (Bool-cases (is_object v)) [
        | inl is ↦
            let (ms, same) = is_object-members v is in
            rw e
              (rw whole (rw is (Ends-ok tt (object_text path rest ms (cc (from, e, same)) whole))))
        | inr not_one ↦ rw e (rw whole (rw not_one (faults _ refl)))
      ]
      | inr more ↦ rw e (rw more (faults _ refl))
    ]
parsed_object-Ends path arguments n m from (faults (Fault.refused x) e) = rw e (faults _ refl)
parsed_object-Ends path arguments n m from (faults Fault.panic e) = rw e panics-Ends

check_arguments-Ends :
    (path arguments : Text) → Ends (λ _. IsObjectText arguments) (check_arguments path arguments)
unfolding check_arguments
check_arguments-Ends path arguments = parsed_object-Ends path arguments _ _ refl (
    value-Ends (suc (length arguments)) path _ (ws arguments) (omega (arith, ws_shorter arguments)))

text_arguments-Ends :
    (path : Text) (o : Option JsonValue) → Ends (λ _. HasObjectText o) (text_arguments path o)
unfolding text_arguments
text_arguments-Ends path (some (JsonValue.string arguments)) = check_arguments-Ends path arguments
text_arguments-Ends path _ = panics-Ends

function_arguments-Ends :
    (path : Text) (o : Option JsonValue)
    → Ends (λ _. IsObjectFunction o) (function_arguments path o)
unfolding function_arguments
function_arguments-Ends path (some (JsonValue.object function)) =
    text_arguments-Ends path (field (fields_of function) (lit "arguments"))
function_arguments-Ends path _ = panics-Ends

call_arguments-Ends :
    (path : Text) (call : JsonValue) → Ends (λ _. IsObjectCall call) (call_arguments path call)
unfolding call_arguments
call_arguments-Ends path (JsonValue.object call) =
    function_arguments-Ends path (field (fields_of call) (lit "function"))
call_arguments-Ends path _ = panics-Ends

calls_arguments-Ends :
    (i j : ℕ) (calls : List JsonValue)
    → Ends (λ _. All IsObjectCall calls) (calls_arguments i j calls)
unfolding calls_arguments
calls_arguments-Ends i j [] = Ends-ok tt tt
calls_arguments-Ends i j (call ∷ calls) =
    Ends-bind _ _ (call_arguments-Ends _ call)
      λ _ h. Ends-mono (λ _ t. (h, t)) (calls_arguments-Ends i (j + 1) calls)

called_arguments-Ends :
    (i : ℕ) (o : Option JsonValue) → Ends (λ _. AreObjectCalls o) (called_arguments i o)
unfolding called_arguments
called_arguments-Ends i (some (JsonValue.array calls)) = calls_arguments-Ends i 0 (values calls)
called_arguments-Ends i _ = Ends-ok tt tt

message_arguments-Ends :
    (i : ℕ) (message : JsonValue)
    → Ends (λ _. IsObjectMessage message) (message_arguments i message)
unfolding message_arguments
message_arguments-Ends i (JsonValue.object message) =
    called_arguments-Ends i (field (fields_of message) (lit "tool_calls"))
message_arguments-Ends i _ = panics-Ends

messages_arguments-Ends :
    (i : ℕ) (messages : List JsonValue)
    → Ends (λ _. All IsObjectMessage messages) (messages_arguments i messages)
unfolding messages_arguments
messages_arguments-Ends i [] = Ends-ok tt tt
messages_arguments-Ends i (message ∷ messages) =
    Ends-bind _ _ (message_arguments-Ends i message)
      λ _ h. Ends-mono (λ _ t. (h, t)) (messages_arguments-Ends (i + 1) messages)

all_arguments-Ends : (o : Option JsonValue) → Ends (λ _. AreObjectMessages o) (all_arguments o)
unfolding all_arguments
all_arguments-Ends (some (JsonValue.array messages)) = messages_arguments-Ends 0 (values messages)
all_arguments-Ends _ = panics-Ends

validate_route_tool_arguments-Ends :
    (fields : Fields)
    → Ends
        (λ _. AreObjectMessages (field fields (lit "messages")))
        (validate_route_tool_arguments fields)
unfolding validate_route_tool_arguments
validate_route_tool_arguments-Ends fields = all_arguments-Ends (field fields (lit "messages"))

limit : (asked given : Bool) → (asked && not given) ≡ false → (asked ≡ false) ⊎ (given ≡ true)
limit true true e = inr refl
limit true false e = absurd (cc e)
limit false given e = inl refl

unfoldable pub IsRouted : CanonicalRequest → RuntimeRoute → Type 0
IsRouted request route =
    (any is_anthropic route.targets ≡ false ⊎ is_some request.max_tokens ≡ true)
    × (any needs_objects route.targets ≡ false
        ⊎ AreObjectMessages (field request.fields (lit "messages")))

-- `validate_for_route` accepts, refuses or panics: its parsers' fuel never runs out. A request that
-- it accepts has a token limit if a target of the route is Anthropic's, and if one is Anthropic's
-- or Gemini's, the arguments of each call in its messages are the text of one JSON object.
pub validate_for_route-IsRouted :
    (request : CanonicalRequest) (route : RuntimeRoute)
    → Ends (λ _. IsRouted request route) (validate_for_route request route)
unfolding validate_for_route IsRouted
validate_for_route-IsRouted request route =
    elim (Bool-cases (any is_anthropic route.targets && not (is_some request.max_tokens))) [
      | inl missing ↦ rw missing (faults _ refl)
      | inr limited ↦ rw limited (elim (Bool-cases (any needs_objects route.targets)) [
        | inl e ↦ rw e (
            Ends-mono (λ _ h. (limit _ _ limited, inr h))
              (validate_route_tool_arguments-Ends request.fields))
        | inr e ↦ rw e (Ends-ok tt (limit _ _ limited, inl refl))
      ])
    ]

model_text-found :
    (o : Option JsonValue) (model : Text)
    → model_text o ≡ ok model
    → o ≡ some (JsonValue.string model)
unfolding model_text
model_text-found (some (JsonValue.string m)) model h = elim (Bool-cases (is_empty m)) [
  | inl e ↦ absurd (cc (rw e at h))
  | inr e ↦ cc (rw e at h)
]
model_text-found (some JsonValue.null) model h = absurd (cc h)
model_text-found (some (JsonValue.bool b)) model h = absurd (cc h)
model_text-found (some (JsonValue.number t)) model h = absurd (cc h)
model_text-found (some (JsonValue.array vs)) model h = absurd (cc h)
model_text-found (some (JsonValue.object ms)) model h = absurd (cc h)
model_text-found none model h = absurd (cc h)

pub requested_model-found :
    (fields : Fields) (model : Text)
    → requested_model fields ≡ ok model
    → field fields (lit "model") ≡ some (JsonValue.string model)
unfolding requested_model
requested_model-found fields model h = model_text-found (field fields (lit "model")) model h

model_text-no_panic : (o : Option JsonValue) → ¬ (model_text o ≡ err Fault.panic)
unfolding model_text
model_text-no_panic none e = absurd (cc e)
model_text-no_panic (some (JsonValue.string model)) e = elim (Bool-cases (is_empty model)) [
  | inl p ↦ absurd (cc (rw p at e))
  | inr p ↦ absurd (cc (rw p at e))
]
model_text-no_panic (some _) e = absurd (cc e)

pub requested_model-no_panic : (fields : Fields) → ¬ (requested_model fields ≡ err Fault.panic)
unfolding requested_model
requested_model-no_panic fields e = model_text-no_panic (field fields (lit "model")) e
