-- ===== src/Request/Canonical/Decoded.antt =====
-- What a request that the decoder of src/request.rs returns is worth.
use nano_llm.Common.{
  ℕ, ◌≤◌, Text, lit, contains, Bool, true, false, not, ◌&&◌, ◌≡◌, ◌≢◌, refl, sym, ap, subst, ◌∙◌,
  inl, inr, Option, none, some, List, [], ◌∷◌, length, All, any, leb, leb→le, is_some, is_empty,
  Bool-cases, text_eq, arith,
}
use nano_llm.Float.{F64, in_range}
use nano_llm.Json.{JsonValue, Fields, values, field}
use nano_llm.Request.{CanonicalRequest, ToolChoice}
use nano_llm.Request.Outcome.{
  Gives, Gives-ok, Gives-validation, Gives-bind, Gives-ensure, Gives-unwrap,
}
use nano_llm.Request.Shape.Checked.{HasText}
use nano_llm.Request.Tools.{choice_words}
use nano_llm.Request.Tools.Declared.{IsChoice}
use nano_llm.Request.Tools.Options.{IsStop, IsStopString, AreStops, IsOptions}
use nano_llm.Request.Turns.Contents.{HasContent}
use nano_llm.Request.Top.{validate_top}
use nano_llm.Request.Top.Valid.{
  Optional, IsNumber, Declares, Streams, HasContents, IsValid, validate_top-Gives,
}
use nano_llm.Request.Canonical.{
  is_true, model_of, include_usage_of, positive, positive_i32, max_tokens_of, stop_strings, stop_of,
  is_instruction, instruction_parts, combined_instruction, choice_word, tool_choice_of,
  canonical_tool_choice, probability, optional_probability, canonicalize,
  decode_chat_request_fields, fractional_byte, parse_unsigned,
}

abbrev pub InBounds : Option ℕ → Type 0
InBounds none = Unit
InBounds (some n) = (1 ≤ n) × (n ≤ 2147483647)

abbrev pub IsProbability : Option F64 → Type 0
IsProbability none = Unit
IsProbability (some x) = in_range 0 1 x ≡ true

abbrev pub AreStopTexts : Option (List Text) → Type 0
AreStopTexts none = Unit
AreStopTexts (some texts) = (length texts ≤ 4) × All IsStop texts

-- The choice can be met with the declared names.
abbrev pub CanChoose : List Text → ToolChoice → Type 0
CanChoose names ToolChoice.none = Unit
CanChoose names ToolChoice.auto = names ≢ []
CanChoose names ToolChoice.required = names ≢ []
CanChoose names (ToolChoice.named name) = contains names name ≡ true

pub record IsDecoded (fields : Fields) (request : CanonicalRequest) : Type 0 where
  pub valid : IsValid fields
  pub fields_kept : request.fields ≡ fields
  pub model_kept : HasText fields (lit "model") request.model
  pub usage_streams : request.include_usage ≡ true → request.stream ≡ true
  pub max_tokens : InBounds request.max_tokens
  pub temperature : IsProbability request.temperature
  pub top_p : IsProbability request.top_p
  pub stop : AreStopTexts request.stop
  pub choice : CanChoose valid.names request.tool_choice

model_of-Gives :
    (m : JsonValue) (text : Text)
    → m ≡ JsonValue.string text
    → Gives (model_of m) (λ t. m ≡ JsonValue.string t)
unfolding model_of
model_of-Gives m text e = rw e (Gives-ok text refl)

include_usage_of-Gives :
    (o s : Option JsonValue)
    → Optional (λ v. Streams s × IsOptions v) o
    → Gives (include_usage_of o) (λ b. b ≡ true → is_true s ≡ true)
unfolding include_usage_of is_true
include_usage_of-Gives none s h = Gives-ok false (λ e. absurd (cc e))
include_usage_of-Gives (some v) s (streams, (fs, b, (ms, is_object, e), found)) =
    rw is_object (Gives-ok _ (λ _. rw streams refl))

positive-Gives :
    (o : Option ℕ) (param : Text) → Gives (positive o param) (λ n. (1 ≤ n) × (n ≤ 2147483647))
unfolding positive
positive-Gives none param = Gives-validation _ _
positive-Gives (some n) param =
    Gives-ensure (leb 1 n && leb n 2147483647) _ _ _
      λ h. Gives-ok n (leb→le 1 n (ground arith), leb→le n 2147483647 (ground arith))

positive_i32-Gives :
    (v : JsonValue) (param : Text)
    → IsNumber v
    → Gives (positive_i32 v param) (λ n. (1 ≤ n) × (n ≤ 2147483647))
unfolding positive_i32
positive_i32-Gives v param (text, is_number) = rw is_number (
    Gives-ensure (not (any fractional_byte text)) _ _ _
      λ _. positive-Gives (parse_unsigned text) param)

max_tokens_of-Gives :
    (a b : Option JsonValue)
    → Optional IsNumber a
    → Optional IsNumber b
    → Gives (max_tokens_of a b) InBounds
unfolding max_tokens_of
max_tokens_of-Gives none none h k = Gives-ok none tt
max_tokens_of-Gives none (some v) h k =
    Gives-bind (positive_i32 v _) _ (positive_i32-Gives v _ k) λ n bounds. Gives-ok (some n) bounds
max_tokens_of-Gives (some v) none h k =
    Gives-bind (positive_i32 v _) _ (positive_i32-Gives v _ h) λ n bounds. Gives-ok (some n) bounds
max_tokens_of-Gives (some v) (some w) h k = Gives-validation _ _

stop_strings-Gives :
    (vs : List JsonValue)
    → All IsStopString vs
    → Gives (stop_strings vs) (λ texts. (length texts ≡ length vs) × All IsStop texts)
unfolding stop_strings
stop_strings-Gives [] h = Gives-ok [] (refl, tt)
stop_strings-Gives (v ∷ vs) ((text, is_text, h), hs) = rw is_text (
    Gives-bind (stop_strings vs) _ (stop_strings-Gives vs hs)
      λ texts (same, stops). Gives-ok (text ∷ texts) (omega (arith, same), (h, stops)))

stop_of-Gives : (o : Option JsonValue) → Optional AreStops o → Gives (stop_of o) AreStopTexts
unfolding stop_of
stop_of-Gives none h = Gives-ok none tt
stop_of-Gives (some (JsonValue.string text)) h = Gives-ok _ (omega arith, (h, tt))
stop_of-Gives (some (JsonValue.array items)) (few, stops) =
    Gives-bind (stop_strings (values items)) _ (stop_strings-Gives (values items) stops)
      λ texts (same, h). Gives-ok (some texts) (omega (arith, same, few), h)
stop_of-Gives (some JsonValue.null) h = absurd h
stop_of-Gives (some (JsonValue.bool b)) h = absurd h
stop_of-Gives (some (JsonValue.number t)) h = absurd h
stop_of-Gives (some (JsonValue.object ms)) h = absurd h

instruction_parts-Gives :
    (vs : List JsonValue) → All HasContent vs → Gives (instruction_parts vs) (λ _. Unit)
unfolding instruction_parts
instruction_parts-Gives [] h = Gives-ok [] tt
instruction_parts-Gives (v ∷ vs) (h, hs) = elim (Bool-cases (is_instruction v)) [
  | inl e ↦
      let (content, c) = h e in
      rw e (
        rw c (
          Gives-bind (instruction_parts vs) _ (instruction_parts-Gives vs hs)
            λ parts _. Gives-ok _ tt))
  | inr e ↦ rw e (Gives-ok [] tt)
]

combined_instruction-Gives :
    (v : JsonValue) → HasContents v → Gives (combined_instruction v) (λ _. Unit)
unfolding combined_instruction
combined_instruction-Gives v (messages, (vs, is_array, e), h) = rw is_array (
    Gives-bind (instruction_parts (values vs)) _
      (instruction_parts-Gives (values vs) (subst (All HasContent) e h)) λ parts _. Gives-ok _ tt)

text_eq_comm : (s t : Text) → text_eq s t ≡ text_eq t s
unfolding text_eq
text_eq_comm [] [] = refl
text_eq_comm [] (y ∷ ys) = refl
text_eq_comm (x ∷ xs) [] = refl
text_eq_comm (x ∷ xs) (y ∷ ys) = ground (arith, text_eq_comm xs ys)

other_word :
    (word : Text)
    → contains choice_words word ≡ true
    → text_eq word (lit "none") ≡ false
    → text_eq word (lit "auto") ≡ false
    → text_eq word (lit "required") ≡ false
    → ⊥
unfolding contains
other_word word h a b c = ground (
  arith,
  text_eq_comm word (lit "none"),
  text_eq_comm word (lit "auto"),
  text_eq_comm word (lit "required"),
)

choice_word-Gives :
    (names : List Text) (word : Text)
    → names ≢ []
    → contains choice_words word ≡ true
    → Gives (choice_word word) (CanChoose names)
unfolding choice_word contains
choice_word-Gives names word some_names h = elim (Bool-cases (text_eq word (lit "none"))) [
  | inl e ↦ rw e (Gives-ok ToolChoice.none tt)
  | inr is_not_none ↦ rw is_not_none (elim (Bool-cases (text_eq word (lit "auto"))) [
    | inl e ↦ rw e (Gives-ok ToolChoice.auto some_names)
    | inr is_not_auto ↦ rw is_not_auto (elim (Bool-cases (text_eq word (lit "required"))) [
      | inl e ↦ rw e (Gives-ok ToolChoice.required some_names)
      | inr is_not_required ↦ absurd (other_word word h is_not_none is_not_auto is_not_required)
    ])
  ])
]

tool_choice_of-Gives :
    (o : Option JsonValue) (names : List Text) (has_tools : Bool)
    → Optional (λ v. (not (is_empty names) ≡ true) × IsChoice names v) o
    → (has_tools ≡ true → names ≢ [])
    → Gives (tool_choice_of o has_tools) (CanChoose names)
unfolding tool_choice_of
tool_choice_of-Gives none names true h k = Gives-ok ToolChoice.auto (k refl)
tool_choice_of-Gives none names false h k = Gives-ok ToolChoice.none tt
tool_choice_of-Gives (some v) names has_tools (some_names, inl (word, is_word, known)) k =
    rw is_word (choice_word-Gives names word (λ e. cc (rw e at some_names)) known)
tool_choice_of-Gives (some v) names has_tools
      (
        some_names,
        inr (fs, f, gs, name, (ms, is_object, e), found, (ns, is_function, e'), is_name, declared),
      )
      k =
    rw is_object (
      rw (sym e) (
        rw found
          (rw is_function (rw (sym e') (rw is_name (Gives-ok (ToolChoice.named name) declared))))))

-- Tools that are there declare a name.
Declares-nonempty :
    (o : Option JsonValue) (names : List Text) → Declares o names → is_some o ≡ true → names ≢ []
Declares-nonempty none names h e = cc
Declares-nonempty (some v) names ([], is_array, nonempty, e) h = cc
Declares-nonempty (some v) names (t ∷ tools, is_array, nonempty, e) h =
    λ none_left. cc (sym e ∙ none_left)

module _ (parse_f64 : Text → Option F64) where
  probability-Gives :
      (o : Option F64) (param : Text) → Gives (probability parse_f64 o param) IsProbability
  unfolding probability
  probability-Gives none param = Gives-validation _ _
  probability-Gives (some x) param = Gives-ensure (in_range 0 1 x) _ _ _ λ h. Gives-ok (some x) h

  optional_probability-Gives :
      (o : Option JsonValue) (param : Text)
      → Gives (optional_probability parse_f64 o param) IsProbability
  unfolding optional_probability
  optional_probability-Gives none param = Gives-ok none tt
  optional_probability-Gives (some (JsonValue.number text)) param =
      probability-Gives (parse_f64 text) param
  optional_probability-Gives (some JsonValue.null) param = Gives-ok none tt
  optional_probability-Gives (some (JsonValue.bool b)) param = Gives-ok none tt
  optional_probability-Gives (some (JsonValue.string t)) param = Gives-ok none tt
  optional_probability-Gives (some (JsonValue.array vs)) param = Gives-ok none tt
  optional_probability-Gives (some (JsonValue.object ms)) param = Gives-ok none tt

  canonicalize-Gives :
      (fields : Fields) → IsValid fields → Gives (canonicalize parse_f64 fields) (IsDecoded fields)
  unfolding canonicalize canonical_tool_choice
  canonicalize-Gives fields valid =
      let (text, has_model) = valid.model in
      let (v, found, conversation, contents) = valid.conversation in
      Gives-unwrap (field fields (lit "model")) _ (JsonValue.string text, has_model)
        λ m found_model.
          Gives-bind (model_of m) _ (model_of-Gives m text (cc (sym found_model ∙ has_model)))
            λ model is_model.
              Gives-bind (include_usage_of (field fields (lit "stream_options"))) _
                (include_usage_of-Gives _ (field fields (lit "stream")) valid.options)
                λ include_usage streams.
                  Gives-bind (max_tokens_of (field fields (lit "max_tokens")) _) _
                    (max_tokens_of-Gives _ _ valid.limits.max_tokens
                      valid.limits.max_completion_tokens)
                    λ max_tokens bounds.
                      Gives-bind
                        (optional_probability parse_f64 (field fields (lit "temperature")) _) _
                        (optional_probability-Gives _ _)
                        λ temperature t.
                          Gives-bind (optional_probability parse_f64 (field fields (lit "top_p")) _)
                            _ (optional_probability-Gives _ _)
                            λ top_p p.
                              Gives-bind (stop_of (field fields (lit "stop"))) _
                                (stop_of-Gives _ valid.limits.stop)
                                λ stop stops.
                                  Gives-unwrap (field fields (lit "messages")) _ (v, found)
                                    λ w found_messages.
                                      Gives-bind (combined_instruction w) _
                                        (combined_instruction-Gives w (
                                          subst HasContents (cc (sym found ∙ found_messages))
                                            contents))
                                        λ instruction _.
                                          Gives-bind
                                            (tool_choice_of (field fields (lit "tool_choice")) _) _
                                            (tool_choice_of-Gives _ valid.names _ valid.choice
                                              (Declares-nonempty _ valid.names valid.declares))
                                            λ choice chooses. Gives-ok _ (record {
                                              valid = valid;
                                              fields_kept = refl;
                                              model_kept = found_model ∙ ap some is_model;
                                              usage_streams = streams;
                                              max_tokens = bounds;
                                              temperature = t;
                                              top_p = p;
                                              stop = stops;
                                              choice = chooses;
                                            })

  -- `decode_chat_request_fields` never panics: none of its `unwrap`s and `unreachable!`s is
  -- reached, whatever the fields. A request that it returns is validated (its messages form a
  -- conversation whose calls are all answered, the tool names are valid and distinct), keeps the
  -- fields and the model, asks for usage only when it streams, has its limits, probabilities and
  -- stop sequences in range, and a tool choice that the declared tools can meet.
  pub decode_chat_request_fields-IsDecoded :
      (fields : Fields) → Gives (decode_chat_request_fields parse_f64 fields) (IsDecoded fields)
  unfolding decode_chat_request_fields
  decode_chat_request_fields-IsDecoded fields =
      Gives-bind (validate_top fields) _ (validate_top-Gives fields)
        λ _ valid. canonicalize-Gives fields valid
