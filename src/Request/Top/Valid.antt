-- ===== src/Request/Top/Valid.antt =====
-- What validate_top (src/request.rs) leaves true of a request.
use nano_llm.Common.{
  Text, lit, contains, Bool, true, false, not, ◌≡◌, refl, ap, ◌∙◌, Option, none, some, List, [],
  ◌∷◌, map, All, is_some, is_empty, Option-cases, inl, inr, arith,
}
use nano_llm.Json.{JsonValue, Fields, field}
use nano_llm.Request.Outcome.{
  Gives, Gives-ok, Gives-bind, Gives-ensure, Gives-unwrap, Gives-mono, Gives-both,
}
use nano_llm.Request.Shape.{string}
use nano_llm.Request.Shape.Checked.{
  IsArray, HasText, Has, string-Gives, boolean-Gives, number-Gives,
}
use nano_llm.Request.Tools.Declared.{
  AreNames, tool_name, IsChoice, validate_tools-Gives, validate_tool_choice-Gives,
}
use nano_llm.Request.Tools.Options.{
  AreStops, IsOptions, validate_stop-Gives, validate_stream_options-Gives,
}
use nano_llm.Request.Turns.{validate_messages}
use nano_llm.Request.Turns.Accepted.{IsConversation, validate_messages-IsConversation}
use nano_llm.Request.Turns.Contents.{HasContent, validate_messages-HasContent}
use nano_llm.Request.Top.{
  top_members, top_known, top_present, declared_names, streams, check_stream_options,
  check_tool_choice, check_number, check_stop, validate_limits, validate_top,
}

-- A predicate of the member, if there is one.
abbrev pub Optional : (JsonValue → Type 0) → Option JsonValue → Type 0
Optional P none = Unit
Optional P (some v) = P v

abbrev pub IsNumber : JsonValue → Type 0
IsNumber v = (text : Text) × (v ≡ JsonValue.number text)

-- The names that the optional member `tools` declares.
abbrev pub Declares : Option JsonValue → List Text → Type 0
Declares none names = names ≡ []
Declares (some v) names =
    (tools : List JsonValue) × IsArray v tools
    × (not (is_empty tools) ≡ true)
    × (names ≡ map tool_name tools)

abbrev pub Streams : Option JsonValue → Type 0
Streams o = o ≡ some (JsonValue.bool true)

abbrev pub HasContents : JsonValue → Type 0
HasContents v = (messages : List JsonValue) × IsArray v messages × All HasContent messages

pub record AreLimits (fields : Fields) : Type 0 where
  pub max_tokens : Optional IsNumber (field fields (lit "max_tokens"))
  pub max_completion_tokens : Optional IsNumber (field fields (lit "max_completion_tokens"))
  pub stop : Optional AreStops (field fields (lit "stop"))

pub record IsValid (fields : Fields) : Type 0 where
  pub names : List Text
  pub model : (text : Text) × HasText fields (lit "model") text
  pub declares : Declares (field fields (lit "tools")) names
  pub are_names : AreNames names
  pub conversation :
      (v : JsonValue) × (field fields (lit "messages") ≡ some v) × IsConversation v × HasContents v
  pub options :
      Optional
        (λ v. Streams (field fields (lit "stream")) × IsOptions v)
        (field fields (lit "stream_options"))
  pub choice :
      Optional
        (λ v. (not (is_empty names) ≡ true) × IsChoice names v)
        (field fields (lit "tool_choice"))
  pub limits : AreLimits fields

top_known-Gives : (fields : Fields) → Gives (top_known fields) (λ _. Unit)
unfolding top_known
top_known-Gives [] = Gives-ok tt tt
top_known-Gives (m ∷ fields) =
    Gives-ensure (contains top_members m.0) _ _ _ λ _. top_known-Gives fields

has : (fields : Fields) (key : Text) → is_some (field fields key) ≡ true → Has fields key
has fields key h = elim (Option-cases (field fields key)) [
  | inl e ↦ absurd (ground (arith, e))
  | inr found ↦ found
]

top_present-Gives :
    (fields : Fields) (keys : List Text)
    → Gives (top_present fields keys) (λ _. All (Has fields) keys)
unfolding top_present
top_present-Gives fields [] = Gives-ok tt tt
top_present-Gives fields (key ∷ keys) =
    Gives-ensure (is_some (field fields key)) _ _ _
      λ h. Gives-mono (λ _ hs. (has fields key h, hs)) (top_present-Gives fields keys)

declared_names-Gives :
    (o : Option JsonValue) → Gives (declared_names o) (λ names. Declares o names × AreNames names)
unfolding declared_names
declared_names-Gives none = Gives-ok [] (refl, (tt, tt))
declared_names-Gives (some v) =
    Gives-mono (λ names (tools, is_array, some_tools, e, h). ((tools, is_array, some_tools, e), h))
      (validate_tools-Gives v)

streams-Gives : (o : Option JsonValue) → Gives (streams o) (λ b. b ≡ true → Streams o)
unfolding streams
streams-Gives none = Gives-ok false (λ h. absurd (cc h))
streams-Gives (some v) = Gives-mono (λ b e h. rw e (rw h refl)) (boolean-Gives v _ _)

check_stream_options-Gives :
    (o s : Option JsonValue) (stream : Bool)
    → (stream ≡ true → Streams s)
    → Gives (check_stream_options o stream) (λ _. Optional (λ v. Streams s × IsOptions v) o)
unfolding check_stream_options
check_stream_options-Gives none s stream h = Gives-ok tt tt
check_stream_options-Gives (some v) s stream h =
    Gives-ensure stream _ _ _ λ e. Gives-mono (λ _ k. (h e, k)) (validate_stream_options-Gives v)

check_tool_choice-Gives :
    (o : Option JsonValue) (names : List Text)
    → Gives
        (check_tool_choice o names)
        (λ _. Optional (λ v. (not (is_empty names) ≡ true) × IsChoice names v) o)
unfolding check_tool_choice
check_tool_choice-Gives none names = Gives-ok tt tt
check_tool_choice-Gives (some v) names =
    Gives-ensure (not (is_empty names)) _ _ _
      λ some_names. Gives-mono (λ _ h. (some_names, h)) (validate_tool_choice-Gives v names)

check_number-Gives :
    (o : Option JsonValue) (key : Text) → Gives (check_number o key) (λ _. Optional IsNumber o)
unfolding check_number
check_number-Gives none key = Gives-ok tt tt
check_number-Gives (some v) key = number-Gives v key key

check_stop-Gives : (o : Option JsonValue) → Gives (check_stop o) (λ _. Optional AreStops o)
unfolding check_stop
check_stop-Gives none = Gives-ok tt tt
check_stop-Gives (some v) = validate_stop-Gives v

validate_limits-Gives : (fields : Fields) → Gives (validate_limits fields) (λ _. AreLimits fields)
unfolding validate_limits
validate_limits-Gives fields =
    Gives-bind (check_number (field fields (lit "max_tokens")) _) _ (check_number-Gives _ _) λ _ a.
      Gives-bind (check_number (field fields (lit "max_completion_tokens")) _) _
        (check_number-Gives _ _)
        λ _ b.
          Gives-bind (check_number (field fields (lit "temperature")) _) _ (check_number-Gives _ _)
            λ _ _.
              Gives-bind (check_number (field fields (lit "top_p")) _) _ (check_number-Gives _ _)
                λ _ _. Gives-ensure _ _ _ _ λ _.
                  Gives-mono (λ _ s. record { max_tokens = a; max_completion_tokens = b; stop = s })
                    (check_stop-Gives (field fields (lit "stop")))

pub validate_top-Gives : (fields : Fields) → Gives (validate_top fields) (λ _. IsValid fields)
unfolding validate_top
validate_top-Gives fields = Gives-bind (top_known fields) _ (top_known-Gives fields) λ _ _.
    Gives-bind (top_present fields (lit "model" ∷ lit "messages" ∷ [])) _
      (top_present-Gives fields (lit "model" ∷ lit "messages" ∷ []))
      λ _ c. Gives-unwrap (field fields (lit "model")) _ c.0 λ m found_model.
        Gives-bind (string m _ _) _ (string-Gives m _ _) λ model is_text.
          Gives-bind (declared_names (field fields (lit "tools"))) _ (declared_names-Gives _)
            λ names (declares, are_names).
              Gives-unwrap (field fields (lit "messages")) _ c.1.0 λ v found.
                Gives-bind (validate_messages v names) _
                  (Gives-both (validate_messages-IsConversation v names)
                    (validate_messages-HasContent v names))
                  λ _ (conversation, contents).
                    Gives-bind (streams (field fields (lit "stream"))) _ (streams-Gives _)
                      λ stream streams_so.
                        Gives-bind
                          (check_stream_options (field fields (lit "stream_options")) stream) _
                          (check_stream_options-Gives _ (field fields (lit "stream")) stream
                            streams_so)
                          λ _ options.
                            Gives-bind (check_tool_choice (field fields (lit "tool_choice")) names)
                              _ (check_tool_choice-Gives _ names)
                              λ _ choice.
                                Gives-mono
                                  (λ _ limits. record {
                                    names = names;
                                    model = (model, found_model ∙ ap some is_text);
                                    declares = declares;
                                    are_names = are_names;
                                    conversation = (v, found, conversation, contents);
                                    options = options;
                                    choice = choice;
                                    limits = limits;
                                  })
                                  (validate_limits-Gives fields)
