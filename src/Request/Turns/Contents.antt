-- ===== src/Request/Turns/Contents.antt =====
-- Instructions that pass validate_messages (src/request.rs) have the text that canonicalize reads.
use nano_llm.Common.{
  ℕ, ◌+◌, Text, lit, text_eq, Bool, true, not, ◌||◌, ◌≡◌, refl, sym, ap, ◌∙◌, inl, inr, Bool-cases,
  some, List, [], ◌∷◌, is_empty, All, ok,
}
use nano_llm.Json.{JsonValue, Fields, field}
use nano_llm.Request.Outcome.{
  Gives, Gives-ok, Gives-bind, Gives-ensure, Gives-unwrap, Gives-mono, Gives-ok_or, Gives-test,
}
use nano_llm.Request.Shape.{object, array, string, closed}
use nano_llm.Request.Shape.Checked.{
  IsObject, IsArray, HasText, object-Gives, array-Gives, string-Gives, closed-Gives,
}
use nano_llm.Request.Turns.{
  Turns, precedes_turns, plain_message, instruction_message, role_message, validate_message,
  messages_from, validate_messages, first_turn, role_content,
}
use nano_llm.Request.Turns.Steps.{role_message-Gives}
use nano_llm.Request.Canonical.{is_instruction, instruction_role, instruction_content, text_content}

-- An instruction has content to read.
abbrev pub HasContent : JsonValue → Type 0
HasContent v = is_instruction v ≡ true → (content : Text) × (instruction_content v ≡ ok content)

-- The instruction roles, as validate_message tests them.
abbrev is_leading : Text → Bool
is_leading role = text_eq role (lit "system") || text_eq role (lit "developer")

plain_message-HasText :
    (fs : Fields) (path : Text)
    → Gives (plain_message fs path) (λ _. (content : Text) × HasText fs (lit "content") content)
unfolding plain_message
plain_message-HasText fs path =
    Gives-bind (closed fs role_content role_content _ path) _ (closed-Gives fs _ _ _ path) λ _ c.
      Gives-unwrap (field fs (lit "content")) _ c.1.1.0 λ v found.
        Gives-bind (string v _ _) _ (string-Gives v _ _)
          λ content is_text. Gives-ok tt (content, found ∙ ap some is_text)

instruction_message-HasText :
    (fs : Fields) (path : Text) (turns : Turns)
    → Gives
        (instruction_message fs path turns)
        (λ _. (content : Text) × HasText fs (lit "content") content)
unfolding instruction_message
instruction_message-HasText fs path turns =
    Gives-bind (plain_message fs path) _ (plain_message-HasText fs path)
      λ _ h. Gives-ensure (precedes_turns turns.state) _ _ _ λ _. Gives-ok turns h

leading_message-HasText :
    (role : Text) (fs : Fields) (path : Text) (names : List Text) (turns : Turns)
    → is_leading role ≡ true
    → Gives
        (role_message role fs path names turns)
        (λ _. (content : Text) × HasText fs (lit "content") content)
unfolding role_message
leading_message-HasText role fs path names turns e =
    rw e (instruction_message-HasText fs path turns)

role_message-HasText :
    (role : Text) (fs : Fields) (path : Text) (names : List Text) (turns : Turns)
    → Gives
        (role_message role fs path names turns)
        (λ _. is_leading role ≡ true → (content : Text) × HasText fs (lit "content") content)
role_message-HasText role fs path names turns = elim (Bool-cases (is_leading role)) [
  | inl e ↦ Gives-mono (λ _ h _. h) (leading_message-HasText role fs path names turns e)
  | inr e ↦ Gives-mono (λ _ _ h. absurd (cc (h, e))) (role_message-Gives role fs path names turns)
]

content_read :
    (v : JsonValue) (fs : Fields) (r : JsonValue) (role : Text)
    → IsObject v fs
    → field fs (lit "role") ≡ some r
    → r ≡ JsonValue.string role
    → (is_leading role ≡ true → (content : Text) × HasText fs (lit "content") content)
    → HasContent v
unfolding is_instruction instruction_role instruction_content text_content
content_read v fs r role (ms, is_object, e) found is_role h =
    rw is_object
      (rw (sym e) (rw found (rw is_role (λ k. let (content, c) = h k in (content, rw c refl)))))

validate_message-HasContent :
    (v : JsonValue) (path : Text) (names : List Text) (turns : Turns)
    → Gives (validate_message v path names turns) (λ _. HasContent v)
unfolding validate_message
validate_message-HasContent v path names turns =
    Gives-bind (object v (lit "messages") path) _ (object-Gives v _ path) λ fs o.
      Gives-ok_or (field fs (lit "role")) _ _ _ λ r found.
        Gives-bind (string r (lit "messages") _) _ (string-Gives r _ _) λ role is_role.
          Gives-mono (λ _ h. content_read v fs r role o found is_role h)
            (role_message-HasText role fs path names turns)

messages_from-HasContent :
    (n : ℕ) (vs : List JsonValue) (names : List Text) (turns : Turns)
    → Gives (messages_from n vs names turns) (λ _. All HasContent vs)
unfolding messages_from
messages_from-HasContent n [] names turns = Gives-mono (λ _ _. tt) (Gives-test _ _ _)
messages_from-HasContent n (v ∷ vs) names turns =
    Gives-bind (validate_message v _ names turns) _ (validate_message-HasContent v _ names turns)
      λ next h. Gives-mono (λ _ hs. (h, hs)) (messages_from-HasContent (n + 1) vs names next)

pub validate_messages-HasContent :
    (value : JsonValue) (names : List Text)
    → Gives
        (validate_messages value names)
        (λ _. (messages : List JsonValue) × IsArray value messages × All HasContent messages)
unfolding validate_messages
validate_messages-HasContent value names =
    Gives-bind (array value _ _) _ (array-Gives value _ _) λ messages is_array.
      Gives-ensure (not (is_empty messages)) _ _ _ λ _.
        Gives-mono (λ _ h. (messages, is_array, h))
          (messages_from-HasContent 0 messages names first_turn)
