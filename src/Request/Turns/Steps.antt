-- ===== src/Request/Turns/Steps.antt =====
-- What one message does to the local variables of validate_messages (src/request.rs).
use nano_llm.Common.{
  ℕ, ◌+◌, Text, lit, text_eq, contains, true, not, ◌&&◌, ◌||◌, ◌≡◌, ◌≢◌, refl, inl, inr, Option,
  none, some, List, [], ◌∷◌, map, if◌then◌else◌, is_empty, is_some, contains-Fresh, arith, Fresh,
  ◌∙◌, sym, ap, subst, Bool-cases,
}
use nano_llm.Json.{JsonValue, Fields, values, field}
use nano_llm.Request.Outcome.{
  Gives, Gives-ok, Gives-validation, Gives-bind, Gives-ensure, Gives-unwrap, Gives-mono,
  Gives-ok_or,
}
use nano_llm.Request.Shape.{object, array, string, closed}
use nano_llm.Request.Shape.Checked.{IsObject, object-Gives, array-Gives, string-Gives, closed-Gives}
use nano_llm.Request.Tools.{function_kind}
use nano_llm.Request.Tools.Declared.{text_of-field, function_kind-Gives}
use nano_llm.Request.Conversation.{Turn, text_of, id_of, calls_of, turn_in, turn_of, NewIds}
use nano_llm.Request.Turns.{
  TurnState, Turns, precedes_turns, awaits_user, awaits_assistant, awaits_result, extend, remove,
  validate_call_function, validate_tool_call, calls_from, validate_tool_calls, plain_message,
  instruction_message, user_message, call_turns, assistant_message, tool_message, role_message,
  validate_message, role_content, id_type_function, name_arguments, role_id_content, text_or_null,
  is_text,
}

-- `xs` before `ys`, the last of `xs` first.
abbrev pub prepend : List Text → List Text → List Text
prepend [] used = used
prepend (id ∷ ids) used = prepend ids (id ∷ used)

pub data Step (turns : Turns) (turn : Turn) (next : Turns) : Type 0 where
  instruct :
      precedes_turns turns.state ≡ true
      → turn ≡ Turn.instruction
      → next ≡ turns
      → Step turns turn next
  ask :
      awaits_user turns.state ≡ true
      → turn ≡ Turn.user
      → next ≡ record turns { state = TurnState.after_user }
      → Step turns turn next
  reply :
      awaits_assistant turns.state ≡ true
      → turn ≡ Turn.reply
      → next ≡ record turns { state = TurnState.after_assistant }
      → Step turns turn next
  call :
      (ids : List Text)
      → awaits_assistant turns.state ≡ true
      → turn ≡ Turn.calls ids
      → ids ≢ []
      → NewIds turns.call_ids ids
      → next ≡ record {
        state = TurnState.tool_results;
        call_ids = prepend ids turns.call_ids;
        unresolved = extend turns.unresolved ids;
      }
      → Step turns turn next
  resolve :
      (id : Text)
      → awaits_result turns.state ≡ true
      → turn ≡ Turn.result id
      → contains turns.unresolved id ≡ true
      → next ≡ record turns {
        unresolved = remove id turns.unresolved;
        state =
            if is_empty (remove id turns.unresolved)
            then TurnState.after_tool_result
            else TurnState.tool_results;
      }
      → Step turns turn next

validate_call_function-Gives :
    (v : JsonValue) (p q : Text) → Gives (validate_call_function v p q) (λ _. Unit)
unfolding validate_call_function
validate_call_function-Gives v p q = Gives-bind (object v p q) _ (object-Gives v p q) λ fs _.
    Gives-bind (closed fs name_arguments name_arguments p q) _ (closed-Gives fs _ _ p q) λ _ c.
      Gives-unwrap (field fs (lit "name")) _ c.1.0 λ n _.
        Gives-bind (string n p _) _ (string-Gives n p _) λ name _.
          Gives-unwrap (field fs (lit "arguments")) _ c.1.1.0
            λ a _. Gives-bind (string a p _) _ (string-Gives a p _) λ _ _. Gives-ok name tt

-- The identifier of a call that passed.
abbrev pub NewId : JsonValue → List Text → Text → Type 0
NewId value used id = (id ≡ id_of value) × Fresh id used × (id ≢ [])

new_id :
    (used : List Text) (id : Text)
    → (not (is_empty id) && not (contains used id)) ≡ true
    → Fresh id used × (id ≢ [])
new_id used [] h = cc
new_id used (x ∷ xs) h = (contains-Fresh used (x ∷ xs) (ground arith), λ e. cc e)

named :
    (v : JsonValue) (fs : Fields) (id : Text)
    → IsObject v fs
    → text_of (field fs (lit "id")) ≡ id
    → id ≡ id_of v
named v fs id (ms, is_object, e) t = rw is_object (sym t ∙ ap (λ f. text_of (field f (lit "id"))) e)

validate_tool_call-Gives :
    (v : JsonValue) (path : Text) (names used : List Text)
    → Gives (validate_tool_call v path names used) (NewId v used)
unfolding validate_tool_call
validate_tool_call-Gives v path names used =
    Gives-bind (object v (lit "messages") path) _ (object-Gives v _ path) λ fs o.
      Gives-bind (closed fs id_type_function id_type_function (lit "messages") path) _
        (closed-Gives fs _ _ _ path)
        λ _ c. Gives-unwrap (field fs (lit "id")) _ c.1.0 λ i found.
          Gives-bind (string i (lit "messages") _) _ (string-Gives i _ _) λ id is_text.
            Gives-ensure (not (is_empty id) && not (contains used id)) _ _ _ λ new.
              Gives-unwrap (field fs (lit "type")) _ c.1.1.0 λ k _.
                Gives-bind (function_kind k (lit "messages") _) _ (function_kind-Gives k _ _) λ _ _.
                  Gives-unwrap (field fs (lit "function")) _ c.1.1.1.0 λ f _.
                    Gives-bind (validate_call_function f (lit "messages") _) _
                      (validate_call_function-Gives f _ _)
                      λ name _. Gives-ensure (contains names name) _ _ _ λ _.
                        let h = new_id used id new in
                        Gives-ok id (named v fs id o (text_of-field fs _ found is_text), h.0, h.1)

-- The calls of a message, and all identifiers after them.
abbrev pub Called : List JsonValue → List Text → List Text × List Text → Type 0
Called values used out =
    (out.0 ≡ map id_of values) × (out.1 ≡ prepend out.0 used) × NewIds used out.0

calls_from-Gives :
    (n : ℕ) (vs : List JsonValue) (path : Text) (names used : List Text)
    → Gives (calls_from n vs path names used) (Called vs used)
unfolding calls_from
calls_from-Gives n [] path names used = Gives-ok ([], used) (refl, refl, tt)
calls_from-Gives n (v ∷ vs) path names used =
    Gives-bind (validate_tool_call v _ names used) _ (validate_tool_call-Gives v _ names used)
      λ id (is_id, fresh, nonempty).
        Gives-bind (calls_from (n + 1) vs path names (id ∷ used)) _
          (calls_from-Gives (n + 1) vs path names (id ∷ used))
          λ (ids, all) (are_ids, seen, news).
            Gives-ok (id ∷ ids, all)
              (rw is_id (ap (λ t. id_of v ∷ t) are_ids), seen, (fresh, nonempty, news))

some_ids : (vs : List JsonValue) → not (is_empty vs) ≡ true → map id_of vs ≢ []
some_ids [] h = cc
some_ids (v ∷ vs) h = λ e. cc e

validate_tool_calls-Gives :
    (v : JsonValue) (path : Text) (names used : List Text)
    → Gives (validate_tool_calls v path names used) (λ out.
      (calls_of (some v) ≡ Turn.calls out.0)
      × (out.0 ≢ [])
      × (out.1 ≡ prepend out.0 used)
      × NewIds used out.0)
unfolding validate_tool_calls
validate_tool_calls-Gives v path names used =
    Gives-bind (array v (lit "messages") _) _ (array-Gives v _ _) λ vs (items, is_array, e).
      Gives-ensure (not (is_empty vs)) _ _ _ λ some_calls.
        Gives-mono
          (λ (ids, all) (are_ids, seen, news). (
            rw is_array (ap Turn.calls (sym (are_ids ∙ ap (map id_of) e))),
            λ none_left. some_ids vs some_calls (sym are_ids ∙ none_left),
            seen,
            news,
          ))
          (calls_from-Gives 0 vs path names used)

plain_message-Gives : (fs : Fields) (path : Text) → Gives (plain_message fs path) (λ _. Unit)
unfolding plain_message
plain_message-Gives fs path =
    Gives-bind (closed fs role_content role_content (lit "messages") path) _
      (closed-Gives fs _ _ _ path)
      λ _ c.
        Gives-unwrap (field fs (lit "content")) _ c.1.1.0 λ v _.
          Gives-bind (string v (lit "messages") _) _ (string-Gives v _ _) λ _ _. Gives-ok tt tt

instruction_message-Gives :
    (fs : Fields) (path : Text) (turns : Turns)
    → Gives (instruction_message fs path turns) (Step turns Turn.instruction)
unfolding instruction_message
instruction_message-Gives fs path turns =
    Gives-bind (plain_message fs path) _ (plain_message-Gives fs path) λ _ _.
      Gives-ensure (precedes_turns turns.state) _ _ _ λ h. Gives-ok turns (instruct h refl refl)

user_message-Gives :
    (fs : Fields) (path : Text) (turns : Turns)
    → Gives (user_message fs path turns) (Step turns Turn.user)
unfolding user_message
user_message-Gives fs path turns =
    Gives-bind (plain_message fs path) _ (plain_message-Gives fs path)
      λ _ _. Gives-ensure (awaits_user turns.state) _ _ _ λ h. Gives-ok _ (ask h refl refl)

-- What the `tool_calls` of a message add.
data Adds (o : Option JsonValue) (turns called : Turns) : Type 0 where
  nothing : o ≡ none → called ≡ turns → Adds o turns called
  calls :
      (v : JsonValue) (ids : List Text)
      → o ≡ some v
      → calls_of (some v) ≡ Turn.calls ids
      → ids ≢ []
      → NewIds turns.call_ids ids
      → called ≡ record turns {
        call_ids = prepend ids turns.call_ids;
        unresolved = extend turns.unresolved ids;
      }
      → Adds o turns called

call_turns-Gives :
    (o : Option JsonValue) (path : Text) (names : List Text) (turns : Turns)
    → Gives (call_turns o path names turns) (Adds o turns)
unfolding call_turns
call_turns-Gives none path names turns = Gives-ok turns (nothing refl refl)
call_turns-Gives (some v) path names turns =
    Gives-bind (validate_tool_calls v path names turns.call_ids) _
      (validate_tool_calls-Gives v path names turns.call_ids)
      λ (ids, all) (is_calls, nonempty, seen, news).
        Gives-ok _ (calls v ids refl is_calls nonempty news (rw seen refl))

answer_step :
    (o : Option JsonValue) (turns called : Turns)
    → awaits_assistant turns.state ≡ true
    → Adds o turns called
    → Step turns (calls_of o) (record called {
      state = if is_some o then TurnState.tool_results else TurnState.after_assistant;
    })
answer_step o turns called h (nothing is_none e) = rw is_none (rw e (reply h refl refl))
answer_step o turns called h (calls v ids is_some_v is_calls nonempty news e) =
    rw is_some_v (rw e (call ids h is_calls nonempty news refl))

assistant_message-Gives :
    (fs : Fields) (path : Text) (names : List Text) (turns : Turns)
    → Gives
        (assistant_message fs path names turns)
        (Step turns (calls_of (field fs (lit "tool_calls"))))
unfolding assistant_message
assistant_message-Gives fs path names turns =
    Gives-bind (closed fs _ _ (lit "messages") path) _ (closed-Gives fs _ _ _ path) λ _ _.
      Gives-ensure (text_or_null (field fs (lit "content"))) _ _ _ λ _.
        Gives-bind (call_turns (field fs (lit "tool_calls")) path names turns) _
          (call_turns-Gives _ path names turns)
          λ called adds.
            Gives-ensure
              (is_text (field fs (lit "content")) || is_some (field fs (lit "tool_calls"))) _ _ _
              λ _.
                Gives-ensure (awaits_assistant turns.state) _ _ _
                  λ h. Gives-ok _ (answer_step (field fs (lit "tool_calls")) turns called h adds)

tool_message-Gives :
    (fs : Fields) (path : Text) (turns : Turns)
    → Gives
        (tool_message fs path turns)
        (Step turns (Turn.result (text_of (field fs (lit "tool_call_id")))))
unfolding tool_message
tool_message-Gives fs path turns =
    Gives-bind (closed fs role_id_content role_id_content (lit "messages") path) _
      (closed-Gives fs _ _ _ path)
      λ _ c. Gives-unwrap (field fs (lit "tool_call_id")) _ c.1.1.0 λ i found.
        Gives-bind (string i (lit "messages") _) _ (string-Gives i _ _) λ id is_id.
          Gives-ensure (awaits_result turns.state) _ _ _ λ h.
            Gives-ensure (contains turns.unresolved id) _ _ _ λ pending.
              Gives-unwrap (field fs (lit "content")) _ c.1.1.1.0 λ v _.
                Gives-bind (string v (lit "messages") _) _ (string-Gives v _ _) λ _ _.
                  Gives-ok _
                    (resolve id h (ap Turn.result (text_of-field fs _ found is_id)) pending refl)

pub role_message-Gives :
    (role : Text) (fs : Fields) (path : Text) (names : List Text) (turns : Turns)
    → Gives (role_message role fs path names turns) (Step turns (turn_in role fs))
unfolding role_message turn_in
role_message-Gives role fs path names turns =
    elim (Bool-cases (text_eq role (lit "system") || text_eq role (lit "developer"))) [
      | inl e ↦ rw e (instruction_message-Gives fs path turns)
      | inr e ↦ rw e (elim (Bool-cases (text_eq role (lit "user"))) [
        | inl e ↦ rw e (user_message-Gives fs path turns)
        | inr e ↦ rw e (elim (Bool-cases (text_eq role (lit "assistant"))) [
          | inl e ↦ rw e (assistant_message-Gives fs path names turns)
          | inr e ↦ rw e (elim (Bool-cases (text_eq role (lit "tool"))) [
            | inl e ↦ rw e (tool_message-Gives fs path turns)
            | inr e ↦ rw e (Gives-validation _ _)
          ])
        ])
      ])
    ]

message_turn :
    (v : JsonValue) (fs : Fields) (role : Text)
    → IsObject v fs
    → text_of (field fs (lit "role")) ≡ role
    → turn_in role fs ≡ turn_of v
unfolding turn_of
message_turn v fs role (ms, is_object, e) t = rw is_object (rw (sym t) (rw e refl))

pub validate_message-Gives :
    (v : JsonValue) (path : Text) (names : List Text) (turns : Turns)
    → Gives (validate_message v path names turns) (Step turns (turn_of v))
unfolding validate_message
validate_message-Gives v path names turns =
    Gives-bind (object v (lit "messages") path) _ (object-Gives v _ path) λ fs o.
      Gives-ok_or (field fs (lit "role")) _ _ _ λ r found.
        Gives-bind (string r (lit "messages") _) _ (string-Gives r _ _) λ role is_role.
          subst (λ t. Gives (role_message role fs path names turns) (Step turns t))
            (message_turn v fs role o (text_of-field fs _ found is_role))
            (role_message-Gives role fs path names turns)
