-- ===== src/Request/Turns/Accepted.antt =====
-- A conversation that validate_messages (src/request.rs) passes is one of the grammar, and its
-- identifiers are new.
use nano_llm.Common.{
  ℕ, ◌+◌, Text, lit, text_eq, contains, true, not, ◌||◌, ◌≡◌, ◌≢◌, refl, inl, inr, List, [], ◌∷◌,
  ◌++◌, map, is_empty, push_new, if◌then◌else◌, arith, sym, ap, Bool-cases, Fresh, Fresh-contains,
  text_eq_iff, Distinct, All,
}
use mathlib.Core.List.{Perm}
use mathlib.Core.List.Perm
use nano_llm.Json.{JsonValue}
use nano_llm.Request.Outcome.{Gives, Gives-bind, Gives-ensure, Gives-mono, Gives-test}
use nano_llm.Request.Shape.{array}
use nano_llm.Request.Shape.Checked.{IsArray, array-Gives}
use nano_llm.Request.Conversation.{
  Turn, turn_of, UserSide, stop, replied, called, Conversation, instructed, asked, all_ids, NewIds,
}
use nano_llm.Request.Turns.{
  TurnState, Turns, precedes_turns, awaits_user, awaits_assistant, awaits_result, extend, remove,
  validate_message, messages_from, validate_messages, first_turn,
}
use nano_llm.Request.Turns.Steps.{
  Step, instruct, ask, reply, call, resolve, prepend, validate_message-Gives,
}

-- What follows in each state, when the messages are accepted.
abbrev Continues : TurnState → List Text → List Turn → Type 0
Continues TurnState.instruction unresolved turns = Conversation turns
Continues TurnState.after_user unresolved turns = UserSide turns
Continues TurnState.after_tool_result unresolved turns = UserSide turns
Continues TurnState.after_assistant unresolved turns =
    (rest : List Turn) × (turns ≡ Turn.user ∷ rest) × UserSide rest
Continues TurnState.tool_results unresolved turns =
    (results : List Text) × (rest : List Turn) × (turns ≡ map Turn.result results ++ rest)
    × Perm unresolved results
    × UserSide rest

-- Only while results are awaited is there an unresolved call.
abbrev Settled : TurnState → List Text → Type 0
Settled TurnState.tool_results unresolved = Unit
Settled _ unresolved = unresolved ≡ []

remove_perm : (k : Text) (xs : List Text) → contains xs k ≡ true → Perm xs (k ∷ remove k xs)
unfolding contains remove
remove_perm k [] h = cc
remove_perm k (x ∷ xs) h = elim (Bool-cases (text_eq x k)) [
  | inl e ↦ rw e (rw ((text_eq_iff x k).0 e) (Perm.refl (k ∷ xs)))
  | inr e ↦ rw e (
      Perm.trans (Perm.cons x (remove_perm k xs (ground (arith, e)))) (Perm.swap k x (remove k xs)))
]

-- Fewer identifiers in use refuse less.
NewIds-mono :
    (used more ids : List Text)
    → ((id : Text) → Fresh id more → Fresh id used)
    → NewIds more ids
    → NewIds used ids
NewIds-mono used more [] f h = tt
NewIds-mono used more (id ∷ ids) f (fresh, nonempty, new) =
    (f id fresh, nonempty, NewIds-mono (id ∷ used) (id ∷ more) ids (λ k h. (h.0, f k h.1)) new)

-- What is in use is met by no later identifier.
Fresh-rest : (k : Text) (used ids : List Text) → NewIds (k ∷ used) ids → Fresh k ids
Fresh-rest k used [] h = tt
Fresh-rest k used (id ∷ ids) (fresh, nonempty, new) = (
  λ e. fresh.0 (sym e),
  Fresh-rest k used ids (NewIds-mono (k ∷ used) (id ∷ k ∷ used) ids (λ _ h. h.1) new),
)

extend_new : (used ids : List Text) → NewIds used ids → extend [] ids ≡ ids
unfolding extend push_new
extend_new used [] h = refl
extend_new used (id ∷ ids) (fresh, nonempty, new) =
    rw (extend_new (id ∷ used) ids new)
      (rw (Fresh-contains ids id (Fresh-rest id used ids new)) refl)

NewIds-append :
    (used ids rest : List Text)
    → NewIds used ids
    → NewIds (prepend ids used) rest
    → NewIds used (ids ++ rest)
NewIds-append used [] rest h k = k
NewIds-append used (id ∷ ids) rest (fresh, nonempty, new) k =
    (fresh, nonempty, NewIds-append (id ∷ used) ids rest new k)

waiting-Settled :
    (s : TurnState) (u : List Text)
    → (awaits_user s || awaits_assistant s) ≡ true
    → Settled s u
    → u ≡ []
unfolding awaits_user awaits_assistant
waiting-Settled TurnState.instruction u h e = e
waiting-Settled TurnState.after_user u h e = e
waiting-Settled TurnState.after_assistant u h e = e
waiting-Settled TurnState.tool_results u h e = cc
waiting-Settled TurnState.after_tool_result u h e = e

result-Settled :
    (left : List Text)
    → Settled (if is_empty left then TurnState.after_tool_result else TurnState.tool_results) left
result-Settled [] = refl
result-Settled (x ∷ xs) = tt

result_state :
    (s : TurnState) (u : List Text) (id : Text)
    → awaits_result s ≡ true
    → Settled s u
    → contains u id ≡ true
    → s ≡ TurnState.tool_results
unfolding awaits_result contains
result_state TurnState.instruction u id h e p = cc
result_state TurnState.after_user u id h e p = cc
result_state TurnState.after_assistant u id h e p = cc
result_state TurnState.tool_results u id h e p = refl
result_state TurnState.after_tool_result u id h e p = cc (rw e at p)

instruction-Continues :
    (s : TurnState) (u : List Text) (ts : List Turn)
    → precedes_turns s ≡ true
    → Continues s u ts
    → Continues s u (Turn.instruction ∷ ts)
unfolding precedes_turns
instruction-Continues TurnState.instruction u ts h k = instructed k
instruction-Continues TurnState.after_user u ts h k = cc
instruction-Continues TurnState.after_assistant u ts h k = cc
instruction-Continues TurnState.tool_results u ts h k = cc
instruction-Continues TurnState.after_tool_result u ts h k = cc

user-Continues :
    (s : TurnState) (u : List Text) (ts : List Turn)
    → awaits_user s ≡ true
    → UserSide ts
    → Continues s u (Turn.user ∷ ts)
unfolding awaits_user
user-Continues TurnState.instruction u ts h k = asked k
user-Continues TurnState.after_user u ts h k = cc
user-Continues TurnState.after_assistant u ts h k = (ts, refl, k)
user-Continues TurnState.tool_results u ts h k = cc
user-Continues TurnState.after_tool_result u ts h k = cc

assistant-Continues :
    (s : TurnState) (u : List Text) (ts : List Turn)
    → awaits_assistant s ≡ true
    → UserSide ts
    → Continues s u ts
unfolding awaits_assistant
assistant-Continues TurnState.instruction u ts h k = cc
assistant-Continues TurnState.after_user u ts h k = k
assistant-Continues TurnState.after_assistant u ts h k = cc
assistant-Continues TurnState.tool_results u ts h k = cc
assistant-Continues TurnState.after_tool_result u ts h k = k

result-Continues :
    (u left : List Text) (id : Text) (ts : List Turn)
    → Perm u (id ∷ left)
    → Continues
        (if is_empty left then TurnState.after_tool_result else TurnState.tool_results)
        left
        ts
    → Continues TurnState.tool_results u (Turn.result id ∷ ts)
result-Continues u [] id ts p k = (id ∷ [], ts, refl, p, k)
result-Continues u (x ∷ xs) id ts p (results, rest, e, q, k) =
    (id ∷ results, rest, ap (λ l. Turn.result id ∷ l) e, Perm.trans p (Perm.cons id q), k)

reply-Continues :
    (u : List Text) (ts : List Turn)
    → Continues TurnState.after_assistant u ts
    → UserSide (Turn.reply ∷ ts)
reply-Continues u ts (rest, e, k) = rw e (replied k)

call-Continues :
    (u ids : List Text) (ts : List Turn)
    → u ≡ ids
    → ids ≢ []
    → Continues TurnState.tool_results u ts
    → UserSide (Turn.calls ids ∷ ts)
call-Continues u ids ts same nonempty (results, rest, e, p, k) =
    called ids results (ap (λ l. Turn.calls ids ∷ l) e) nonempty (rw same at p) k

module _ {turns next : Turns} {turn : Turn} where
  Step-Settled :
      Step turns turn next
      → Settled turns.state turns.unresolved
      → Settled next.state next.unresolved
  Step-Settled (instruct h t e) s = rw e s
  Step-Settled (ask h t e) s = rw e (waiting-Settled turns.state _ (ground (arith, h)) s)
  Step-Settled (reply h t e) s = rw e (waiting-Settled turns.state _ (ground (arith, h)) s)
  Step-Settled (call ids h t nonempty new e) s = rw e tt
  Step-Settled (resolve id h t pending e) s = rw e (result-Settled (remove id turns.unresolved))

  Step-NewIds :
      (ts : List Turn)
      → Step turns turn next
      → NewIds next.call_ids (all_ids ts)
      → NewIds turns.call_ids (all_ids (turn ∷ ts))
  Step-NewIds ts (instruct h t e) new = rw t (rw e at new)
  Step-NewIds ts (ask h t e) new = rw t (rw e at new)
  Step-NewIds ts (reply h t e) new = rw t (rw e at new)
  Step-NewIds ts (call ids h t nonempty news e) new =
      rw t (NewIds-append turns.call_ids ids (all_ids ts) news (rw e at new))
  Step-NewIds ts (resolve id h t pending e) new = rw t (rw e at new)

  Step-Continues :
      (ts : List Turn)
      → Step turns turn next
      → Settled turns.state turns.unresolved
      → Continues next.state next.unresolved ts
      → Continues turns.state turns.unresolved (turn ∷ ts)
  Step-Continues ts (instruct h t e) s k =
      rw t (instruction-Continues turns.state turns.unresolved ts h (rw e at k))
  Step-Continues ts (ask h t e) s k =
      rw t (user-Continues turns.state turns.unresolved ts h (rw e at k))
  Step-Continues ts (reply h t e) s k = rw t (
      assistant-Continues turns.state turns.unresolved _ h
        (reply-Continues turns.unresolved ts (rw e at k)))
  Step-Continues ts (call ids h t nonempty new e) s k =
      let settled = waiting-Settled turns.state _ (ground (arith, h)) s in
      rw t (
        assistant-Continues turns.state turns.unresolved _ h (
          call-Continues _ ids ts (rw settled (extend_new turns.call_ids ids new)) nonempty
            (rw e at k)))
  Step-Continues ts (resolve id h t pending e) s k =
      let state = result_state turns.state turns.unresolved id h s pending in
      rw t (
        rw state (
          result-Continues turns.unresolved _ id ts (remove_perm id turns.unresolved pending)
            (rw e at k)))

messages_from-Gives :
    (n : ℕ) (vs : List JsonValue) (names : List Text) (turns : Turns)
    → Settled turns.state turns.unresolved
    → Gives (messages_from n vs names turns) (λ _.
      Continues turns.state turns.unresolved (map turn_of vs)
      × NewIds turns.call_ids (all_ids (map turn_of vs)))
unfolding messages_from
messages_from-Gives n [] names turns s =
    Gives-mono (λ _ h. (assistant-Continues turns.state turns.unresolved [] h stop, tt))
      (Gives-test (awaits_assistant turns.state) _ _)
messages_from-Gives n (v ∷ vs) names turns s =
    Gives-bind (validate_message v _ names turns) _ (validate_message-Gives v _ names turns)
      λ next step.
        Gives-mono
          (λ _ (k, new).
            (Step-Continues (map turn_of vs) step s k, Step-NewIds (map turn_of vs) step new))
          (messages_from-Gives (n + 1) vs names next (Step-Settled step s))

-- New identifiers are distinct, and none is empty.
new-Distinct : (used ids : List Text) → NewIds used ids → Distinct ids × All (λ id. id ≢ []) ids
new-Distinct used [] h = (tt, tt)
new-Distinct used (id ∷ ids) (fresh, nonempty, new) =
    let rest = new-Distinct (id ∷ used) ids new in
    ((Fresh-rest id used ids new, rest.0), (nonempty, rest.1))

-- What validate_messages establishes of the messages.
pub record IsConversation (value : JsonValue) : Type 0 where
  pub messages : List JsonValue
  pub is_array : IsArray value messages
  pub is_grammatical : Conversation (map turn_of messages)
  pub distinct_ids : Distinct (all_ids (map turn_of messages))
  pub nonempty_ids : All (λ id. id ≢ []) (all_ids (map turn_of messages))

-- `validate_messages` never panics, and what it passes is a conversation: instructions first, then
-- turns in alternation that end on the user's side, each group of calls answered by exactly one
-- result per call, and call identifiers nonempty and distinct over the whole conversation.
pub validate_messages-IsConversation :
    (value : JsonValue) (tool_names : List Text)
    → Gives (validate_messages value tool_names) (λ _. IsConversation value)
unfolding validate_messages
validate_messages-IsConversation value names =
    Gives-bind (array value (lit "messages") (lit "messages")) _ (array-Gives value _ _)
      λ messages is_array. Gives-ensure (not (is_empty messages)) _ _ _ λ _.
        Gives-mono
          (λ _ (k, new).
            let ids = new-Distinct [] (all_ids (map turn_of messages)) new in
            record {
              messages = messages;
              is_array = is_array;
              is_grammatical = k;
              distinct_ids = ids.0;
              nonempty_ids = ids.1;
            })
          (messages_from-Gives 0 messages names first_turn refl)
