-- ===== src/Request/Conversation.antt =====
-- The conversations that src/request.rs accepts, as a grammar of turns.
use nano_llm.Common.{
  Text, lit, text_eq, ◌||◌, Option, none, some, List, [], ◌∷◌, ◌++◌, map, ◌≡◌, ◌≢◌, if◌then◌else◌,
  Fresh,
}
use mathlib.Core.List.{Perm}
use nano_llm.Json.{JsonValue, Fields, values, fields_of, field}

-- What a message contributes to the conversation.
pub data Turn : Type 0 where
  instruction user reply : Turn
  calls : (ids : List Text) → Turn
  result : (id : Text) → Turn
  malformed : Turn

abbrev pub text_of : Option JsonValue → Text
text_of (some (JsonValue.string text)) = text
text_of _ = []

abbrev pub id_of : JsonValue → Text
id_of (JsonValue.object call) = text_of (field (fields_of call) (lit "id"))
id_of _ = []

abbrev pub calls_of : Option JsonValue → Turn
calls_of none = Turn.reply
calls_of (some (JsonValue.array items)) = Turn.calls (map id_of (values items))
calls_of (some _) = Turn.malformed

unfoldable pub turn_in : Text → Fields → Turn
turn_in role fields =
    if text_eq role (lit "system") || text_eq role (lit "developer")
    then Turn.instruction
    else if text_eq role (lit "user")
    then Turn.user
    else if text_eq role (lit "assistant")
    then calls_of (field fields (lit "tool_calls"))
    else if text_eq role (lit "tool")
    then Turn.result (text_of (field fields (lit "tool_call_id")))
    else Turn.malformed

unfoldable pub turn_of : JsonValue → Turn
turn_of (JsonValue.object message) =
    turn_in (text_of (field (fields_of message) (lit "role"))) (fields_of message)
turn_of _ = Turn.malformed

-- What may follow a turn of the user's side: nothing; a reply and the user's next turn; or calls
-- and one result for each of them, in any order.
pub data UserSide : List Turn → Type 0 where
  stop : UserSide []
  replied : {rest : List Turn} → UserSide rest → UserSide (Turn.reply ∷ Turn.user ∷ rest)
  called :
      {turns : List Turn} (ids results : List Text) {rest : List Turn}
      → turns ≡ Turn.calls ids ∷ (map Turn.result results ++ rest)
      → ids ≢ []
      → Perm ids results
      → UserSide rest
      → UserSide turns

-- Instructions, a turn of the user, and what may follow it.
pub data Conversation : List Turn → Type 0 where
  instructed : {rest : List Turn} → Conversation rest → Conversation (Turn.instruction ∷ rest)
  asked : {rest : List Turn} → UserSide rest → Conversation (Turn.user ∷ rest)

abbrev pub ids_of : Turn → List Text
ids_of (Turn.calls ids) = ids
ids_of _ = []

-- The identifiers of all calls in order.
abbrev pub all_ids : List Turn → List Text
all_ids [] = []
all_ids (t ∷ ts) = ids_of t ++ all_ids ts

-- Each identifier is nonempty and differs from those before it and from those in use.
abbrev pub NewIds : List Text → List Text → Type 0
NewIds used [] = Unit
NewIds used (id ∷ ids) = Fresh id used × (id ≢ []) × NewIds (id ∷ used) ids
