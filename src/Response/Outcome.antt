-- ===== src/Response/Outcome.antt =====
-- What the checks on an assistant's outcome (src/response.rs, normalize_terminal and
-- validate_outcome) mean, stated without their order.
use nano_llm.Common.{
  ℕ, ◌+◌, ◌<◌, Text, text_eq_iff, ◌≡◌, ◌≢◌, ◌↔◌, refl, false, Option, none, some, List, [], ◌∷◌,
  All, any, arith, ok,
}
use nano_llm.Request.{ToolChoice}
use nano_llm.Response.{
  FinishReason, ToolCall, Usage, u64_limit, valid_usage, normalize_usage, choice_allows, other_name,
  validate_outcome,
}

abbrev pub Calls : ToolCall → Text → Type 0
Calls call name = call.function.name ≡ name

-- What the request's tool choice asks of the calls.
abbrev pub Obeys : ToolChoice → List ToolCall → Type 0
Obeys ToolChoice.none calls = calls ≡ []
Obeys ToolChoice.auto calls = Unit
Obeys ToolChoice.required calls = calls ≢ []
Obeys (ToolChoice.named name) calls = (calls ≢ []) × All (λ c. Calls c name) calls

pub record IsCoherent (choice : ToolChoice) (content : Option Text) (calls : List ToolCall)
    (finish : FinishReason) : Type 0 where
  pub says_something : finish ≢ FinishReason.content_filter → calls ≡ [] → content ≢ none
  pub reason_if : calls ≢ [] → finish ≡ FinishReason.tool_calls
  pub reason_only_if : finish ≡ FinishReason.tool_calls → calls ≢ []
  pub obeys : finish ≢ FinishReason.content_filter → Obeys choice calls

names_only :
    (name : Text) (calls : List ToolCall)
    → any (other_name name) calls ≡ false
    → All (λ c. Calls c name) calls
unfolding other_name
names_only name [] h = tt
names_only name (c ∷ calls) h =
    (ground (arith, text_eq_iff c.function.name name), names_only name calls (ground arith))

names_only_back :
    (name : Text) (calls : List ToolCall)
    → All (λ c. Calls c name) calls
    → any (other_name name) calls ≡ false
unfolding other_name
names_only_back name [] h = refl
names_only_back name (c ∷ calls) h =
    ground (arith, text_eq_iff c.function.name name, names_only_back name calls h.1)

choice_allows-Obeys :
    (choice : ToolChoice) (calls : List ToolCall)
    → choice_allows choice calls ≡ ok tt
    → Obeys choice calls
unfolding choice_allows
choice_allows-Obeys ToolChoice.none calls h = ground arith
choice_allows-Obeys ToolChoice.auto calls h = tt
choice_allows-Obeys ToolChoice.required calls h = ground arith
choice_allows-Obeys (ToolChoice.named name) [] h = absurd (ground arith)
choice_allows-Obeys (ToolChoice.named name) (c ∷ cs) h =
    (λ e. cc, names_only name (c ∷ cs) (ground arith))

Obeys-choice_allows :
    (choice : ToolChoice) (calls : List ToolCall)
    → Obeys choice calls
    → choice_allows choice calls ≡ ok tt
unfolding choice_allows
Obeys-choice_allows ToolChoice.none calls h = ground arith
Obeys-choice_allows ToolChoice.auto calls h = refl
Obeys-choice_allows ToolChoice.required calls h = ground arith
Obeys-choice_allows (ToolChoice.named name) [] h = absurd (h.0 refl)
Obeys-choice_allows (ToolChoice.named name) (c ∷ cs) h = rw (names_only_back name (c ∷ cs) h.1)

choice_checked :
    (choice : ToolChoice) (content : Option Text) (calls : List ToolCall) (finish : FinishReason)
    → validate_outcome choice content calls finish ≡ ok tt
    → finish ≢ FinishReason.content_filter
    → choice_allows choice calls ≡ ok tt
unfolding validate_outcome
choice_checked choice content calls finish h ne = ground arith

validate_outcome-IsCoherent :
    (choice : ToolChoice) (content : Option Text) (calls : List ToolCall) (finish : FinishReason)
    → validate_outcome choice content calls finish ≡ ok tt
    → IsCoherent choice content calls finish
unfolding validate_outcome
validate_outcome-IsCoherent choice content calls finish h = record {
  says_something = ground arith;
  reason_if = ground arith;
  reason_only_if = ground arith;
  obeys = λ ne. choice_allows-Obeys choice calls (choice_checked choice content calls finish h ne);
}

IsCoherent-validate_outcome :
    (choice : ToolChoice) (content : Option Text) (calls : List ToolCall) (finish : FinishReason)
    → IsCoherent choice content calls finish
    → validate_outcome choice content calls finish ≡ ok tt
unfolding validate_outcome
IsCoherent-validate_outcome choice content calls finish h = ground (
  arith,
  λ (ne : finish ≢ FinishReason.content_filter). Obeys-choice_allows choice calls (h.obeys ne),
  h.says_something,
  h.reason_if,
  h.reason_only_if,
)

-- `validate_outcome` passes exactly the coherent outcomes: unless it is filtered, an answer has
-- content or calls and does what the tool choice asks; it ends for tool calls exactly if it has
-- some.
pub validate_outcome_iff :
    (choice : ToolChoice) (content : Option Text) (calls : List ToolCall) (finish : FinishReason)
    → (validate_outcome choice content calls finish ≡ ok tt)
      ↔ IsCoherent choice content calls finish
validate_outcome_iff choice content calls finish = (
  validate_outcome-IsCoherent choice content calls finish,
  IsCoherent-validate_outcome choice content calls finish,
)

-- Counts that fit u64 and add up.
pub record AddsUp (usage : Usage) : Type 0 where
  pub total : usage.total_tokens ≡ usage.prompt_tokens + usage.completion_tokens
  pub fits : usage.total_tokens < u64_limit

pub valid_usage-AddsUp : (usage u : Usage) → valid_usage usage ≡ some u → AddsUp u
unfolding valid_usage
valid_usage-AddsUp usage u h = record { total = ground arith; fits = ground arith }

pub AddsUp-valid_usage : (usage : Usage) → AddsUp usage → valid_usage usage ≡ some usage
unfolding valid_usage
AddsUp-valid_usage usage h = ground arith

-- `normalize_usage` gives the two counts and their sum when all three fit u64, and no usage when
-- one is missing or too large.
pub normalize_usage_iff :
    (prompt completion : Option ℕ) (u : Usage)
    → (normalize_usage prompt completion ≡ some u)
      ↔ ((prompt ≡ some u.prompt_tokens) × (completion ≡ some u.completion_tokens) × AddsUp u)
unfolding normalize_usage
normalize_usage_iff (some p) (some c) u = (
  λ h. (ground arith, ground arith, record { total = ground arith; fits = ground arith }),
  λ h. ground arith,
)
normalize_usage_iff none c u = (λ h. cc, λ h. cc)
normalize_usage_iff (some p) none u = (λ h. absurd (ground arith), λ h. cc)
