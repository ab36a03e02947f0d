-- ===== src/Response/Buffered/Canonical.antt =====
-- What a buffered answer (src/response.rs, build_response) guarantees whenever it succeeds.
use nano_llm.Common.{
  ℕ, ◌+◌, ◌<◌, Text, lit, contains, Fresh, Distinct, ◌≡◌, refl, sym, subst, ap, true, not, Option,
  none, some, List, [], ◌∷◌, map, length, All, arith, if◌then◌else◌, is_empty, Bool-cases,
  Option-cases, inl, inr, Result, ok, err, ◌>>=◌, >>=-eq-ok, ok_injective,
}
use nano_llm.Request.{CanonicalRequest}
use nano_llm.Response.{
  u64_limit, ResponseError, FinishReason, NativeTerminal, Usage, ResponseMetadata, FunctionCall,
  ToolCall, NativeToolCall, ChatChoice, ChatResponse, declared_tools, normalize_terminal,
  validate_outcome, valid_usage,
}
use nano_llm.Response.Ids.{Ids, claim_id}
use nano_llm.Response.Ids.Fresh.{claim_id-Fresh}
use nano_llm.Response.Outcome.{AddsUp, IsCoherent, valid_usage-AddsUp, validate_outcome_iff}
use nano_llm.Response.Buffered.{canonical_call, answer, normalize_calls, respond, build_response}

abbrev pub id_of : ToolCall → Text
id_of call = call.id

abbrev pub native_function : NativeToolCall → FunctionCall
native_function call = record { name = call.name; arguments = call.arguments }

abbrev pub function_of : ToolCall → FunctionCall
function_of call = call.function

abbrev pub IsDeclared : List Text → ToolCall → Type 0
IsDeclared declared call = contains declared call.function.name ≡ true

-- The calls made from the native ones, with identifiers that are new and distinct.
abbrev Made :
    List Text → List NativeToolCall → List Text → Result ResponseError (List ToolCall) → Type 0
Made declared native used (err e) = Unit
Made declared native used (ok calls) =
    All (λ id. Fresh id used) (map id_of calls)
    × Distinct (map id_of calls)
    × All (IsDeclared declared) calls
    × (map function_of calls ≡ map native_function native)

-- Identifiers that are new beside `id` differ from it.
split-Fresh :
    (id : Text) (used ids : List Text)
    → All (λ i. Fresh i (id ∷ used)) ids
    → Fresh id ids × All (λ i. Fresh i used) ids
split-Fresh id used [] h = (tt, tt)
split-Fresh id used (i ∷ ids) ((ne, fresh), h) =
    let (f, g) = split-Fresh id used ids h in ((λ e. ne (sym e), f), (fresh, g))

Made-cons :
    (declared : List Text) (call : NativeToolCall) (native : List NativeToolCall) (id : Text)
    (used : List Text) (rest : Result ResponseError (List ToolCall))
    → contains declared call.name ≡ true
    → Fresh id used
    → Made declared native (id ∷ used) rest
    → Made declared (call ∷ native) used (rest >>= λ calls. ok (canonical_call id call ∷ calls))
unfolding canonical_call
Made-cons declared call native id used (err e) k f h = tt
Made-cons declared call native id used (ok calls) k f (fresh, distinct, known, same) =
    let (f', rest) = split-Fresh id used (map id_of calls) fresh in
    ((f, rest), (f', distinct), (k, known), ap (λ fs. native_function call ∷ fs) same)

normalize_calls-Made :
    (declared : List Text) (native : List NativeToolCall) (ids : Ids)
    → length ids.used + length native < u64_limit
    → Made declared native ids.used (normalize_calls declared native ids).0
unfolding normalize_calls
normalize_calls-Made declared [] ids h = (tt, tt, tt, refl)
normalize_calls-Made declared (call ∷ native) ids h =
    elim (Bool-cases (contains declared call.name)) [
      | inl e ↦
          let (fresh, grown, _) = claim_id-Fresh call.id ids (omega arith) in
          let rest = (normalize_calls declared native (claim_id call.id ids).2).0 in
          let made : Made declared native ((claim_id call.id ids).0 ∷ ids.used) rest =
            subst (λ used. Made declared native used rest) grown
              (normalize_calls-Made declared native (claim_id call.id ids).2
                (omega (arith, ap (length {A = Text}) grown))) in
          rw e (Made-cons declared call native (claim_id call.id ids).0 ids.used rest e fresh made)
      | inr e ↦ rw e tt
    ]

abbrev pub UsageAddsUp : Option Usage → Type 0
UsageAddsUp none = Unit
UsageAddsUp (some usage) = AddsUp usage

abbrev pub listed : Option (List ToolCall) → List ToolCall
listed none = []
listed (some calls) = calls

-- A canonical answer to the request, made of the native calls.
pub record IsCanonical (request : CanonicalRequest) (metadata : ResponseMetadata)
    (content : Option Text) (native : List NativeToolCall) (r : ChatResponse) : Type 0 where
  pub choice : ChatChoice
  pub single : r.choices ≡ choice ∷ []
  pub index : choice.index ≡ 0
  pub model : r.model ≡ request.model
  pub id : r.id ≡ metadata.id
  pub same_content : choice.message.content ≡ content
  pub same_calls : map function_of (listed choice.message.tool_calls) ≡ map native_function native
  pub distinct : Distinct (map id_of (listed choice.message.tool_calls))
  pub declared : All (IsDeclared (declared_tools request)) (listed choice.message.tool_calls)
  pub coherent :
      IsCoherent request.tool_choice content (listed choice.message.tool_calls) choice.finish_reason
  pub usage : UsageAddsUp r.usage

checked_usage-AddsUp :
    (usage : Option Usage)
    → UsageAddsUp (elim usage [ none ↦ none | some counts ↦ valid_usage counts ])
checked_usage-AddsUp none = tt
checked_usage-AddsUp (some counts) = elim (Option-cases (valid_usage counts)) [
  | inl e ↦ rw e tt
  | inr (u, e) ↦ rw e (valid_usage-AddsUp counts u e)
]

listed-calls :
    (calls : List ToolCall) → listed (if is_empty calls then none else some calls) ≡ calls
listed-calls [] = refl
listed-calls (c ∷ calls) = refl

answer-IsCanonical :
    (request : CanonicalRequest) (metadata : ResponseMetadata) (content : Option Text)
    (native : List NativeToolCall) (calls : List ToolCall) (finish : FinishReason)
    (usage : Option Usage)
    → Made (declared_tools request) native [] (ok calls)
    → validate_outcome request.tool_choice content calls finish ≡ ok tt
    → IsCanonical request metadata content native
        (answer request metadata content calls finish usage)
unfolding answer
answer-IsCanonical request metadata content native calls finish usage made valid =
    let list : ChatChoice → List ToolCall = λ c. listed c.message.tool_calls in
    let same = sym (listed-calls calls) in
    record {
      choice = record {
        index = 0;
        message = record {
          role = lit "assistant";
          content = content;
          tool_calls = if is_empty calls then none else some calls;
        };
        finish_reason = finish;
      };
      single = refl;
      index = refl;
      model = refl;
      id = refl;
      same_content = refl;
      same_calls = subst (λ l. map function_of l ≡ map native_function native) same made.3;
      distinct = subst (λ l. Distinct (map id_of l)) same made.1;
      declared = subst (λ l. All (IsDeclared (declared_tools request)) l) same made.2;
      coherent =
          subst (λ l. IsCoherent request.tool_choice content l finish) same
            ((validate_outcome_iff request.tool_choice content calls finish).0 valid);
      usage = checked_usage-AddsUp usage;
    }

respond-IsCanonical :
    (request : CanonicalRequest) (metadata : ResponseMetadata) (content : Option Text)
    (native : List NativeToolCall) (calls : List ToolCall) (terminal : NativeTerminal)
    (usage : Option Usage) (r : ChatResponse)
    → Made (declared_tools request) native [] (ok calls)
    → respond request metadata content calls terminal usage ≡ ok r
    → IsCanonical request metadata content native r
unfolding respond
respond-IsCanonical request metadata content native calls terminal usage r made h =
    let (finish, _, h') =
      >>=-eq-ok (normalize_terminal terminal content (not (is_empty calls))) _ h in
    let (_, valid, h'') =
      >>=-eq-ok (validate_outcome request.tool_choice content calls finish) _ h' in
    subst (IsCanonical request metadata content native) (ok_injective h'')
      (answer-IsCanonical request metadata content native calls finish usage made valid)

-- Whenever `build_response` succeeds, on fewer than 2^64 native calls, the answer has the one
-- choice of index 0, the requested model and the native content and calls in order; the calls have
-- distinct identifiers and declared names; the outcome is coherent with the request's tool choice;
-- and the usage, if any, adds up.
pub build_response-IsCanonical :
    (request : CanonicalRequest) (metadata : ResponseMetadata) (content : Option Text)
    (native : List NativeToolCall) (terminal : NativeTerminal) (usage : Option Usage) (next_id : ℕ)
    (r : ChatResponse)
    → length native < u64_limit
    → build_response request metadata content native terminal usage next_id ≡ ok r
    → IsCanonical request metadata content native r
unfolding build_response
build_response-IsCanonical request metadata content native terminal usage next_id r few h =
    let start : Ids = record { used = []; next = next_id } in
    let (calls, made, h') =
      >>=-eq-ok (normalize_calls (declared_tools request) native start).0 _ h in
    respond-IsCanonical request metadata content native calls terminal usage r
      (subst (Made (declared_tools request) native []) made
        (normalize_calls-Made (declared_tools request) native start (omega arith)))
      h'
