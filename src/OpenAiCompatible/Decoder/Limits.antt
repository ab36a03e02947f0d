-- ===== src/OpenAiCompatible/Decoder/Limits.antt =====
-- What one line may change in the decoder of src/openai_compatible.rs.
use nano_llm.Common.{
  suc, ◌+◌, ◌≤◌, Text, lit, text_eq, Bool, true, false, ◌≡◌, refl, ap, ◌∙◌, Option, none, some,
  List, [], ◌∷◌, length, length-append, leb→le, ◌==◌, if◌then◌else◌, is_empty, is_ok, Result, ok,
  err, arith,
}
use nano_llm.Common.Scan.{strip_prefix}
use nano_llm.Json.{JsonValue, Fields, field}
use nano_llm.Response.{ResponseError, Usage}
use nano_llm.Response.Stream.{ChatChunk, Outcome}
use nano_llm.Response.Stream.Push.{push, finish, usage_chunk}
use nano_llm.OpenAiCompatible.Native.{bad, Native, StreamChoice, parse_stream_choice}
use nano_llm.OpenAiCompatible.Decoder.{
  Events, Handled, queued, last_usage, concluded, usage_event, push_choice, with_choices,
  choices_of, dispatch_payload, dispatch, trim_return, trim_space, add_data, append_data, data_line,
  trimmed_line, consume_line, max_sse_event_bytes,
}

-- An error leaves the queue alone, at most one chunk joins it, and the data stays within its limit.
pub record Limited (s : Events) (r : Handled) : Type 0 where
  pub kept : is_ok r.0 ≡ false → r.1.pending ≡ s.pending
  pub one : length r.1.pending ≤ suc (length s.pending)
  pub within :
      length s.event_data ≤ max_sse_event_bytes → length r.1.event_data ≤ max_sse_event_bytes

Limited-if :
    {s : Events} (t : Bool) (x y : Handled)
    → Limited s x
    → (t ≡ false → Limited s y)
    → Limited s (if t then x else y)
Limited-if true x y h k = h
Limited-if false x y h k = k refl

still : {s : Events} {m : Native (Unit {0})} → Limited s (m, s)
still = record { kept = λ failed. refl; one = omega arith; within = λ h. h }

queued-Limited : (o : Outcome (Option ChatChunk)) (s : Events) → Limited s (queued o s)
unfolding queued
queued-Limited (err e, a) s = record { kept = λ f. refl; one = omega arith; within = λ h. h }
queued-Limited (ok none, a) s = record { kept = λ f. refl; one = omega arith; within = λ h. h }
queued-Limited (ok (some chunk), a) s = record {
  kept = λ f. absurd (cc f);
  one = omega (arith, length-append {0} s.pending (ok chunk ∷ []));
  within = λ h. h;
}

last_usage-Limited : (u : Option Usage) (s : Events) → Limited s (last_usage u s)
unfolding last_usage
last_usage-Limited none s = still
last_usage-Limited (some usage) s = queued-Limited (usage_chunk usage s.assembler) s

-- A step that starts from the same queue and the same data, or from no data.
from :
    {s t : Events} {r : Handled}
    → t.pending ≡ s.pending
    → length t.event_data ≤ length s.event_data
    → Limited t r
    → Limited s r
from {s} {t} {r} p q h = record {
  kept = λ f. h.kept f ∙ p;
  one = let e = ap length p in omega (arith, h.one);
  within = λ w. h.within (omega arith);
}

concluded-Limited : (r : Result ResponseError (Unit {0})) (s : Events) → Limited s (concluded r s)
unfolding concluded
concluded-Limited (err e) s = still
concluded-Limited (ok _) s =
    from {t = record s { done = true; usage = none }} refl (omega arith)
      (last_usage-Limited s.usage (record s { done = true; usage = none }))

push_choice-Limited : (c : Native StreamChoice) (s : Events) → Limited s (push_choice c s)
unfolding push_choice
push_choice-Limited (err e) s = still
push_choice-Limited (ok (index, delta, terminal)) s =
    queued-Limited (push index delta terminal s.assembler) s

usage_event-Limited : (v : Option JsonValue) (s : Events) → Limited s (usage_event v s)
unfolding usage_event
usage_event-Limited none s = still
usage_event-Limited (some value) s = record { kept = λ f. refl; one = omega arith; within = λ h. h }

with_choices-Limited :
    (c : Native (Fields × List JsonValue)) (s : Events) → Limited s (with_choices c s)
unfolding with_choices
with_choices-Limited (err e) s = still
with_choices-Limited (ok (fields, [])) s = usage_event-Limited (field fields (lit "usage")) s
with_choices-Limited (ok (fields, choice ∷ [])) s =
    push_choice-Limited (parse_stream_choice s.provider choice) s
with_choices-Limited (ok (fields, _ ∷ _ ∷ _)) s = still

dispatch_payload-Limited : (payload : Text) (s : Events) → Limited s (dispatch_payload payload s)
unfolding dispatch_payload
dispatch_payload-Limited payload s = Limited-if s.done _ _ still λ open_stream.
    Limited-if (text_eq payload (lit "[DONE]")) _ _ (concluded-Limited (finish s.assembler) s)
      λ event. with_choices-Limited (choices_of payload) s

dispatch-Limited : (s : Events) → Limited s (dispatch s)
unfolding dispatch
dispatch-Limited s = Limited-if (is_empty s.event_data) _ _ still λ some_data.
    from {t = record s { event_data = [] }} refl (omega arith)
      (dispatch_payload-Limited s.event_data (record s { event_data = [] }))

length-add_data :
    (old value : Text)
    → length (add_data old value) ≡ length old + (length value + (if is_empty old then 0 else 1))
unfolding add_data
length-add_data [] value = omega arith
length-add_data (b ∷ bs) value = omega (arith, length-append {0} bs (10 ∷ value))

appended-Limited :
    (t : Bool) (value : Text) (s : Events)
    → (t ≡ true → length (add_data s.event_data value) ≤ max_sse_event_bytes)
    → Limited s
        (if t then (ok tt, record s { event_data = add_data s.event_data value }) else (err bad, s))
appended-Limited true value s h = record {
  kept = λ f. refl;
  one = omega arith;
  within = λ old. h refl;
}
appended-Limited false value s h = still

append_data-Limited : (value : Text) (s : Events) → Limited s (append_data value s)
unfolding append_data
append_data-Limited value s =
    appended-Limited _ value s λ e. rw (length-add_data s.event_data value) (leb→le _ _ e)

data_line-Limited : (value : Option Text) (s : Events) → Limited s (data_line value s)
unfolding data_line
data_line-Limited none s = still
data_line-Limited (some value) s = append_data-Limited (trim_space value) s

trimmed_line-Limited : (line : Text) (s : Events) → Limited s (trimmed_line line s)
unfolding trimmed_line
trimmed_line-Limited [] s = dispatch-Limited s
trimmed_line-Limited (b ∷ line) s =
    Limited-if (b == b':') _ _ still
      λ field_line. data_line-Limited (strip_prefix (lit "data:") (b ∷ line)) s

pub consume_line-Limited : (line : Text) (s : Events) → Limited s (consume_line line s)
unfolding consume_line
consume_line-Limited line s = trimmed_line-Limited (trim_return line) s
