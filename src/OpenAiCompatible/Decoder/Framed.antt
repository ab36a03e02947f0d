-- ===== src/OpenAiCompatible/Decoder/Framed.antt =====
-- How the decoder of src/openai_compatible.rs cuts the body into lines, whatever its fragments.
pub mod Yields
use nano_llm.Common.{
  ℕ, zero, suc, ◌+◌, ◌<◌, ◌≤◌, Text, Bool, true, false, ◌≡◌, ◌≢◌, refl, ap, sym, ◌∙◌, subst, ◌&&◌,
  Option, none, some, List, [], ◌∷◌, ◌++◌, length, length-append, leb, All, Bool-cases, inl, inr,
  leb-false→lt, if◌then◌else◌, is_empty, is_ok, Result, ok, err, arith,
}
use mathlib.Core.List.{append_assoc, append-nil}
use nano_llm.Common.Scan.{split_at_first}
use nano_llm.Common.Scan.Split.{split_at_first_lem, split_at_first-none}
use nano_llm.Config.{ProviderKind}
use nano_llm.Request.{CanonicalRequest}
use nano_llm.Response.{ResponseMetadata}
use nano_llm.Provider.{TargetErrorKind}
use nano_llm.Provider as Provider
use nano_llm.Provider.Transport.{TransportError, OutboundByteStream}
use nano_llm.OpenAiCompatible.Native.{Trouble, raised, bad, Native}
use nano_llm.OpenAiCompatible.Decoder.{
  Events, Decoder, new, Handled, Item, consume_line, after_line, take_line, at_end, next_event_from,
  next_event, Next, item, finished, pop, after_event, next_loop, bytes_left, next, max_input_bytes,
}
use nano_llm.OpenAiCompatible.Decoder.Limits.{consume_line-Limited}
use nano_llm.OpenAiCompatible.Decoder.Reference.{
  body, ending, last_items, followed, events_from, events_from-line, events_from-open,
}

abbrev pub text : Decoder → Text
text d = d.input ++ (body d.source).0

abbrev pub size : Decoder → ℕ
size d = length d.input + bytes_left d.source

-- What `next_event` reads: a line off the front of what is left, or the end.
pub data Event (bytes : Text) (broken : Bool) (left : ℕ) (s : Events) (over : Bool)
    : Native Bool × Decoder → Type 0 where
  lined :
      (line : Text) (d : Decoder)
      → All (λ b. b ≢ 10) line
      → bytes ≡ line ++ 10 ∷ text d
      → (body d.source).1 ≡ broken
      → size d < left
      → d.exhausted ≡ over
      → Event bytes broken left s over (after_line (consume_line line s) d)
  ended :
      (d : Decoder)
      → All (λ b. b ≢ 10) bytes
      → d.events ≡ s
      → (broken ≡ false → d.exhausted ≡ true)
      → Event bytes broken left s over (ending broken bytes s, d)

take_line-Event :
    (o : Option (Text × Text)) (source : OutboundByteStream) (d : Decoder)
    (otherwise : Native Bool × Decoder)
    → split_at_first 10 d.input ≡ o
    → (All (λ b. b ≢ 10) d.input
        → Event
            (d.input ++ (body source).0)
            (body source).1
            (length d.input + bytes_left source)
            d.events
            d.exhausted
            otherwise)
    → Event
        (d.input ++ (body source).0)
        (body source).1
        (length d.input + bytes_left source)
        d.events
        d.exhausted
        (take_line o source d otherwise)
unfolding take_line
take_line-Event none source d otherwise found h = h (split_at_first-none 10 d.input found)
take_line-Event (some (line, rest)) source d otherwise found h =
    let (parts, others) = split_at_first_lem 10 d.input line rest found in
    let sum = ap length parts ∙ length-append line (10 ∷ rest) in
    lined line (record d { source = source; input = rest }) others
      (ap (λ t. t ++ (body source).0) parts ∙ append_assoc line (10 ∷ rest) (body source).0) refl
      (omega (arith, sum)) refl

-- At the end of the fragments the input is all that is left.
last-Event :
    (broken : Bool) (n : ℕ) (d d' : Decoder) (r : Native Bool × Decoder)
    → All (λ b. b ≢ 10) d.input
    → d'.events ≡ d.events
    → (broken ≡ false → d'.exhausted ≡ true)
    → r ≡ (ending broken d.input d.events, d')
    → Event (d.input ++ []) broken n d.events d.exhausted r
last-Event broken n d d' r open_line same over e =
    subst (λ t. Event t broken n d.events d.exhausted r) (sym (append-nil d.input))
      (subst (λ q. Event d.input broken n d.events d.exhausted q) (sym e)
        (ended d' open_line same over))

fitting :
    (P : Native Bool × Decoder → Type 0) (t : Bool) (x y : Native Bool × Decoder)
    → t ≢ false
    → P x
    → P (if t then x else y)
fitting P true x y h p = p
fitting P false x y h p = absurd (h refl)

pub next_event_from-Event :
    (source : OutboundByteStream) (d : Decoder)
    → length d.input + length (body source).0 ≤ max_input_bytes
    → Event
        (d.input ++ (body source).0)
        (body source).1
        (length d.input + bytes_left source)
        d.events
        d.exhausted
        (next_event_from source d)
unfolding next_event_from bytes_left body ending
next_event_from-Event [] d fits =
    take_line-Event (split_at_first 10 d.input) [] d (at_end d) refl λ open_line.
      last-Event false (length d.input + 0) d (record d { source = []; exhausted = true })
        (at_end d) open_line refl (λ whole. refl) refl
next_event_from-Event (err e ∷ source) d fits =
    take_line-Event (split_at_first 10 d.input) (err e ∷ source) d _ refl λ open_line.
      last-Event true (length d.input + bytes_left source) d (record d { source = source }) _
        open_line refl (λ whole. cc whole) refl
next_event_from-Event (ok bytes ∷ source) d fits =
    let more = record d { input = d.input ++ bytes } in
    let sum = length-append d.input bytes in
    let sum' = length-append bytes (body source).0 in
    take_line-Event (split_at_first 10 d.input) (ok bytes ∷ source) d _ refl λ open_line.
      fitting
        (λ r.
          Event (d.input ++ (bytes ++ (body source).0)) (body source).1
            (length d.input + (length bytes + bytes_left source)) d.events d.exhausted r)
        (leb (length d.input + length bytes) max_input_bytes) _ _
        (λ p. absurd (omega (arith, leb-false→lt _ _ p, sum')))
        (subst
          (λ t.
            Event t (body source).1 (length d.input + (length bytes + bytes_left source)) d.events
              d.exhausted (next_event_from source more))
          (append_assoc d.input bytes (body source).0)
          (subst
            (λ n.
              Event ((d.input ++ bytes) ++ (body source).0) (body source).1 n d.events d.exhausted
                (next_event_from source more))
            (omega (arith, sum))
            (next_event_from-Event source (record d { input = d.input ++ bytes })
              (omega (arith, sum, sum')))))
