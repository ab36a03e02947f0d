-- ===== src/OpenAiCompatible/Decoder/Reference.antt =====
-- What the decoder of src/openai_compatible.rs has to give, said without buffers and without
-- fragments: the bytes of the body one by one.
use nano_llm.Common.{
  Text, Bool, true, false, ◌≡◌, ◌≢◌, ap, sym, ◌∙◌, none, ◌&&◌, List, [], ◌∷◌, ◌++◌, All, ==→eq,
  ◌==◌, inl, inr, Bool-cases, if◌then◌else◌, is_empty, ok, err,
}
use mathlib.Core.List.{append_assoc, append-nil}
use nano_llm.Provider.{TargetErrorKind}
use nano_llm.Provider as Provider
use nano_llm.Provider.Transport.{OutboundByteStream}
use nano_llm.OpenAiCompatible.Native.{raised, bad, Native}
use nano_llm.OpenAiCompatible.Decoder.{Events, Handled, Item, consume_line}

-- The bytes before the transport ends or fails, and whether it fails.
unfoldable pub body : OutboundByteStream → Text × Bool
body [] = ([], false)
body (err e ∷ source) = ([], true)
body (ok bytes ∷ source) = (bytes ++ (body source).0, (body source).1)

-- The end: whole only after the event that ends the stream, with nothing half read.
unfoldable pub ending : (broken : Bool) → Text → Events → Native Bool
ending true line s = err (raised (Provider.new TargetErrorKind.connection_error none))
ending false line s = if is_empty line && is_empty s.event_data && s.done then ok false else err bad

abbrev pub last_items : Native Bool → List Item
last_items (ok _) = []
last_items (err e) = err e ∷ []

-- What a line gives, and then the rest of the stream. An error is the last item.
unfoldable pub followed : Handled → (Events → List Item) → List Item
followed (err e, s) later = err e ∷ []
followed (ok _, s) later = s.pending ++ later (record s { pending = [] })

-- The items that the bytes give after `line`, the line as far as it is read.
unfoldable pub events_from : (broken : Bool) → Text → Text → Events → List Item
unfolding ending followed
events_from broken line [] s = last_items (ending broken line s)
events_from broken line (b ∷ bs) s =
    let later = events_from broken (line ++ b ∷ []) bs s in
    if b == 10 then followed (consume_line line s) (λ s'. events_from broken [] bs s') else later

pub events_from-line :
    (broken : Bool) (read line rest : Text) (s : Events)
    → All (λ b. b ≢ 10) line
    → events_from broken read (line ++ 10 ∷ rest) s
      ≡ followed (consume_line (read ++ line) s) (λ s'. events_from broken [] rest s')
unfolding events_from
events_from-line broken read [] rest s h =
    ap (λ t. followed (consume_line t s) (λ s'. events_from broken [] rest s'))
      (sym (append-nil read))
events_from-line broken read (b ∷ line) rest s h = elim (Bool-cases (b == 10)) [
  | inl e ↦ absurd (h.0 (==→eq b 10 e))
  | inr e ↦ rw e (
      events_from-line broken (read ++ b ∷ []) line rest s h.1
      ∙ ap (λ t. followed (consume_line t s) (λ s'. events_from broken [] rest s'))
          (append_assoc read (b ∷ []) line))
]

pub events_from-open :
    (broken : Bool) (read line : Text) (s : Events)
    → All (λ b. b ≢ 10) line
    → events_from broken read line s ≡ last_items (ending broken (read ++ line) s)
unfolding events_from
events_from-open broken read [] s h =
    ap (λ t. last_items (ending broken t s)) (sym (append-nil read))
events_from-open broken read (b ∷ line) s h = elim (Bool-cases (b == 10)) [
  | inl e ↦ absurd (h.0 (==→eq b 10 e))
  | inr e ↦ rw e (
      events_from-open broken (read ++ b ∷ []) line s h.1
      ∙ ap (λ t. last_items (ending broken t s)) (append_assoc read (b ∷ []) line))
]
