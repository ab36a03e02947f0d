-- ===== src/OpenAiCompatible/Decoder/Framed/Yields.antt =====
-- The items that the decoder of src/openai_compatible.rs gives, against those of the reference.
use nano_llm.Common.{
  ℕ, zero, suc, ◌<◌, ◌≤◌, Text, Bool, true, false, ◌≡◌, ◌≢◌, refl, ap, sym, ◌∙◌, subst, List, [],
  ◌∷◌, ◌++◌, length, length-append, if◌then◌else◌, is_ok, ok, err, arith,
}
use nano_llm.Config.{ProviderKind}
use nano_llm.Request.{CanonicalRequest}
use nano_llm.Response.{ResponseMetadata}
use nano_llm.Provider.Transport.{OutboundByteStream}
use nano_llm.OpenAiCompatible.Native.{Trouble, Native}
use nano_llm.OpenAiCompatible.Decoder.{
  Events, Decoder, new, Handled, Item, consume_line, after_line, next_event_from, next_event, Next,
  item, finished, pop, after_event, next_loop, next, max_input_bytes,
}
use nano_llm.OpenAiCompatible.Decoder.Limits.{consume_line-Limited}
use nano_llm.OpenAiCompatible.Decoder.Reference.{
  body, ending, last_items, followed, events_from, events_from-line, events_from-open,
}
use nano_llm.OpenAiCompatible.Decoder.Framed.{
  text, size, Event, lined, ended, next_event_from-Event,
}

-- The calls of `next` from here on give these items and then no more, however often it is called.
pub data Yields : Next × Decoder → List Item → Type 0 where
  stopped : (d : Decoder) → next d ≡ (finished, d) → Yields (finished, d) []
  more :
      (x : Item) (d : Decoder) (items : List Item)
      → Yields (next d) items
      → Yields (item x, d) (x ∷ items)

abbrev waiting : List Item → Decoder → Decoder
waiting ps d = record d { events = record d.events { pending = ps } }

-- What waits comes first.
popped-Yields :
    (ps items : List Item) (d : Decoder)
    → Yields (next (waiting [] d)) items
    → Yields (next (waiting ps d)) (ps ++ items)
unfolding next pop
popped-Yields [] items d h = h
popped-Yields (p ∷ ps) items d h = more p (waiting ps d) (ps ++ items) (popped-Yields ps items d h)

pop-Yields :
    (ps items : List Item) (d : Decoder) (otherwise : Next × Decoder)
    → (ps ≡ [] → Yields otherwise items)
    → Yields (next (waiting [] d)) items
    → Yields (pop ps d otherwise) (ps ++ items)
unfolding pop
pop-Yields [] items d otherwise k h = k refl
pop-Yields (p ∷ ps) items d otherwise k h =
    more p (waiting ps d) (ps ++ items) (popped-Yields ps items d h)

pop-empty : (ps : List Item) (d : Decoder) (y : Next × Decoder) → ps ≡ [] → pop ps d y ≡ y
unfolding pop
pop-empty ps d y p = rw p refl

chosen : (t b : Bool) (x y : Next × Decoder) → t ≡ b → (if t then x else y) ≡ (if b then x else y)
chosen t b x y q = rw q refl

next-idle :
    (d : Decoder)
    → d.events.pending ≡ []
    → d.exhausted ≡ false
    → next d ≡ next_loop (suc (size d)) d
unfolding next
next-idle d p q = pop-empty d.events.pending d _ p ∙ chosen d.exhausted false _ _ q

next-over : (d : Decoder) → d.events.pending ≡ [] → d.exhausted ≡ true → next d ≡ (finished, d)
unfolding next
next-over d p q = pop-empty d.events.pending d _ p ∙ chosen d.exhausted true _ _ q

-- An error is the last item.
error-Yields :
    (e : Trouble) (d : Decoder)
    → d.events.pending ≡ []
    → d.exhausted ≡ true
    → Yields (item (err e), d) (err e ∷ [])
error-Yields e d p q =
    more (err e) d []
      (subst (λ r. Yields r []) (sym (next-over d p q)) (stopped d (next-over d p q)))

-- The loop of `next` gives what the reference gives, for a decoder with that little left.
abbrev Loops : ℕ → Type 0
Loops n =
    (fuel : ℕ) (d : Decoder)
    → d.events.pending ≡ []
    → d.exhausted ≡ false
    → length (text d) ≤ max_input_bytes
    → size d < n
    → size d < fuel
    → Yields (next_loop fuel d) (events_from (body d.source).1 [] (text d) d.events)

next-Yields :
    (n : ℕ) (d : Decoder)
    → Loops n
    → d.events.pending ≡ []
    → d.exhausted ≡ false
    → length (text d) ≤ max_input_bytes
    → size d < n
    → Yields (next d) (events_from (body d.source).1 [] (text d) d.events)
next-Yields n d loops p q fits less =
    subst (λ r. Yields r (events_from (body d.source).1 [] (text d) d.events))
      (sym (next-idle d p q)) (loops (suc (size d)) d p q fits less (omega arith))

-- A line gives its items and leaves less.
line-Yields :
    (n fuel : ℕ) (h : Handled) (d : Decoder)
    → Loops n
    → (is_ok h.0 ≡ false → h.1.pending ≡ [])
    → d.exhausted ≡ false
    → length (text d) ≤ max_input_bytes
    → size d < n
    → size d < fuel
    → Yields
        (after_event (after_line h d) (λ d'. next_loop fuel d'))
        (followed h (λ s. events_from (body d.source).1 [] (text d) s))
unfolding after_event after_line followed
line-Yields n fuel (err e, s) d loops kept q fits less less' =
    error-Yields e (record d { events = s; exhausted = true }) (kept refl) refl
line-Yields n fuel (ok _, s) d loops kept q fits less less' =
    pop-Yields s.pending _ (record d { events = s }) _
      (λ p.
        subst
          (λ t.
            Yields (next_loop fuel (record d { events = s }))
              (events_from (body d.source).1 [] (text d) t))
          (λ i. record s { pending = p i })
          (loops fuel (record d { events = s }) p q fits less less'))
      (next-Yields n (waiting [] (record d { events = s })) loops refl q fits less)

ending-Yields :
    (r : Native Bool) (d : Decoder) (again : Decoder → Next × Decoder)
    → d.events.pending ≡ []
    → r ≢ ok true
    → (r ≡ ok false → d.exhausted ≡ true)
    → Yields (after_event (r, d) again) (last_items r)
unfolding after_event
ending-Yields (err e) d again p unended over = error-Yields e (record d { exhausted = true }) p refl
ending-Yields (ok true) d again p unended over = absurd (unended refl)
ending-Yields (ok false) d again p unended over =
    subst (λ r. Yields r []) (sym (pop-empty d.events.pending d (finished, d) p))
      (stopped d (next-over d p (over refl)))

ending-stops : (broken : Bool) (line : Text) (s : Events) → ending broken line s ≢ ok true
unfolding ending
ending-stops true line s h = cc h
ending-stops false line s h = ground arith

ending-whole :
    (broken : Bool) (line : Text) (s : Events) → ending broken line s ≡ ok false → broken ≡ false
unfolding ending
ending-whole true line s h = cc h
ending-whole false line s h = refl

event-Yields :
    (n fuel : ℕ) (bytes : Text) (broken : Bool) (left : ℕ) (s : Events) (r : Native Bool × Decoder)
    → Event bytes broken left s false r
    → Loops n
    → s.pending ≡ []
    → length bytes ≤ max_input_bytes
    → left < suc n
    → left < suc fuel
    → Yields (after_event r (λ d'. next_loop fuel d')) (events_from broken [] bytes s)
event-Yields n fuel bytes broken left s r (lined line d others parts same less q) loops p fits m
      m' =
    let sum = ap length parts ∙ length-append line (10 ∷ text d) in
    subst
      (λ t. Yields (after_event (after_line (consume_line line s) d) (λ d'. next_loop fuel d')) t)
      (sym (
        ap (λ t. events_from broken [] t s) parts
        ∙ events_from-line broken [] line (text d) s others))
      (subst
        (λ b.
          Yields (after_event (after_line (consume_line line s) d) (λ d'. next_loop fuel d'))
            (followed (consume_line line s) (λ s'. events_from b [] (text d) s')))
        same
        (line-Yields n fuel (consume_line line s) d loops
          (λ failed. (consume_line-Limited line s).kept failed ∙ p) q (omega (arith, sum))
          (omega arith) (omega arith)))
event-Yields n fuel bytes broken left s r (ended d others same over) loops p fits m m' =
    subst (λ t. Yields (after_event (ending broken bytes s, d) (λ d'. next_loop fuel d')) t)
      (sym (events_from-open broken [] bytes s others))
      (ending-Yields (ending broken bytes s) d (λ d'. next_loop fuel d')
        (ap (λ e. e.pending) same ∙ p) (ending-stops broken bytes s)
        (λ e. over (ending-whole broken bytes s e)))

loop-Yields : (n : ℕ) → Loops n
unfolding next_loop next_event
loop-Yields zero fuel d p q fits m m' = absurd (omega arith)
loop-Yields (suc n) zero d p q fits m m' = absurd (omega arith)
loop-Yields (suc n) (suc fuel) d p q fits m m' =
    event-Yields n fuel (text d) (body d.source).1 (size d) d.events (next_event_from d.source d)
      (subst
        (λ x. Event (text d) (body d.source).1 (size d) d.events x (next_event_from d.source d)) q
        (next_event_from-Event d.source d
          (let sum = length-append d.input (body d.source).0 in omega (arith, sum))))
      (λ fuel' d'. loop-Yields n fuel' d') p fits m m'

-- For a body of at most 1 MiB and 64 KiB, however the transport cuts it into fragments and wherever
-- it fails, the calls of `next` on a new decoder give exactly the items that the reference gives for
-- the bytes of the body, one by one: every line is handled once, in order, and an error is the last
-- item, as is a panic of the JSON parser on an event, which stands for the item of the call that it
-- ends. After the last item no call gives another.
pub new-Yields :
    (request : CanonicalRequest) (metadata : ResponseMetadata) (provider : ProviderKind)
    (source : OutboundByteStream) (next_id : ℕ)
    → length (body source).0 ≤ max_input_bytes
    → let fresh = new request metadata provider source next_id in
      Yields (next fresh) (events_from (body source).1 [] (body source).0 fresh.events)
unfolding new
new-Yields request metadata provider source next_id fits =
    let fresh = new request metadata provider source next_id in
    next-Yields (suc (size fresh)) fresh (loop-Yields (suc (size fresh))) refl refl fits
      (omega arith)
