-- ===== src/OpenAiCompatible/Decoder/Bounded.antt =====
-- What the decoder of src/openai_compatible.rs holds on to, and how long `next` runs.
use nano_llm.Common.{
  ℕ, zero, suc, ◌+◌, ◌<◌, ◌≤◌, Text, Bool, true, false, ◌≡◌, ◌≢◌, refl, sym, ap, ◌∙◌, subst, Option,
  none, some, List, [], ◌∷◌, ◌++◌, length, length-append, leb, leb→le, if◌then◌else◌, ok, err,
  arith,
}
use nano_llm.Common.Scan.{split_at_first}
use nano_llm.Common.Scan.Split.{split_at_first_lem}
use nano_llm.Config.{ProviderKind}
use nano_llm.Request.{CanonicalRequest}
use nano_llm.Response.{ResponseMetadata}
use nano_llm.Provider.{TargetErrorKind}
use nano_llm.Provider as Provider
use nano_llm.Provider.Transport.{OutboundByteStream}
use nano_llm.OpenAiCompatible.Native.{Trouble, raised, bad, Native}
use nano_llm.OpenAiCompatible.Decoder.{
  Events, Decoder, new, Handled, Item, consume_line, after_line, take_line, at_end, next_event_from,
  next_event, Next, finished, out_of_fuel, pop, after_event, next_loop, bytes_left, next,
  max_sse_event_bytes, max_input_bytes,
}
use nano_llm.OpenAiCompatible.Decoder.Limits.{Limited, consume_line-Limited}

-- The input and the event in progress stay within their limits, and at most `waiting` chunks wait.
pub record IsBounded (waiting : ℕ) (d : Decoder) : Type 0 where
  pub input : length d.input ≤ max_input_bytes
  pub event : length d.events.event_data ≤ max_sse_event_bytes
  pub queue : length d.events.pending ≤ waiting

abbrev pub size : Decoder → ℕ
size d = length d.input + bytes_left d.source

-- How an event leaves the decoder; after a line, less is left.
pub data Stepped (n : ℕ) : Native Bool × Decoder → Type 0 where
  failed : (e : Trouble) (d : Decoder) → IsBounded 0 d → Stepped n (err e, d)
  ended : (d : Decoder) → IsBounded 0 d → Stepped n (ok false, d)
  stepped : (d : Decoder) → IsBounded 1 d → size d < n → Stepped n (ok true, d)

after_line-Stepped :
    (n : ℕ) (h : Handled) (s : Events) (d : Decoder)
    → Limited s h
    → length s.event_data ≤ max_sse_event_bytes
    → length s.pending ≤ 0
    → length d.input ≤ max_input_bytes
    → size d < n
    → Stepped n (after_line h d)
unfolding after_line
after_line-Stepped n (ok _, t) s d l e q i less =
    stepped (record d { events = t })
      (record { input = i; event = l.within e; queue = omega (arith, l.one) }) less
after_line-Stepped n (err x, t) s d l e q i less =
    failed x (record d { events = t })
      (record { input = i; event = l.within e; queue = rw (l.kept refl) q })

take_line-Stepped :
    (o : Option (Text × Text)) (source : OutboundByteStream) (d : Decoder)
    (otherwise : Native Bool × Decoder)
    → split_at_first 10 d.input ≡ o
    → IsBounded 0 d
    → Stepped (length d.input + bytes_left source) otherwise
    → Stepped (length d.input + bytes_left source) (take_line o source d otherwise)
unfolding take_line
take_line-Stepped none source d otherwise found b h = h
take_line-Stepped (some (line, rest)) source d otherwise found b h =
    let parts = (split_at_first_lem 10 d.input line rest found).0 in
    let sum = ap length parts ∙ length-append line (10 ∷ rest) in
    after_line-Stepped (length d.input + bytes_left source) (consume_line line d.events) d.events
      (record d { source = source; input = rest }) (consume_line-Limited line d.events) b.event
      b.queue (omega (arith, sum, b.input)) (omega (arith, sum))

at_end-Stepped :
    (n : ℕ) (t : Bool) (d : Decoder)
    → IsBounded 0 d
    → Stepped n (if t then ok false else err bad, d)
at_end-Stepped n true d b = ended d b
at_end-Stepped n false d b = failed bad d b

pulled-Stepped :
    (n : ℕ) (t : Bool) (x y : Native Bool × Decoder)
    → (t ≡ true → Stepped n x)
    → Stepped n y
    → Stepped n (if t then x else y)
pulled-Stepped n true x y h k = h refl
pulled-Stepped n false x y h k = k

next_event_from-Stepped :
    (source : OutboundByteStream) (d : Decoder)
    → IsBounded 0 d
    → Stepped (length d.input + bytes_left source) (next_event_from source d)
unfolding next_event_from at_end bytes_left
next_event_from-Stepped [] d b =
    take_line-Stepped (split_at_first 10 d.input) [] d (at_end d) refl b (
      at_end-Stepped _ _ (record d { source = []; exhausted = true })
        (record { input = b.input; event = b.event; queue = b.queue }))
next_event_from-Stepped (err e ∷ source) d b =
    take_line-Stepped (split_at_first 10 d.input) (err e ∷ source) d _ refl b (
      failed (raised (Provider.new TargetErrorKind.connection_error none))
        (record d { source = source })
        (record { input = b.input; event = b.event; queue = b.queue }))
next_event_from-Stepped (ok bytes ∷ source) d b =
    take_line-Stepped (split_at_first 10 d.input) (ok bytes ∷ source) d _ refl b (
      pulled-Stepped _ (leb (length d.input + length bytes) max_input_bytes) _ _
        (λ fits.
          let sum = length-append d.input bytes in
          subst (λ n. Stepped n (next_event_from source (record d { input = d.input ++ bytes })))
            (omega (arith, sum))
            (next_event_from-Stepped source (record d { input = d.input ++ bytes })
              (record {
                input = omega (arith, sum, leb→le _ _ fits);
                event = b.event;
                queue = b.queue;
              })))
        (failed bad (record d { source = source })
          (record { input = b.input; event = b.event; queue = b.queue })))

-- What one call of `next` gives and leaves.
pub record Answered (r : Next × Decoder) : Type 0 where
  pub within_fuel : r.0 ≢ out_of_fuel
  pub bounded : IsBounded 1 r.1

pop-Answered :
    (ps : List Item) (d : Decoder) (otherwise : Next × Decoder)
    → ps ≡ d.events.pending
    → IsBounded 1 d
    → (ps ≡ [] → Answered otherwise)
    → Answered (pop ps d otherwise)
unfolding pop
pop-Answered [] d otherwise e b h = h refl
pop-Answered (first ∷ later) d otherwise e b h = record {
  within_fuel = λ p. cc p;
  bounded = record {
    input = b.input;
    event = b.event;
    queue = let n = ap length e in omega (arith, b.queue);
  };
}

wider : {d : Decoder} → IsBounded 0 d → IsBounded 1 d
wider b = record { input = b.input; event = b.event; queue = omega (arith, b.queue) }

emptied : {d : Decoder} → [] ≡ d.events.pending → IsBounded 1 d → IsBounded 0 d
emptied {d} e b = record {
  input = b.input;
  event = b.event;
  queue = let n = ap length e in omega arith;
}

after_event-Answered :
    {n : ℕ} (r : Native Bool × Decoder) (again : Decoder → Next × Decoder)
    → Stepped n r
    → ((d : Decoder) → IsBounded 0 d → size d < n → Answered (again d))
    → Answered (after_event r again)
unfolding after_event
after_event-Answered r again (failed e d b) k = record {
  within_fuel = λ p. cc p;
  bounded = record { input = b.input; event = b.event; queue = omega (arith, b.queue) };
}
after_event-Answered r again (ended d b) k =
    pop-Answered d.events.pending d (finished, d) refl (wider b)
      λ p. record { within_fuel = λ q. cc q; bounded = wider b }
after_event-Answered r again (stepped d b less) k =
    pop-Answered d.events.pending d (again d) refl b λ p. k d (emptied (sym p) b) less

next_loop-Answered :
    (fuel : ℕ) (d : Decoder) → IsBounded 0 d → size d < fuel → Answered (next_loop fuel d)
unfolding next_loop next_event
next_loop-Answered zero d b less = absurd (omega arith)
next_loop-Answered (suc fuel) d b less =
    after_event-Answered (next_event_from d.source d) (λ d'. next_loop fuel d')
      (next_event_from-Stepped d.source d b)
      λ d' b' less'. next_loop-Answered fuel d' b' (omega arith)

if-Answered :
    (t : Bool) (x y : Next × Decoder) → Answered x → Answered y → Answered (if t then x else y)
if-Answered true x y h k = h
if-Answered false x y h k = k

next-Answered : (d : Decoder) → IsBounded 1 d → Answered (next d)
unfolding next
next-Answered d b = pop-Answered d.events.pending d _ refl b λ p.
    if-Answered d.exhausted _ _ (record { within_fuel = λ q. cc q; bounded = b })
      (next_loop-Answered (suc (size d)) d (emptied (sym p) b) (omega arith))

-- The decoder after that many calls of `next`.
unfoldable pub after : ℕ → Decoder → Decoder
after zero d = d
after (suc calls) d = (next (after calls d)).1

after-IsBounded : (calls : ℕ) (d : Decoder) → IsBounded 1 d → IsBounded 1 (after calls d)
unfolding after
after-IsBounded zero d b = b
after-IsBounded (suc calls) d b =
    (next-Answered (after calls d) (after-IsBounded calls d b)).bounded

-- Whatever the upstream sends and however often `next` was called on a new decoder, the next call
-- ends within its fuel, with an item, the end, or a panic of the JSON parser on an event, and leaves
-- at most 1 MiB and 64 KiB of input, an event in progress of at most 1 MiB and at most one chunk
-- waiting.
pub next-after-Answered :
    (request : CanonicalRequest) (metadata : ResponseMetadata) (provider : ProviderKind)
    (source : OutboundByteStream) (next_id calls : ℕ)
    → Answered (next (after calls (new request metadata provider source next_id)))
unfolding new
next-after-Answered request metadata provider source next_id calls =
    next-Answered (after calls (new request metadata provider source next_id)) (
      after-IsBounded calls (new request metadata provider source next_id)
        (record { input = omega arith; event = omega arith; queue = omega arith }))
