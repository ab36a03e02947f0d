-- ===== src/Server/Gate/Session.antt =====
-- A whole native stream: a decoder hands its events to a StreamAssembler (src/response.rs) until one
-- fails, and the server checks the chunks that come out (src/server.rs, sse_response).
use nano_llm.Common.{
  ℕ, lit, text_eq_refl, ◌≡◌, refl, sym, ap, subst, Bool, true, false, Option, none, some, List, [],
  ◌∷◌, arith, if◌then◌else◌, Result, ok, err,
}
use nano_llm.Request.{CanonicalRequest}
use nano_llm.Response.{NativeTerminal, Usage, ResponseMetadata, ResponseError, FinishReason}
use nano_llm.Response.Stream.{
  AssistantDelta, ChatChunk, StreamAssembler, Outcome, and_then, accept_parts, new,
}
use nano_llm.Response.Stream.Push.{
  push, push_checked, usage_chunk, deliver, close, conclude, with_role, opened, chunk, finish,
  finish_reason,
}
use nano_llm.Response.Stream.Frame.{SameFrame, accept_parts-SameFrame}
use nano_llm.Server.Gate.{
  StreamMetadata, StreamSuccessState, accept, first, metadata_of, has_initial_role,
}
use nano_llm.Server.Gate.Fits.{Agree, Fits, push-Fits, usage_chunk-Fits}

-- What a decoder reports of its native stream.
pub data Event : Type 0 where
  choice : (index : ℕ) → AssistantDelta → Option NativeTerminal → Event
  usage : Usage → Event

unfoldable pub step : Event → StreamAssembler → Outcome (Option ChatChunk)
step (choice index delta terminal) s = push index delta terminal s
step (usage counts) s = usage_chunk counts s

unfoldable pub continue :
    Outcome (Option ChatChunk)
    → (StreamAssembler → List ChatChunk × StreamAssembler)
    → List ChatChunk × StreamAssembler
continue (ok none, s) next = next s
continue (ok (some c), s) next = (c ∷ (next s).0, (next s).1)
continue (err e, s) next = ([], s)

-- The chunks up to the first failure, and the state at the end.
unfoldable pub emit : List Event → StreamAssembler → List ChatChunk × StreamAssembler
emit [] s = ([], s)
emit (e ∷ events) s = continue (step e s) (λ t. emit events t)

-- The server's loop over the chunks after the first.
unfoldable pub accept_all :
    List ChatChunk → StreamMetadata → StreamSuccessState → Bool × StreamSuccessState
accept_all [] m g = (true, g)
accept_all (c ∷ cs) m g =
    let (fine, g') = accept c m g in
    let rest = accept_all cs m g' in if fine then rest else (false, g')

abbrev expected : StreamAssembler → StreamMetadata
expected s = record {
  id = s.metadata.id;
  object = lit "chat.completion.chunk";
  created = s.metadata.created;
  model = s.request.model;
}

abbrev fresh : Bool → StreamSuccessState
fresh include = record { terminal = false; usage_seen = false; include_usage = include }

-- Nothing has been delivered yet.
record Idle (s : StreamAssembler) : Type 0 where
  started : s.started ≡ false
  terminal : s.terminal ≡ false
  emitted_usage : s.emitted_usage ≡ false

-- The first chunk opens the stream, and until then the state stays idle.
abbrev Opens : StreamMetadata → Outcome (Option ChatChunk) → Type 0
Opens m (ok (some c), t) = (has_initial_role c.choices ≡ true) × (metadata_of c ≡ m)
Opens m (ok none, t) = Idle t
Opens m (err e, t) = Unit

conclude-Opens :
    (delta : AssistantDelta) (reason : Result ResponseError FinishReason) (s : StreamAssembler)
    → Opens (expected s) (conclude (with_role false delta) reason s)
unfolding conclude chunk with_role metadata_of has_initial_role
conclude-Opens delta (err e) s = tt
conclude-Opens delta (ok fin) s = (text_eq_refl (lit "assistant"), refl)

close-Opens :
    (delta : AssistantDelta) (terminal : Option NativeTerminal) (s : StreamAssembler)
    → Opens (expected s) (close (with_role false delta) terminal s)
unfolding close chunk with_role metadata_of has_initial_role
close-Opens delta none s = (text_eq_refl (lit "assistant"), refl)
close-Opens delta (some native) s = conclude-Opens delta (finish_reason native s) s

deliver-Opens :
    (delta : AssistantDelta) (terminal : Option NativeTerminal) (s : StreamAssembler)
    → Idle s
    → Opens (expected s) (deliver delta terminal s)
unfolding deliver
deliver-Opens delta terminal s h = ground (arith, close-Opens delta terminal (opened delta s))

Opens-and_then :
    {A : Type 0} (m : StreamMetadata) (s : StreamAssembler) (o : Outcome A)
    (f : A → StreamAssembler → Outcome (Option ChatChunk))
    → SameFrame s o.1
    → ((a : A) (t : StreamAssembler) → SameFrame s t → Opens m (f a t))
    → Opens m (and_then o f)
Opens-and_then m s (ok a, t) f h k = k a t h
Opens-and_then m s (err e, t) f h k = tt

Idle-SameFrame : {s t : StreamAssembler} → SameFrame s t → Idle s → Idle t
Idle-SameFrame k h = ground arith

expected-SameFrame : {s t : StreamAssembler} → SameFrame s t → expected t ≡ expected s
expected-SameFrame k = ground arith

push_checked-Opens :
    (delta : AssistantDelta) (terminal : Option NativeTerminal) (s : StreamAssembler)
    → Idle s
    → Opens (expected s) (push_checked delta terminal s)
unfolding push_checked
push_checked-Opens delta terminal s h =
    Opens-and_then (expected s) s (accept_parts delta.tool_calls s) _
      (accept_parts-SameFrame delta.tool_calls s)
      λ parts t k.
        let there = record delta { tool_calls = parts } in
        subst (λ m. Opens m (deliver there terminal t)) (expected-SameFrame k)
          (deliver-Opens there terminal t (Idle-SameFrame k h))

step-Opens : (e : Event) (s : StreamAssembler) → Idle s → Opens (expected s) (step e s)
unfolding step push usage_chunk finish
step-Opens (choice index delta terminal) s h = ground (arith, push_checked-Opens delta terminal s h)
step-Opens (usage counts) s h = ground arith

step-Fits :
    (m : StreamMetadata) (g : StreamSuccessState) (e : Event) (s : StreamAssembler)
    → Agree m g s
    → Fits m g (step e s)
unfolding step
step-Fits m g (choice index delta terminal) s h = push-Fits m g index delta terminal s h
step-Fits m g (usage counts) s h = usage_chunk-Fits m g counts s h

abbrev Accepted : StreamMetadata → StreamSuccessState → List ChatChunk × StreamAssembler → Type 0
Accepted m g (cs, s) = ((accept_all cs m g).0 ≡ true) × Agree m (accept_all cs m g).1 s

continue-Accepted :
    (m : StreamMetadata) (g : StreamSuccessState) (o : Outcome (Option ChatChunk))
    (next : StreamAssembler → List ChatChunk × StreamAssembler)
    → Fits m g o
    → ((g' : StreamSuccessState) (t : StreamAssembler) → Agree m g' t → Accepted m g' (next t))
    → Accepted m g (continue o next)
unfolding continue accept_all
continue-Accepted m g (ok none, t) next h k = k g t h
continue-Accepted m g (ok (some c), t) next (fine, h) k = rw fine (k (accept c m g).1 t h)
continue-Accepted m g (err e, t) next h k = (refl, h)

emit-Accepted :
    (m : StreamMetadata) (events : List Event) (g : StreamSuccessState) (s : StreamAssembler)
    → Agree m g s
    → Accepted m g (emit events s)
unfolding emit
emit-Accepted m [] g s h = unfold accept_all in (refl, h)
emit-Accepted m (e ∷ events) g s h =
    continue-Accepted m g (step e s) (λ t. emit events t) (step-Fits m g e s h)
      λ g' t k. emit-Accepted m events g' t k

abbrev Passes : StreamMetadata → Bool → List ChatChunk × StreamAssembler → Type 0
Passes m include ([], s) = Unit
Passes m include (c ∷ cs, s) =
    (g : StreamSuccessState) × (first c include ≡ some g)
    × (metadata_of c ≡ m)
    × Accepted m g (cs, s)

first_lem :
    (m : StreamMetadata) (include : Bool) (c : ChatChunk)
    → has_initial_role c.choices ≡ true
    → metadata_of c ≡ m
    → (accept c m (fresh include)).0 ≡ true
    → first c include ≡ some (accept c m (fresh include)).1
unfolding first
first_lem m include c role same fine =
    subst
      (λ n.
        (accept c n (fresh include)).0 ≡ true
        → first c include ≡ some (accept c n (fresh include)).1)
      same (λ h. ground arith) fine

continue-Passes :
    (m : StreamMetadata) (include : Bool) (o : Outcome (Option ChatChunk))
    (next : StreamAssembler → List ChatChunk × StreamAssembler)
    → Opens m o
    → Fits m (fresh include) o
    → ((t : StreamAssembler) → Idle t → Agree m (fresh include) t → Passes m include (next t))
    → ((g : StreamSuccessState) (t : StreamAssembler) → Agree m g t → Accepted m g (next t))
    → Passes m include (continue o next)
unfolding continue
continue-Passes m include (ok none, t) next idle h k l = k t idle h
continue-Passes m include (ok (some c), t) next (role, same) (fine, h) k l =
    (_, first_lem m include c role same fine, same, l _ t h)
continue-Passes m include (err e, t) next idle h k l = tt

emit-Passes :
    (m : StreamMetadata) (include : Bool) (events : List Event) (s : StreamAssembler)
    → Idle s
    → Agree m (fresh include) s
    → Passes m include (emit events s)
unfolding emit
emit-Passes m include [] s idle h = tt
emit-Passes m include (e ∷ events) s idle h =
    let met : expected s ≡ m = ground arith in
    continue-Passes m include (step e s) (λ t. emit events t)
      (subst (λ n. Opens n (step e s)) met (step-Opens e s idle))
      (step-Fits m (fresh include) e s h) (λ t i k. emit-Passes m include events t i k)
      (λ g t k. emit-Accepted m events g t k)

-- Whatever events a decoder reports, up to the first failure: if any chunk is delivered, the
-- server's check accepts the first one as an opening chunk and every later one against it, every
-- chunk goes by the requested model, and the check knows the stream as ended exactly if the
-- assembler does.
pub emit-accepted :
    (request : CanonicalRequest) (metadata : ResponseMetadata) (next_id : ℕ) (events : List Event)
    (c : ChatChunk) (cs : List ChatChunk) (s : StreamAssembler)
    → emit events (new request metadata next_id) ≡ (c ∷ cs, s)
    → (g : StreamSuccessState) × (first c request.include_usage ≡ some g)
      × (c.model ≡ request.model)
      × ((accept_all cs (metadata_of c) g).0 ≡ true)
      × ((accept_all cs (metadata_of c) g).1.terminal ≡ s.terminal)
unfolding new metadata_of
emit-accepted request metadata next_id events c cs s e =
    let start : StreamAssembler = new request metadata next_id in
    let (g, opening, same, accepted) = subst (Passes (expected start) request.include_usage) e (
      emit-Passes (expected start) request.include_usage events start
        (record { started = refl; terminal = refl; emitted_usage = refl }) (ground arith)) in
    let (fine, agree) = subst (λ m. Accepted m g (cs, s)) (sym same) accepted in
    (g, opening, ap (λ (m : StreamMetadata). m.model) same, fine, agree.terminal)
