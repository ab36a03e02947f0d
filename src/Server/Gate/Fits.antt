-- ===== src/Server/Gate/Fits.antt =====
-- The chunks that a StreamAssembler (src/response.rs) delivers pass the server's last check
-- (src/server.rs, StreamSuccessState): the two components agree on what a canonical stream is.
use nano_llm.Common.{
  ℕ, lit, text_eq_iff, text_eq_refl, ◌≡◌, refl, Bool, true, false, Option, none, some, arith, ◌||◌,
  is_some, Result, ok, err, if◌then◌else◌,
}
use nano_llm.Response.{NativeTerminal, Usage, valid_usage, ResponseError, FinishReason}
use nano_llm.Response.Stream.{
  AssistantDelta, ChatChunk, StreamAssembler, Outcome, and_then, accept_parts,
}
use nano_llm.Response.Stream.Push.{
  push, push_checked, usage_chunk, deliver, close, conclude, is_silent, with_role, opened, chunk,
  foreign_role, finish_reason,
}
use nano_llm.Response.Stream.Frame.{SameFrame, accept_parts-SameFrame}
use nano_llm.Server.Gate.{StreamMetadata, StreamSuccessState, accept, same_metadata, has_delta}

pub record Agree (m : StreamMetadata) (g : StreamSuccessState) (s : StreamAssembler) : Type 0 where
  pub terminal : g.terminal ≡ s.terminal
  pub usage_seen : g.usage_seen ≡ s.emitted_usage
  pub include_usage : g.include_usage ≡ s.request.include_usage
  pub id : m.id ≡ s.metadata.id
  pub object : m.object ≡ lit "chat.completion.chunk"
  pub created : m.created ≡ s.metadata.created
  pub model : m.model ≡ s.request.model

-- The gate accepts what an operation delivers, and agrees with the state that it leaves.
abbrev pub Fits : StreamMetadata → StreamSuccessState → Outcome (Option ChatChunk) → Type 0
Fits m g (ok (some c), s) = ((accept c m g).0 ≡ true) × Agree m (accept c m g).1 s
Fits m g (ok none, s) = Agree m g s
Fits m g (err e, s) = Agree m g s

pub Agree-SameFrame :
    {m : StreamMetadata} {g : StreamSuccessState} {s t : StreamAssembler}
    → Agree m g s
    → SameFrame s t
    → Agree m g t
Agree-SameFrame h k = ground arith

chunk-same_metadata :
    (m : StreamMetadata) (g : StreamSuccessState) (delta : AssistantDelta)
    (fin : Option FinishReason) (s : StreamAssembler)
    → Agree m g s
    → same_metadata (chunk s delta fin) m ≡ true
unfolding same_metadata chunk
chunk-same_metadata m g delta fin s h = ground (
  arith,
  text_eq_iff s.metadata.id m.id,
  text_eq_iff (lit "chat.completion.chunk") m.object,
  text_eq_iff s.request.model m.model,
)

-- An ordinary chunk is accepted, and ends the stream for the gate exactly if it has a reason.
accept-chunk :
    (m : StreamMetadata) (g : StreamSuccessState) (delta : AssistantDelta)
    (fin : Option FinishReason) (s : StreamAssembler)
    → Agree m g s
    → g.terminal ≡ false
    → foreign_role delta.role ≡ false
    → (has_delta delta || is_some fin) ≡ true
    → accept (chunk s delta fin) m g ≡ (true, record g { terminal = is_some fin })
unfolding accept foreign_role has_delta chunk
accept-chunk m g delta fin s h open_ role full =
    ground (arith, chunk-same_metadata m g delta fin s h)

with_role-not_foreign :
    (started : Bool) (delta : AssistantDelta)
    → foreign_role delta.role ≡ false
    → foreign_role (with_role started delta).role ≡ false
unfolding with_role foreign_role
with_role-not_foreign true delta h = h
with_role-not_foreign false delta h = rw (text_eq_refl (lit "assistant"))

conclude-Fits :
    (m : StreamMetadata) (g : StreamSuccessState) (delta : AssistantDelta)
    (reason : Result ResponseError FinishReason) (s : StreamAssembler)
    → Agree m g s
    → g.terminal ≡ false
    → foreign_role delta.role ≡ false
    → Fits m g (conclude delta reason s)
unfolding conclude
conclude-Fits m g delta (err e) s h open_ role = h
conclude-Fits m g delta (ok fin) s h open_ role =
    ground (arith, accept-chunk m g delta (some fin) s h open_ role)

close-Fits :
    (m : StreamMetadata) (g : StreamSuccessState) (delta : AssistantDelta)
    (terminal : Option NativeTerminal) (s : StreamAssembler)
    → Agree m g s
    → g.terminal ≡ false
    → foreign_role delta.role ≡ false
    → (has_delta delta || is_some terminal) ≡ true
    → Fits m g (close delta terminal s)
unfolding close
close-Fits m g delta none s h open_ role full =
    ground (arith, accept-chunk m g delta none s h open_ role full)
close-Fits m g delta (some native) s h open_ role full =
    conclude-Fits m g delta (finish_reason native s) s h open_ role

pub usage_chunk-Fits :
    (m : StreamMetadata) (g : StreamSuccessState) (usage : Usage) (s : StreamAssembler)
    → Agree m g s
    → Fits m g (usage_chunk usage s)
unfolding usage_chunk accept same_metadata valid_usage
usage_chunk-Fits m g usage s h = ground (
  arith,
  text_eq_iff s.metadata.id m.id,
  text_eq_iff (lit "chat.completion.chunk") m.object,
  text_eq_iff s.request.model m.model,
)

-- The rules for the two ways to branch.
Fits-if :
    (m : StreamMetadata) (g : StreamSuccessState) (b : Bool) (x y : Outcome (Option ChatChunk))
    → (b ≡ true → Fits m g x)
    → (b ≡ false → Fits m g y)
    → Fits m g (if b then x else y)
Fits-if m g true x y h k = h refl
Fits-if m g false x y h k = k refl

Fits-and_then :
    {A : Type 0} (m : StreamMetadata) (g : StreamSuccessState) (o : Outcome A)
    (f : A → StreamAssembler → Outcome (Option ChatChunk))
    → Agree m g o.1
    → ((a : A) (t : StreamAssembler) → Agree m g t → Fits m g (f a t))
    → Fits m g (and_then o f)
Fits-and_then m g (ok a, t) f h k = k a t h
Fits-and_then m g (err e, t) f h k = h

-- What is not silent still has something to say once it has the role.
speaks :
    (started : Bool) (delta : AssistantDelta) (terminal : Option NativeTerminal)
    → is_silent delta terminal ≡ false
    → (has_delta (with_role started delta) || is_some terminal) ≡ true
unfolding is_silent has_delta with_role
speaks true delta terminal h = ground arith
speaks false delta terminal h = ground arith

deliver-Fits :
    (m : StreamMetadata) (g : StreamSuccessState) (delta : AssistantDelta)
    (terminal : Option NativeTerminal) (s : StreamAssembler)
    → Agree m g s
    → g.terminal ≡ false
    → foreign_role delta.role ≡ false
    → Fits m g (deliver delta terminal s)
unfolding deliver
deliver-Fits m g delta terminal s h open_ role =
    Fits-if m g (is_silent delta terminal) _ _ (λ _. h)
      λ loud.
        close-Fits m g (with_role s.started delta) terminal (opened delta s) (ground arith) open_
          (with_role-not_foreign s.started delta role) (speaks s.started delta terminal loud)

push_checked-Fits :
    (m : StreamMetadata) (g : StreamSuccessState) (delta : AssistantDelta)
    (terminal : Option NativeTerminal) (s : StreamAssembler)
    → Agree m g s
    → g.terminal ≡ false
    → foreign_role delta.role ≡ false
    → Fits m g (push_checked delta terminal s)
unfolding push_checked
push_checked-Fits m g delta terminal s h open_ role =
    Fits-and_then m g (accept_parts delta.tool_calls s) _
      (Agree-SameFrame h (accept_parts-SameFrame delta.tool_calls s))
      λ parts t k. deliver-Fits m g (record delta { tool_calls = parts }) terminal t k open_ role

pub push-Fits :
    (m : StreamMetadata) (g : StreamSuccessState) (i : ℕ) (delta : AssistantDelta)
    (terminal : Option NativeTerminal) (s : StreamAssembler)
    → Agree m g s
    → Fits m g (push i delta terminal s)
unfolding push
push-Fits m g i delta terminal s h = ground (arith, push_checked-Fits m g delta terminal s h)
