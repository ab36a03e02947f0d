-- ===== src/Response/Stream/Frame.antt =====
-- What the tool-call parts of a delta leave alone in a StreamAssembler.
use nano_llm.Common.{◌≡◌, refl, List, [], ◌∷◌, arith, ok, err}
use nano_llm.Response.Stream.{
  ToolCallDelta, StreamAssembler, Outcome, and_then, accept_call_delta, accept_parts,
}

pub record SameFrame (s t : StreamAssembler) : Type 0 where
  pub request : t.request ≡ s.request
  pub metadata : t.metadata ≡ s.metadata
  pub started : t.started ≡ s.started
  pub saw_content : t.saw_content ≡ s.saw_content
  pub terminal : t.terminal ≡ s.terminal
  pub emitted_usage : t.emitted_usage ≡ s.emitted_usage

abbrev same : (s : StreamAssembler) → SameFrame s s
same s = record {
  request = refl;
  metadata = refl;
  started = refl;
  saw_content = refl;
  terminal = refl;
  emitted_usage = refl;
}

SameFrame-trans : {s t u : StreamAssembler} → SameFrame s t → SameFrame t u → SameFrame s u
SameFrame-trans h k = ground arith

accept_call_delta-SameFrame :
    (part : ToolCallDelta) (s : StreamAssembler) → SameFrame s (accept_call_delta part s).1
unfolding accept_call_delta
accept_call_delta-SameFrame part s = ground arith

-- The rule for `?`.
and_then-SameFrame :
    {A B : Type 0} (s : StreamAssembler) (m : Outcome A) (f : A → StreamAssembler → Outcome B)
    → SameFrame s m.1
    → ((a : A) (t : StreamAssembler) → SameFrame t (f a t).1)
    → SameFrame s (and_then m f).1
and_then-SameFrame s (ok a, t) f h k = SameFrame-trans h (k a t)
and_then-SameFrame s (err e, t) f h k = h

pub accept_parts-SameFrame :
    (parts : List ToolCallDelta) (s : StreamAssembler) → SameFrame s (accept_parts parts s).1
unfolding accept_parts
accept_parts-SameFrame [] s = same s
accept_parts-SameFrame (part ∷ parts) s =
    and_then-SameFrame s (accept_call_delta part s) _ (accept_call_delta-SameFrame part s)
      λ part' t.
        and_then-SameFrame t (accept_parts parts t) _ (accept_parts-SameFrame parts t)
          λ parts' u. same u
