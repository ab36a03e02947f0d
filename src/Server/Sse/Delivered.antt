-- ===== src/Server/Sse/Delivered.antt =====
-- What a client receives of a committed stream (src/server.rs, write_sse_stream).
use nano_llm.Common.{
  ℕ, zero, suc, ◌+◌, Text, Bool, true, false, ◌≡◌, refl, ap, subst, inl, inr, Option, none, some,
  List, [], ◌∷◌, ◌++◌, map, leb, if◌then◌else◌, length, Bool-cases, Result, ok, err, arith,
}
use nano_llm.Response.Stream.{ChatChunk}
use nano_llm.Provider.{TargetError, ProviderStream, World}
use nano_llm.Server.Gate.{StreamMetadata, metadata_of, StreamSuccessState, first, accept}
use nano_llm.Server.Gate.Session.{accept_all}
use nano_llm.Server.Serialize.{serialize_sse_chunk}
use nano_llm.Server.StreamDispatch.{StreamRouteDispatch}
use nano_llm.Server.Sse.{
  completed, client_disconnected, upstream_failed_after_commit, Sent, done_event, stopped,
  sent_before, failed, disconnected, write_item, write_from, closing, write_first, write_sse_stream,
}

-- The items of the stream from the k-th on.
abbrev pub Items : ProviderStream → ℕ → List ChatChunk → Type 0
Items stream k [] = Unit
Items stream k (c ∷ chunks) = (stream k ≡ some (ok c)) × Items stream (k + 1) chunks

-- What is sent from a state of the check on, when `k` items have been taken.
pub record Suffix (stream : ProviderStream) (m : StreamMetadata) (g : StreamSuccessState) (k : ℕ)
    (sent : Sent) : Type 0 where
  pub chunks : List ChatChunk
  pub items : Items stream k chunks
  pub accepted : (accept_all chunks m g).0 ≡ true
  pub events : sent.events ≡ map serialize_sse_chunk chunks ++ closing sent.outcome
  pub at_end : sent.outcome ≡ completed → stream (k + length chunks) ≡ none
  pub ended : sent.outcome ≡ completed → (accept_all chunks m g).1.terminal ≡ true
  pub gives_up : sent.cancels ≡ true → sent.outcome ≡ client_disconnected

abbrev SuffixIf : ProviderStream → StreamMetadata → StreamSuccessState → ℕ → Option Sent → Type 0
SuffixIf stream m g k none = Unit
SuffixIf stream m g k (some sent) = Suffix stream m g k sent

module _ (w : World) (idle : ℕ) (writes : ℕ → Bool) (stream : ProviderStream)
    (m : StreamMetadata) where
  failed-Suffix : (g : StreamSuccessState) (k : ℕ) → SuffixIf stream m g k (stopped failed false)
  unfolding accept_all closing
  failed-Suffix g k = record {
    chunks = [];
    items = tt;
    accepted = refl;
    events = refl;
    at_end = λ e. absurd (cc e);
    ended = λ e. absurd (cc e);
    gives_up = λ e. absurd (cc e);
  }

  gone-Suffix :
      (g : StreamSuccessState) (k : ℕ) (cancels : Bool)
      → SuffixIf stream m g k (stopped disconnected cancels)
  unfolding accept_all closing
  gone-Suffix g k cancels = record {
    chunks = [];
    items = tt;
    accepted = refl;
    events = refl;
    at_end = λ e. absurd (cc e);
    ended = λ e. absurd (cc e);
    gives_up = λ _. refl;
  }

  done-Suffix :
      (g : StreamSuccessState) (k : ℕ)
      → stream k ≡ none
      → g.terminal ≡ true
      → Suffix stream m g k
          (record { events = done_event ∷ []; outcome = completed; cancels = false })
  unfolding accept_all closing
  done-Suffix g k none_left over = record {
    chunks = [];
    items = tt;
    accepted = refl;
    events = refl;
    at_end = λ _. subst (λ n. stream n ≡ none) (omega arith) none_left;
    ended = λ _. over;
    gives_up = λ e. absurd (cc e);
  }

  sent_before-Suffix :
      (c : ChatChunk) (g : StreamSuccessState) (k : ℕ) (o : Option Sent)
      → stream k ≡ some (ok c)
      → (accept c m g).0 ≡ true
      → SuffixIf stream m (accept c m g).1 (k + 1) o
      → SuffixIf stream m g k (sent_before (serialize_sse_chunk c) o)
  unfolding sent_before accept_all
  sent_before-Suffix c g k none item fine h = tt
  sent_before-Suffix c g k (some sent) item fine h = record {
    chunks = c ∷ h.chunks;
    items = (item, h.items);
    accepted = rw fine h.accepted;
    events = ap (λ l. serialize_sse_chunk c ∷ l) h.events;
    at_end = λ e. subst (λ n. stream n ≡ none) (omega arith) (h.at_end e);
    ended = λ e. rw fine (h.ended e);
    gives_up = h.gives_up;
  }

  -- The stream has no further item.
  at_end-Suffix :
      (g : StreamSuccessState) (k : ℕ) (over : Bool)
      → g.terminal ≡ over
      → stream k ≡ none
      → SuffixIf stream m g k (
          if over
          then (if writes k
              then some (record { events = done_event ∷ []; outcome = completed; cancels = false })
              else stopped disconnected true)
          else stopped failed false)
  at_end-Suffix g k false same e = failed-Suffix g k
  at_end-Suffix g k true same e = elim (Bool-cases (writes k)) [
    | inl q ↦ rw q (done-Suffix g k e same)
    | inr q ↦ rw q (gone-Suffix g k true)
  ]

  write_item-Suffix :
      (item : Option (Result TargetError ChatChunk)) (g : StreamSuccessState) (deadline t k : ℕ)
      (next : StreamSuccessState → (deadline t : ℕ) → Option Sent)
      → stream k ≡ item
      → ((g' : StreamSuccessState) (d u : ℕ) → SuffixIf stream m g' (k + 1) (next g' d u))
      → SuffixIf stream m g k (write_item w idle writes stream m item g deadline t k next)
  unfolding write_item
  write_item-Suffix none g deadline t k next e h = at_end-Suffix g k g.terminal refl e
  write_item-Suffix (some (err error)) g deadline t k next e h = failed-Suffix g k
  write_item-Suffix (some (ok c)) g deadline t k next e h = elim (Bool-cases (accept c m g).0) [
    | inl p ↦ rw p (elim (Bool-cases (writes k)) [
      | inl q ↦ rw q (sent_before-Suffix c g k _ e p (h (accept c m g).1 _ _))
      | inr q ↦ rw q (gone-Suffix g k true)
    ])
    | inr p ↦ rw p (failed-Suffix g k)
  ]

  write_from-Suffix :
      (fuel : ℕ) (g : StreamSuccessState) (deadline t k : ℕ)
      → SuffixIf stream m g k (write_from w idle writes stream m fuel g deadline t k)
  unfolding write_from
  write_from-Suffix zero g deadline t k = tt
  write_from-Suffix (suc fuel) g deadline t k = elim (Bool-cases (w.cancelled t)) [
    | inl p ↦ rw p (gone-Suffix g k false)
    | inr p ↦ rw p (elim (Bool-cases (leb deadline (w.now (t + 1)))) [
      | inl q ↦ rw q (failed-Suffix g k)
      | inr q ↦ rw q (elim (Bool-cases (w.cancelled (t + 2))) [
        | inl r ↦ rw r (gone-Suffix g k false)
        | inr r ↦ rw r (elim (Bool-cases (leb deadline (w.now (t + 3)))) [
          | inl u ↦ rw u (failed-Suffix g k)
          | inr u ↦ rw u (
              write_item-Suffix (stream k) g deadline (t + 4) k _ refl
                λ g' d v. write_from-Suffix fuel g' d v (k + 1))
        ])
      ])
    ])
  ]

-- What `write_sse_stream` sends of a dispatch.
pub data Delivered (dispatch : StreamRouteDispatch) (sent : Sent) : Type 0 where
  refused :
      first dispatch.first_chunk dispatch.include_usage ≡ none
      → sent ≡ record { events = []; outcome = upstream_failed_after_commit; cancels = false }
      → Delivered dispatch sent
  unwritten :
      sent ≡ record { events = []; outcome = client_disconnected; cancels = true }
      → Delivered dispatch sent
  opened :
      (g : StreamSuccessState) (rest : List Text)
      → first dispatch.first_chunk dispatch.include_usage ≡ some g
      → sent.events ≡ serialize_sse_chunk dispatch.first_chunk ∷ rest
      → Suffix dispatch.stream
          (metadata_of dispatch.first_chunk)
          g
          1
          (record sent { events = rest })
      → Delivered dispatch sent

module _ (w : World) (fuel : ℕ) (writes : ℕ → Bool) (dispatch : StreamRouteDispatch) where
  abbrev DeliveredIf : Option Sent → Type 0
  DeliveredIf none = Unit
  DeliveredIf (some sent) = Delivered dispatch sent

  begun-Delivered :
      (g : StreamSuccessState) (o : Option Sent)
      → first dispatch.first_chunk dispatch.include_usage ≡ some g
      → SuffixIf dispatch.stream (metadata_of dispatch.first_chunk) g 1 o
      → DeliveredIf (sent_before (serialize_sse_chunk dispatch.first_chunk) o)
  unfolding sent_before
  begun-Delivered g none e h = tt
  begun-Delivered g (some sent) e h = opened g sent.events e refl h

  write_first-Delivered :
      (o : Option StreamSuccessState) (t : ℕ)
      → first dispatch.first_chunk dispatch.include_usage ≡ o
      → DeliveredIf (write_first w fuel writes dispatch o t)
  unfolding write_first
  write_first-Delivered none t e = refused e refl
  write_first-Delivered (some g) t e = elim (Bool-cases (writes 0)) [
    | inl p ↦
        rw p (begun-Delivered g _ e (write_from-Suffix w _ writes dispatch.stream _ fuel g _ _ 1))
    | inr p ↦ rw p (unwritten refl)
  ]

-- However time, the client and the upstream behave: what `write_sse_stream` has sent when it
-- returns is nothing, or the events of the first chunk and of the items after it in order, each
-- accepted by the server's check. The end marker `done_event` follows exactly when the outcome is
-- "completed"; then the stream is exhausted and the check knows it as ended. The upstream is
-- cancelled only for a client that is gone.
pub write_sse_stream-Delivered :
    (w : World) (fuel : ℕ) (writes : ℕ → Bool) (dispatch : StreamRouteDispatch) (t : ℕ)
    (sent : Sent)
    → write_sse_stream w fuel writes dispatch t ≡ some sent
    → Delivered dispatch sent
unfolding write_sse_stream
write_sse_stream-Delivered w fuel writes dispatch t sent e =
    subst (DeliveredIf w fuel writes dispatch) e
      (write_first-Delivered w fuel writes dispatch _ t refl)
