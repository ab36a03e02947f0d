-- ===== src/Server/Sse/Ends.antt =====
-- Sending a stream ends when the stream does (src/server.rs, write_sse_stream).
use nano_llm.Common.{
  ℕ, zero, suc, ◌+◌, ◌<◌, Bool, ◌≡◌, refl, subst, ◌⊎◌, inl, inr, Option, none, some, Text, leb,
  Bool-cases, Result, ok, err, arith,
}
use nano_llm.Provider.{TargetError, ProviderStream, World}
use nano_llm.Response.Stream.{ChatChunk}
use nano_llm.Server.Gate.{StreamMetadata, StreamSuccessState, accept}
use nano_llm.Server.StreamDispatch.{StreamRouteDispatch}
use nano_llm.Server.Sse.{Sent, sent_before, write_item, write_from, write_first, write_sse_stream}

abbrev pub Returns : Option Sent → Type 0
Returns o = (sent : Sent) × (o ≡ some sent)

left_cases : (n : ℕ) → (n ≡ 0) ⊎ ((m : ℕ) × (n ≡ m + 1))
left_cases zero = inl refl
left_cases (suc n) = inr (n, omega arith)

sent_before-Returns : (event : Text) (o : Option Sent) → Returns o → Returns (sent_before event o)
unfolding sent_before
sent_before-Returns event none (sent, e) = cc
sent_before-Returns event (some sent) h = (_, refl)

module _ (w : World) (idle : ℕ) (writes : ℕ → Bool) (stream : ProviderStream)
    (m : StreamMetadata) where
  write_item-Returns :
      (item : Option (Result TargetError ChatChunk)) (g : StreamSuccessState) (deadline t k : ℕ)
      (next : StreamSuccessState → (deadline t : ℕ) → Option Sent)
      → (item ≡ none) ⊎ ((g' : StreamSuccessState) (d u : ℕ) → Returns (next g' d u))
      → Returns (write_item w idle writes stream m item g deadline t k next)
  unfolding write_item
  write_item-Returns none g deadline t k next h = elim (Bool-cases g.terminal) [
    | inl p ↦
        rw p (elim (Bool-cases (writes k)) [ inl q ↦ rw q (_, refl) | inr q ↦ rw q (_, refl) ])
    | inr p ↦ rw p (_, refl)
  ]
  write_item-Returns (some (err error)) g deadline t k next h = (_, refl)
  write_item-Returns (some (ok c)) g deadline t k next (inl e) = cc
  write_item-Returns (some (ok c)) g deadline t k next (inr h) =
      elim (Bool-cases (accept c m g).0) [
        | inl p ↦ rw p (elim (Bool-cases (writes k)) [
          | inl q ↦ rw q (sent_before-Returns _ _ (h (accept c m g).1 _ _))
          | inr q ↦ rw q (_, refl)
        ])
        | inr p ↦ rw p (_, refl)
      ]

  -- Fuel for one round more than there are items left.
  write_from-Returns :
      (fuel left : ℕ) (g : StreamSuccessState) (deadline t k : ℕ)
      → left < fuel
      → stream (k + left) ≡ none
      → Returns (write_from w idle writes stream m fuel g deadline t k)
  unfolding write_from
  write_from-Returns zero left g deadline t k h e = absurd (omega (arith, h))
  write_from-Returns (suc fuel) left g deadline t k h e =
      let rest : (stream k ≡ none)
          ⊎ ((g' : StreamSuccessState) (d u : ℕ)
              → Returns (write_from w idle writes stream m fuel g' d u (k + 1))) =
        elim (left_cases left) [
          | inl z ↦ inl (subst (λ n. stream n ≡ none) (omega (arith, z)) e)
          | inr (l, s) ↦ inr λ g' d u.
              write_from-Returns fuel l g' d u (k + 1) (omega (arith, h, s))
                (subst (λ n. stream n ≡ none) (omega (arith, s)) e)
        ] in
      elim (Bool-cases (w.cancelled t)) [
        | inl p ↦ rw p (_, refl)
        | inr p ↦ rw p (elim (Bool-cases (leb deadline (w.now (t + 1)))) [
          | inl q ↦ rw q (_, refl)
          | inr q ↦ rw q (elim (Bool-cases (w.cancelled (t + 2))) [
            | inl r ↦ rw r (_, refl)
            | inr r ↦ rw r (elim (Bool-cases (leb deadline (w.now (t + 3)))) [
              | inl u ↦ rw u (_, refl)
              | inr u ↦ rw u (write_item-Returns (stream k) g deadline (t + 4) k _ rest)
            ])
          ])
        ])
      ]

write_first-Returns :
    (w : World) (writes : ℕ → Bool) (dispatch : StreamRouteDispatch) (fuel left t : ℕ)
    (o : Option StreamSuccessState)
    → left < fuel
    → dispatch.stream (left + 1) ≡ none
    → Returns (write_first w fuel writes dispatch o t)
unfolding write_first
write_first-Returns w writes dispatch fuel left t none h e = (_, refl)
write_first-Returns w writes dispatch fuel left t (some g) h e = elim (Bool-cases (writes 0)) [
  | inl p ↦ rw p (
      sent_before-Returns _ _ (
        write_from-Returns w _ writes dispatch.stream _ fuel left g _ _ 1 h
          (subst (λ n. dispatch.stream n ≡ none) (omega arith) e)))
  | inr p ↦ rw p (_, refl)
]

-- If the stream has at most `left` items after the first, `write_sse_stream` returns on more fuel
-- than that, whatever the clock, the client and the socket do.
pub write_sse_stream_total :
    (w : World) (writes : ℕ → Bool) (dispatch : StreamRouteDispatch) (fuel left t : ℕ)
    → left < fuel
    → dispatch.stream (left + 1) ≡ none
    → (sent : Sent) × (write_sse_stream w fuel writes dispatch t ≡ some sent)
unfolding write_sse_stream
write_sse_stream_total w writes dispatch fuel left t h e =
    write_first-Returns w writes dispatch fuel left t _ h e
