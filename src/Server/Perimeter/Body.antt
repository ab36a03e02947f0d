-- ===== src/Server/Perimeter/Body.antt =====
-- Which bodies are taken (src/server.rs, buffer_body).
use nano_llm.Common.{
  ℕ, ◌+◌, ◌≤◌, ◌<◌, Text, false, ◌≡◌, ◌↔◌, refl, sym, ap, subst, ◌∙◌, inl, inr, Bool-cases, Option,
  none, some, List, [], ◌∷◌, ◌++◌, All, length, length-append, leb, ltb, leb-false→lt, ok, err,
  ok_injective, arith, ◌⊎◌,
}
use mathlib.Core.List.{append-nil, append_assoc}
use nano_llm.Server.Http.{HttpRequest}
use nano_llm.Server.Perimeter.{
  GatewayErrorKind, max_request_body_bytes, body_timeout, buffer_chunks, buffer_parts, buffer_body,
}

abbrev pub joined : List (ℕ × Text) → Text
joined [] = []
joined (c ∷ chunks) = c.1 ++ joined chunks

-- The whole body, whichever way it arrives.
abbrev pub whole : Option (List (ℕ × Text)) → Text → Text
whole none body = body
whole (some chunks) body = joined chunks

-- Every chunk came before the deadline.
abbrev pub OnTime : Option (List (ℕ × Text)) → Type 0
OnTime none = Unit
OnTime (some chunks) = All (λ c. c.0 < body_timeout) chunks

buffer_chunks_sound :
    (body : Text) (chunks : List (ℕ × Text)) (b : Text)
    → length body ≤ max_request_body_bytes
    → buffer_chunks body chunks ≡ ok b
    → (b ≡ body ++ joined chunks)
      × (length b ≤ max_request_body_bytes)
      × All (λ c. c.0 < body_timeout) chunks
unfolding buffer_chunks
buffer_chunks_sound body [] b h e =
    let same : body ≡ b = ok_injective e in
    (sym same ∙ sym (append-nil body), subst (λ t. length t ≤ max_request_body_bytes) same h, tt)
buffer_chunks_sound body ((arrival, chunk) ∷ chunks) b h e =
    elim (Bool-cases (leb body_timeout arrival)) [
      | inl p ↦ absurd (cc (rw p at e))
      | inr p ↦ elim (Bool-cases (ltb max_request_body_bytes (length body + length chunk))) [
        | inl q ↦ absurd (cc (rw q at (rw p at e)))
        | inr q ↦
            let fits : length (body ++ chunk) ≤ max_request_body_bytes =
              rw (length-append body chunk) (ground (arith, q)) in
            let (parts, size, on_time) =
              buffer_chunks_sound (body ++ chunk) chunks b fits (rw q at (rw p at e)) in
            (parts ∙ append_assoc body chunk (joined chunks), size, (leb-false→lt _ _ p, on_time))
      ]
    ]

buffer_chunks_back :
    (body : Text) (chunks : List (ℕ × Text))
    → length (body ++ joined chunks) ≤ max_request_body_bytes
    → All (λ c. c.0 < body_timeout) chunks
    → buffer_chunks body chunks ≡ ok (body ++ joined chunks)
unfolding buffer_chunks
buffer_chunks_back body [] h on_time = rw (append-nil body) refl
buffer_chunks_back body ((arrival, chunk) ∷ chunks) h on_time =
    let early : leb body_timeout arrival ≡ false = ground (arith, on_time.0) in
    let again : length ((body ++ chunk) ++ joined chunks) ≤ max_request_body_bytes =
      rw (append_assoc body chunk (joined chunks)) h in
    let sizes = length-append (body ++ chunk) (joined chunks) in
    let fits : ltb max_request_body_bytes (length body + length chunk) ≡ false =
      ground (arith, again, sizes, length-append body chunk) in
    rw early (
      rw fits (
        buffer_chunks_back (body ++ chunk) chunks again on_time.1
        ∙ ap ok (append_assoc body chunk (joined chunks))))

buffer_parts_iff :
    (chunks : Option (List (ℕ × Text))) (body b : Text)
    → (buffer_parts chunks body ≡ ok b)
      ↔ ((b ≡ whole chunks body) × (length b ≤ max_request_body_bytes) × OnTime chunks)
unfolding buffer_parts
buffer_parts_iff none body b = elim (Bool-cases (ltb max_request_body_bytes (length body))) [
  | inl p ↦ rw p (
    λ e. absurd (cc e),
    λ (same, size, on_time).
        absurd (ground (arith, p, subst (λ t. length t ≤ max_request_body_bytes) same size)),
  )
  | inr p ↦ rw p (
    λ e.
        let same : body ≡ b = ok_injective e in
        (sym same, subst (λ t. length t ≤ max_request_body_bytes) same (ground (arith, p)), tt),
    λ (same, size, on_time). ap ok (sym same),
  )
]
buffer_parts_iff (some chunks) body b = (
  buffer_chunks_sound [] chunks b (omega arith),
  λ (same, size, on_time).
      buffer_chunks_back [] chunks (subst (λ t. length t ≤ max_request_body_bytes) same size)
        on_time
      ∙ ap ok (sym same),
)

-- `buffer_body` gives exactly the whole body of a request whose body has at most 1 MiB and, if it
-- arrives in chunks, has each of them before the deadline; any other body is refused.
pub buffer_body_iff :
    (request : HttpRequest) (b : Text)
    → (buffer_body request ≡ ok b) ↔ (
        (b ≡ whole request.body_chunks request.body)
        × (length b ≤ max_request_body_bytes)
        × OnTime request.body_chunks)
unfolding buffer_body
buffer_body_iff request b = buffer_parts_iff request.body_chunks request.body b

-- A body is refused for one of two reasons.
abbrev Reason : GatewayErrorKind → Type 0
Reason kind =
    (kind ≡ GatewayErrorKind.request_body_timeout) ⊎ (kind ≡ GatewayErrorKind.request_too_large)

buffer_chunks-refuses :
    (body : Text) (chunks : List (ℕ × Text)) (kind : GatewayErrorKind)
    → buffer_chunks body chunks ≡ err kind
    → Reason kind
unfolding buffer_chunks
buffer_chunks-refuses body [] kind e = absurd (cc e)
buffer_chunks-refuses body ((arrival, chunk) ∷ chunks) kind e =
    elim (Bool-cases (leb body_timeout arrival)) [
      | inl p ↦ inl (cc (rw p at e))
      | inr p ↦ elim (Bool-cases (ltb max_request_body_bytes (length body + length chunk))) [
        | inl q ↦ inr (cc (rw q at (rw p at e)))
        | inr q ↦ buffer_chunks-refuses (body ++ chunk) chunks kind (rw q at (rw p at e))
      ]
    ]

buffer_parts-refuses :
    (chunks : Option (List (ℕ × Text))) (body : Text) (kind : GatewayErrorKind)
    → buffer_parts chunks body ≡ err kind
    → Reason kind
unfolding buffer_parts
buffer_parts-refuses (some chunks) body kind e = buffer_chunks-refuses [] chunks kind e
buffer_parts-refuses none body kind e =
    elim (Bool-cases (ltb max_request_body_bytes (length body))) [
      | inl p ↦ inr (cc (rw p at e))
      | inr p ↦ absurd (cc (rw p at e))
    ]

pub buffer_body-refuses :
    (request : HttpRequest) (kind : GatewayErrorKind) → buffer_body request ≡ err kind → Reason kind
unfolding buffer_body
buffer_body-refuses request kind e = buffer_parts-refuses request.body_chunks request.body kind e
