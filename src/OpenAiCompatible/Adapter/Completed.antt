-- ===== src/OpenAiCompatible/Adapter/Completed.antt =====
-- What `complete` of src/openai_compatible.rs answers.
use nano_llm.Common.{
  ◌∙◌, none, some, arith, ℕ, suc, ◌+◌, ◌<◌, ◌≤◌, Bool, true, false, ◌≡◌, refl, ap, sym, subst, lit,
  Option, ◌⊎◌, inl, inr, List, [], ◌∷◌, length, leb, leb→le, leb-false→lt, Bool-cases, ◌==◌, Result,
  ok, err, ensure, ◌>>=◌, ◌>>◌,
}
use nano_llm.Request.{CanonicalRequest}
use nano_llm.Request.Outcome.{Fault}
use nano_llm.Request.Parse.Strings.{fault}
use nano_llm.Request.Parse.{decode_json_object}
use nano_llm.Provider.{TargetErrorKind, TargetError, new, invalid, from_upstream_status}
use nano_llm.Provider.Transport.{OutboundResponse, TransportErrorKind, TransportError}
use nano_llm.Response.{
  ChatResponse, ResponseError, invalid_response, ResponseMetadata, NativeChoice, NativeResponse,
  Usage, u64_limit,
}
use nano_llm.Response.Buffered.{normalize_response}
use nano_llm.Response.Buffered.Canonical.{IsCanonical, build_response-IsCanonical}
use nano_llm.OpenAiCompatible.Native.{
  Trouble, raised, panicked, Native, response_error, parse_response,
}
use nano_llm.OpenAiCompatible.Native.Invalid.{Broken, parse_response-Broken}
use nano_llm.OpenAiCompatible.Adapter.{
  OpenAiCompatibleProvider, complete, reached, normalized, is_success, outbound_request, for_model,
  transport_error, max_buffered_response_bytes,
}
use nano_llm.OpenAiCompatible.Adapter.Told.{
  NotReached, late, lost, Classified, Incoherent, overload, misfit, status_kind-Classified,
}

-- An answer comes from the one choice that there is.
single :
    (choices : List NativeChoice) (usage : Option Usage) (request : CanonicalRequest)
    (metadata : ResponseMetadata) (next_id : ℕ) (r : ChatResponse)
    → normalize_response request metadata (record { choices = choices; usage = usage }) next_id
      ≡ ok r
    → (choice : NativeChoice) × (choices ≡ choice ∷ [])
      × (length choice.calls < u64_limit
          → IsCanonical request metadata choice.content choice.calls r)
unfolding normalize_response
single [] usage request metadata next_id r h = absurd (cc h)
single (c ∷ d ∷ choices) usage request metadata next_id r h = absurd (cc h)
single (c ∷ []) usage request metadata next_id r h = elim (Bool-cases (c.index == 0)) [
  | inl e ↦ (
    c,
    refl,
    λ few.
        build_response-IsCanonical request metadata c.content c.calls c.terminal usage next_id r few
          (rw e at h),
  )
  | inr e ↦
      let other : ◌≡◌ {A = Result ResponseError ChatResponse}
          (err (invalid_response (lit "provider response choice index must be zero"))) (ok r) =
        rw e at h in
      absurd (cc other)
]

module _ (provider : OpenAiCompatibleProvider) (request : CanonicalRequest)
    (created next_id : ℕ) where
  abbrev exchanged : Result TransportError OutboundResponse
  exchanged =
      provider.transport.execute provider.transport_policy
        (outbound_request provider.target request false)

  abbrev parsed : OutboundResponse → Native NativeResponse
  parsed response =
      parse_response (suc (length response.body)) provider.target.provider response.body

  -- The upstream answered 2xx.
  pub record Succeeds (response : OutboundResponse) : Type 0 where
    pub exchange : exchanged ≡ ok response
    pub from_200 : 200 ≤ response.status
    pub to_299 : response.status < 300

  -- The error of the target has that kind, and no status of the upstream.
  abbrev Told : TargetErrorKind → TargetError → Type 0
  Told kind error = (error.kind ≡ kind) × (error.upstream_status ≡ none)

  -- One way for each outcome of the exchange.
  pub data Completed : Native ChatResponse → Type 0 where
    unreached :
        (e : TransportError) (error : TargetError)
        → exchanged ≡ err e
        → NotReached e.kind error.kind
        → error.upstream_status ≡ none
        → Completed (err (raised error))
    refused :
        (response : OutboundResponse) (error : TargetError)
        → exchanged ≡ ok response
        → (response.status < 200) ⊎ (300 ≤ response.status)
        → Classified response.status error.kind
        → error.upstream_status ≡ some response.status
        → Completed (err (raised error))
    too_long :
        (response : OutboundResponse) (error : TargetError)
        → Succeeds response
        → 8388608 < length response.body
        → Told TargetErrorKind.invalid_response error
        → Completed (err (raised error))
    unreadable :
        (response : OutboundResponse) (error : TargetError)
        → Succeeds response
        → length response.body ≤ 8388608
        → parsed response ≡ err (raised error)
        → Told TargetErrorKind.invalid_response error
        → Completed (err (raised error))
    crashed :
        (response : OutboundResponse)
        → Succeeds response
        → length response.body ≤ 8388608
        → decode_json_object (suc (length response.body)) response.body ≡ err (fault Fault.panic)
        → Completed (err panicked)
    incoherent :
        (response : OutboundResponse) (native : NativeResponse) (e : ResponseError)
        (error : TargetError)
        → Succeeds response
        → length response.body ≤ 8388608
        → parsed response ≡ ok native
        → normalize_response request (for_model created next_id) native (next_id + 1) ≡ err e
        → Incoherent e error.kind
        → error.upstream_status ≡ none
        → Completed (err (raised error))
    answered :
        (response : OutboundResponse) (native : NativeResponse) (choice : NativeChoice)
        (r : ChatResponse)
        → Succeeds response
        → length response.body ≤ 8388608
        → parsed response ≡ ok native
        → native.choices ≡ choice ∷ []
        → (length choice.calls < u64_limit
            → IsCanonical request (for_model created next_id) choice.content choice.calls r)
        → Completed (ok r)

  told-unreached :
      (e : TransportError) (kind : TransportErrorKind)
      → exchanged ≡ err e
      → e.kind ≡ kind
      → Completed (err (raised (transport_error kind)))
  unfolding transport_error new
  told-unreached e TransportErrorKind.timed_out p q =
      unreached e _ p (subst (λ k. NotReached k TargetErrorKind.timeout) (sym q) late) refl
  told-unreached e TransportErrorKind.not_connected p q =
      unreached e _ p (subst (λ k. NotReached k TargetErrorKind.connection_error) (sym q) lost) refl

  received :
      (x : Result TransportError OutboundResponse) (f : OutboundResponse → Native ChatResponse)
      → exchanged ≡ x
      → ((response : OutboundResponse) → exchanged ≡ ok response → Completed (f response))
      → Completed (reached x >>= f)
  unfolding reached
  received (err e) f p k = told-unreached e e.kind p refl
  received (ok response) f p k = k response p

  checked :
      (t : Bool) (e : Trouble) (k : Native ChatResponse)
      → (t ≡ false → Completed (err e))
      → (t ≡ true → Completed k)
      → Completed (ensure t e >> k)
  checked false e k h h' = h refl
  checked true e k h h' = h' refl

  told-refused :
      (response : OutboundResponse)
      → exchanged ≡ ok response
      → is_success response.status ≡ false
      → Completed (err (raised (from_upstream_status response.status)))
  unfolding from_upstream_status new is_success
  told-refused response p q =
      refused response _ p (ground (arith, q)) (status_kind-Classified response.status) refl

  is_success-Succeeds :
      (response : OutboundResponse)
      → exchanged ≡ ok response
      → is_success response.status ≡ true
      → Succeeds response
  unfolding is_success
  is_success-Succeeds response p q = record {
    exchange = p;
    from_200 = ground (arith, q);
    to_299 = ground (arith, q);
  }

  -- Trouble of the parser, by what it is.
  told-unreadable :
      (response : OutboundResponse) (e : Trouble)
      → Succeeds response
      → length response.body ≤ 8388608
      → parsed response ≡ err e
      → Broken (suc (length response.body)) response.body e
      → Completed (err e)
  unfolding new
  told-unreadable response e s fits p (inl same) =
      subst (λ x. Completed (err x)) (sym same)
        (unreadable response invalid s fits (p ∙ ap err same) (refl, refl))
  told-unreadable response e s fits p (inr (same, panics)) =
      subst (λ x. Completed (err x)) (sym same) (crashed response s fits panics)

  understood :
      (x : Native NativeResponse) (f : NativeResponse → Native ChatResponse)
      → ((e : Trouble) → x ≡ err e → Completed (err e))
      → ((native : NativeResponse) → x ≡ ok native → Completed (f native))
      → Completed (x >>= f)
  understood (ok native) f h k = k native refl
  understood (err e) f h k = h e refl

  told-incoherent :
      (response : OutboundResponse) (native : NativeResponse) (e : ResponseError)
      → Succeeds response
      → length response.body ≤ 8388608
      → parsed response ≡ ok native
      → normalize_response request (for_model created next_id) native (next_id + 1) ≡ err e
      → Completed (err (raised (response_error e)))
  unfolding response_error new
  told-incoherent response native ResponseError.overloaded s fits p h =
      incoherent response native _ _ s fits p h overload refl
  told-incoherent response native (ResponseError.invalid_response message) s fits p h =
      incoherent response native _ _ s fits p h (misfit message) refl

  settled :
      (x : Result ResponseError ChatResponse)
      → ((e : ResponseError) → x ≡ err e → Completed (err (raised (response_error e))))
      → ((r : ChatResponse) → x ≡ ok r → Completed (ok r))
      → Completed (normalized x)
  unfolding normalized
  settled (err e) h k = h e refl
  settled (ok r) h k = k r refl

  -- `complete` answers in one of these ways. A failure of the transport is told as a timeout or a
  -- connection error. A status outside 200 to 299 is told with the status and by its own kind,
  -- whatever the body: 401 authentication, 403 permission, 408 and 504 timeout, 429 rate limit, any
  -- other 4xx a rejected request, 503 and 529 overload, and all else an HTTP error. A body of more
  -- than 8 MiB is an invalid response, and so is a body that is no native completion, except that
  -- the call panics where the JSON parser panics on the body. A native completion that does not fit
  -- the request is invalid, or overload if it says so. An answer comes from a 2xx response of at
  -- most 8 MiB with exactly one choice, and is canonical for the request and that choice if it has
  -- fewer than 2^64 calls.
  pub complete-Completed : Completed (complete provider request created next_id)
  unfolding complete
  complete-Completed = received exchanged _ refl λ response p.
      checked (is_success response.status) _ _ (told-refused response p) λ q.
        let s = is_success-Succeeds response p q in
        checked (leb (length response.body) max_buffered_response_bytes) _ _
          (λ long. too_long response _ s (leb-false→lt _ _ long) (unfold new in (refl, refl)))
          λ short.
            let fits = leb→le _ _ short in
            understood (parsed response) _
              (λ e broken.
                told-unreadable response e s fits broken (parse_response-Broken _ _ _ e broken))
              λ native n.
                settled
                  (normalize_response request (for_model created next_id) native (next_id + 1))
                  (λ e h. told-incoherent response native e s fits n h)
                  λ r h.
                    let (choice, one, canonical) =
                      single native.choices native.usage request (for_model created next_id)
                        (next_id + 1) r h in
                    answered response native choice r s fits n one canonical
