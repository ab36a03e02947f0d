-- ===== src/Server/StreamDispatch/Started.antt =====
-- Which target a stream is committed to (src/server.rs, dispatch_stream_route).
use nano_llm.Common.{
  ℕ, ◌+◌, ◌*◌, ◌≤◌, ◌<◌, ◌≡◌, refl, sym, subst, ◌∙◌, text_eq_iff, true, false, Option, none, some,
  List, [], ◌∷◌, ◌++◌, arith, leb, leb→le, leb-false→lt, Bool-cases, Option-cases, inl, inr, Result,
  ok, err,
}
use mathlib.Core.List.{append-nil, append_assoc}
use nano_llm.Config.{RuntimeTarget}
use nano_llm.Request.{CanonicalRequest}
use nano_llm.Response.Stream.{ChatChunk}
use nano_llm.Provider.{TargetError, new, timed_out, invalid, ProviderStream, ready, World}
use nano_llm.Server.Dispatch.{
  AttemptOutcome, AttemptRecord, RouteExhausted, DeadlineOutcome, route_diagnostics,
  route_exhausted, attempt_at, second, saturating_add,
}
use nano_llm.Server.Dispatch.Failover.{
  FailsBy, AllFailed, start, more, Exhausted, all_failed, overall_expired, gone_between,
  gone_during, budget,
}
use nano_llm.Server.Dispatch.Waits.{came, late, slow, gone, WaitedFor, block_on_until-Waited}
use nano_llm.Server.Gate.{first}
use nano_llm.Server.StreamDispatch.{
  StreamRouteDispatch, StreamDispatched, gone_at, opens, committed, take_first, pull_first, connect,
  try_streams, dispatch_stream_route,
}
use nano_llm.Server.StreamDispatch.Opening.{
  Pulled, Opened, NoOpening, ends_at_once, no_start, other_model, StreamFails, setup_failed,
  too_slow, first_failed, opened_none,
}

module _ (w : World) (request : CanonicalRequest) (overall : ℕ) where
  -- What `dispatch_stream_route` returns on a route whose first target is tried at t0, and at which
  -- moment.
  pub data Started (t0 : ℕ) (route : List RuntimeTarget) (t' : ℕ)
      : Result RouteExhausted StreamRouteDispatch → Type 0 where
    by_target :
        (n t : ℕ) (before after : List RuntimeTarget) (failures : List AttemptRecord)
        (target : RuntimeTarget) (d : StreamRouteDispatch)
        → AllFailed (StreamFails w request overall) t0 n before failures t
        → route ≡ before ++ target ∷ after
        → Opened w request overall target t t' d
        → d.attempts ≡ failures ++ attempt_at n target AttemptOutcome.succeeded ∷ []
        → d.diagnostics ≡ route_diagnostics request d.attempts
        → d.idle_timeout ≡ target.timeout * second
        → d.include_usage ≡ request.include_usage
        → Started t0 route t' (ok d)
    exhausted :
        {e : RouteExhausted}
        → Exhausted (StreamFails w request overall) t0 w request overall route t' e
        → Started t0 route t' (err e)

module _ (w : World) (fuel : ℕ) (request : CanonicalRequest) (overall t0 : ℕ) where
  abbrev Fails : FailsBy
  Fails = StreamFails w request overall

  abbrev StartedIf : List RuntimeTarget → StreamDispatched w fuel request → Type 0
  StartedIf route none = Unit
  StartedIf route (some (r, t)) = Started w request overall t0 route t r

  -- The rest of the loop serves the route from any further record of failures.
  abbrev Continues :
      List RuntimeTarget
      → ℕ
      → List RuntimeTarget
      → (List AttemptRecord → ℕ → StreamDispatched w fuel request)
      → Type 0
  Continues route n before next =
      (attempts : List AttemptRecord) (t : ℕ)
      → AllFailed Fails t0 n before attempts t
      → StartedIf route (next attempts t)

  opens-NoOpening :
      (item : Option (Result TargetError ChatChunk)) (chunk : ChatChunk)
      → item ≡ some (ok chunk)
      → opens w fuel request chunk ≡ false
      → NoOpening w request overall item
  unfolding opens
  opens-NoOpening item chunk same closed = elim (Option-cases (first chunk request.include_usage)) [
    | inl missing ↦ no_start chunk same missing
    | inr (g, found) ↦ other_model chunk same λ requested.
        absurd (ground (arith, found, (text_eq_iff chunk.model request.model).1 requested))
  ]

  module _ (route before after : List RuntimeTarget) (target : RuntimeTarget) (n t : ℕ)
      (failures : List AttemptRecord) (failed_so_far : AllFailed Fails t0 n before failures t)
      (here : route ≡ before ++ target ∷ after)
      (next : List AttemptRecord → ℕ → StreamDispatched w fuel request)
      (k : Continues route (n + 1) (before ++ target ∷ []) next) where
    abbrev deadline : ℕ
    deadline = budget w request overall target t

    -- One more failure.
    fails :
        (error : TargetError) (t' : ℕ)
        → Fails target t t' error.kind error.upstream_status
        → StartedIf route (
            next
              (failures
                ++ attempt_at n target (AttemptOutcome.failed error.kind error.upstream_status)
                  ∷ [])
              t')
    fails error t' why =
        k _ t' (more failed_so_far target error.kind error.upstream_status t' why refl refl refl)

    is_slow :
        (moment t' : ℕ)
        → t + 3 ≤ moment
        → deadline ≤ w.now moment
        → t' ≡ moment + 1
        → StartedIf route (
            next
              (failures
                ++ attempt_at n target
                    (AttemptOutcome.failed timed_out.kind timed_out.upstream_status)
                  ∷ [])
              t')
    unfolding new
    is_slow moment t' le p ended = fails timed_out t' (too_slow moment le p ended refl refl)

    is_late :
        (moment t' : ℕ)
        → t ≤ moment
        → overall ≤ w.now moment
        → t' ≡ moment + 1
        → StartedIf route (some (err (route_exhausted request failures true false), t'))
    is_late moment t' le p ended = exhausted (
        overall_expired n t before (target ∷ after) failures _ moment failed_so_far here le p ended
          refl)

    is_gone :
        (moment t' : ℕ)
        → t ≤ moment
        → w.cancelled moment ≡ true
        → t' ≡ moment + 1
        → StartedIf route (gone_at w fuel request n target failures t')
    is_gone moment t' le p ended =
        exhausted
          (gone_during n t before after failures target _ moment failed_so_far here le p ended refl)

    opened :
        (stream : ProviderStream) (chunk : ChatChunk) (t' : ℕ)
        → Pulled w request overall target t t' stream
        → stream 0 ≡ some (ok chunk)
        → opens w fuel request chunk ≡ true
        → Opened w request overall target t t'
            (committed w fuel request n target failures stream chunk)
    unfolding opens committed
    opened stream chunk t' pulled item fine = record {
      pulled = pulled;
      first_item = item;
      accepted = elim (Option-cases (first chunk request.include_usage)) [
        | inl missing ↦ absurd (ground (arith, missing))
        | inr found ↦ found
      ];
      requested = (text_eq_iff chunk.model request.model).0 (ground arith);
    }

    take_first-Started :
        (stream : ProviderStream) (item : Option (Result TargetError ChatChunk)) (t' : ℕ)
        → Pulled w request overall target t t' stream
        → stream 0 ≡ item
        → StartedIf route (take_first w fuel request n target failures stream item t' next)
    unfolding take_first new
    take_first-Started stream (some (ok chunk)) t' pulled item =
        elim (Bool-cases (opens w fuel request chunk)) [
          | inl p ↦ rw p (
              by_target n t before after failures target _ failed_so_far here
                (opened stream chunk t' pulled item p) (unfold committed in refl)
                (unfold committed in refl) (unfold committed in refl) (unfold committed in refl))
          | inr p ↦ rw p (
              fails invalid t'
                (opened_none stream pulled (opens-NoOpening _ chunk item p) refl refl))
        ]
    take_first-Started stream (some (err error)) t' pulled item =
        fails error t' (first_failed stream error pulled item refl refl)
    take_first-Started stream none t' pulled item =
        fails invalid t' (opened_none stream pulled (ends_at_once item) refl refl)

    pull_first-Started :
        (stream : ProviderStream) (t1 moment : ℕ)
        → t + 3 ≤ moment
        → (w.provider_factory target).complete_stream request moment ≡ ready (ok stream)
        → t1 ≡ moment + 3
        → StartedIf route
            (pull_first w fuel request deadline overall n target failures stream t1 next)
    unfolding pull_first
    pull_first-Started stream t1 moment begun e same = elim (Bool-cases (w.cancelled t1)) [
      | inl p ↦ rw p (is_gone t1 (t1 + 1) (omega arith) p refl)
      | inr p ↦ rw p (elim (Bool-cases (leb overall (w.now (t1 + 1)))) [
        | inl q ↦ rw q (is_late (t1 + 1) (t1 + 2) (omega arith) (leb→le _ _ q) (omega arith))
        | inr q ↦ rw q (elim (Bool-cases (leb deadline (w.now (t1 + 2)))) [
          | inl r ↦ rw r (is_slow (t1 + 2) (t1 + 3) (omega arith) (leb→le _ _ r) (omega arith))
          | inr r ↦ rw r (elim (Bool-cases (leb overall (w.now (t1 + 3)))) [
            | inl u ↦ rw u (is_late (t1 + 3) (t1 + 4) (omega arith) (leb→le _ _ u) (omega arith))
            | inr u ↦ rw u (elim (Bool-cases (w.cancelled (t1 + 4))) [
              | inl v ↦ rw v (is_gone (t1 + 4) (t1 + 5) (omega arith) v (omega arith))
              | inr v ↦ rw v (elim (Bool-cases (leb deadline (w.now (t1 + 5)))) [
                | inl x ↦
                    rw x (is_slow (t1 + 5) (t1 + 6) (omega arith) (leb→le _ _ x) (omega arith))
                | inr x ↦ rw x (
                    take_first-Started stream (stream 0) (t1 + 6)
                      (record {
                        moment = moment;
                        begun = begun;
                        connected = e;
                        in_time = subst (λ m. w.now m < overall) (omega arith) (leb-false→lt _ _ u);
                        in_budget =
                            subst (λ m. w.now m < deadline) (omega arith) (leb-false→lt _ _ x);
                        ended = omega arith;
                      })
                      refl)
              ])
            ])
          ])
        ])
      ])
    ]

    connect-Started :
        (o : Option (Result DeadlineOutcome (Result TargetError ProviderStream) × ℕ))
        → WaitedFor w
            ((w.provider_factory target).complete_stream request)
            deadline
            overall
            (t + 3)
            o
        → StartedIf route (connect w fuel request deadline overall n target failures o next)
    unfolding connect
    connect-Started none h = tt
    connect-Started (some (ok (ok stream), t1)) (came moment _ begun e early fits ended) =
        pull_first-Started stream t1 moment (omega arith) e ended
    connect-Started (some (ok (err error), t1)) (came moment _ begun e early fits ended) =
        fails error t1 (setup_failed error moment (omega arith) e early fits ended refl refl)
    connect-Started (some (err DeadlineOutcome.attempt_timeout, t1)) (slow moment begun p ended) =
        is_slow moment t1 begun p ended
    connect-Started (some (err DeadlineOutcome.overall_timeout, t1)) (late moment begun p ended) =
        is_late moment t1 (omega arith) p ended
    connect-Started (some (err DeadlineOutcome.cancelled, t1)) (gone moment begun p ended) =
        is_gone moment t1 (omega arith) p ended

  try_streams-Started :
      (targets route before : List RuntimeTarget) (n : ℕ) (failures : List AttemptRecord) (t : ℕ)
      → AllFailed Fails t0 n before failures t
      → route ≡ before ++ targets
      → StartedIf route (try_streams w fuel request overall n targets failures t)
  unfolding try_streams
  try_streams-Started [] route before n failures t h here = exhausted (
      all_failed n failures _
        (subst (λ r. AllFailed Fails t0 n r failures t) (sym (here ∙ append-nil before)) h) refl)
  try_streams-Started (target ∷ targets) route before n failures t h here =
      let next : List AttemptRecord → ℕ → StreamDispatched w fuel request =
        λ attempts t'. try_streams w fuel request overall (n + 1) targets attempts t' in
      let more_targets : Continues route (n + 1) (before ++ target ∷ []) next = λ attempts t' k.
        try_streams-Started targets route (before ++ target ∷ []) (n + 1) attempts t' k
          (here ∙ sym (append_assoc before (target ∷ []) targets)) in
      elim (Bool-cases (w.cancelled t)) [
        | inl p ↦ rw p (
            exhausted (
              gone_between n t before (target ∷ targets) failures _ t h here (omega arith) p refl
                refl))
        | inr p ↦ rw p (elim (Bool-cases (leb overall (w.now (t + 1)))) [
          | inl q ↦ rw q (
              is_late route before targets target n t failures h here next more_targets (t + 1)
                (t + 2) (omega arith) (leb→le _ _ q) (omega arith))
          | inr q ↦ rw q (elim (Bool-cases (leb overall (w.now (t + 2)))) [
            | inl r ↦ rw r (
                is_late route before targets target n t failures h here next more_targets (t + 2)
                  (t + 3) (omega arith) (leb→le _ _ r) (omega arith))
            | inr r ↦ rw r (
                connect-Started route before targets target n t failures h here next more_targets _
                  (block_on_until-Waited w ((w.provider_factory target).complete_stream request) _
                    overall fuel (t + 3)))
          ])
        ])
      ]

-- `dispatch_stream_route` commits a stream as configured. The targets are tried in file order, each
-- from the moment at which the one before it failed. A success is the first target whose stream was
-- set up and gave, before the deadline that its own timeout sets from the start of its attempt and
-- before the overall deadline, a first chunk that the server's check accepts as an opening by the
-- requested model; that target's timeout is the idle limit. There is one recorded failure for each
-- earlier target: an error of its setup or of its first item, with its kind and upstream status, a
-- timeout when the attempt's deadline had passed, or an invalid response where the stream ended or
-- its first chunk opens none. An error says that every target failed once, or that the overall
-- deadline had passed, or that the client was gone, at the moment before the one it returns at, and
-- which attempts had been made by then.
pub dispatch_stream_route-Started :
    (w : World) (fuel : ℕ) (request : CanonicalRequest) (seconds : ℕ) (route : List RuntimeTarget)
    (t t' : ℕ) (r : Result RouteExhausted StreamRouteDispatch)
    → dispatch_stream_route w fuel request seconds route t ≡ some (r, t')
    → Started w request (saturating_add (w.now t) (seconds * second)) (t + 1) route t' r
unfolding dispatch_stream_route
dispatch_stream_route-Started w fuel request seconds route t t' r e =
    let overall = saturating_add (w.now t) (seconds * second) in
    subst (StartedIf w fuel request overall (t + 1) route) e
      (try_streams-Started w fuel request overall (t + 1) route route [] 0 [] (t + 1) start refl)
