-- ===== src/Server/Dispatch/Failover.antt =====
-- Fixed-priority failover (src/server.rs, dispatch_route): which target answers, and what the record
-- of attempts says.
use nano_llm.Common.{
  ℕ, ◌+◌, ◌*◌, ◌≤◌, ◌<◌, min, ◌≡◌, refl, sym, subst, ◌∙◌, true, false, Option, none, some, List, [],
  ◌∷◌, ◌++◌, arith, leb, leb→le, Bool-cases, inl, inr, Result, ok, err,
}
use mathlib.Core.List.{append-nil, append_assoc}
use nano_llm.Config.{RuntimeTarget}
use nano_llm.Request.{CanonicalRequest}
use nano_llm.Response.{ChatResponse}
use nano_llm.Provider.{TargetError, new, timed_out, TargetErrorKind, ready, World}
use nano_llm.Server.Dispatch.{
  AttemptOutcome, AttemptRecord, RouteDispatch, RouteExhausted, DeadlineOutcome, route_diagnostics,
  route_exhausted, attempt_at, second, saturating_add, block_on_until, Dispatched, conclude,
  try_targets, dispatch_route,
}
use nano_llm.Server.Dispatch.Waits.{came, late, slow, gone, WaitedFor, block_on_until-Waited}

-- How the attempt on a target can fail: the moments before and after it, and what the record says.
abbrev pub FailsBy : Type 1
FailsBy = RuntimeTarget → ℕ → ℕ → TargetErrorKind → Option ℕ → Type 0

module _ (Fails : FailsBy) (t0 : ℕ) where
  -- The k-th target failed and the k-th record says how; the last moment is the one after them.
  pub data AllFailed : ℕ → List RuntimeTarget → List AttemptRecord → ℕ → Type 0 where
    start : AllFailed 0 [] [] t0
    more :
        {n m t : ℕ} {targets : List RuntimeTarget} {attempts : List AttemptRecord}
        → AllFailed n targets attempts t
        → (target : RuntimeTarget) (kind : TargetErrorKind) (status : Option ℕ) (t' : ℕ)
        → Fails target t t' kind status
        → {targets' : List RuntimeTarget} {attempts' : List AttemptRecord} → m ≡ n + 1
        → targets' ≡ targets ++ target ∷ []
        → attempts' ≡ attempts ++ attempt_at n target (AttemptOutcome.failed kind status) ∷ []
        → AllFailed m targets' attempts' t'

  -- How a route ends without an answer, and at which moment.
  pub data Exhausted (w : World) (request : CanonicalRequest) (overall : ℕ)
      (route : List RuntimeTarget) (t' : ℕ) : RouteExhausted → Type 0 where
    all_failed :
        (n : ℕ) (failures : List AttemptRecord) (e : RouteExhausted)
        → AllFailed n route failures t'
        → e ≡ route_exhausted request failures false false
        → Exhausted w request overall route t' e
    overall_expired :
        (n t : ℕ) (before after : List RuntimeTarget) (failures : List AttemptRecord)
        (e : RouteExhausted) (moment : ℕ)
        → AllFailed n before failures t
        → route ≡ before ++ after
        → t ≤ moment
        → overall ≤ w.now moment
        → t' ≡ moment + 1
        → e ≡ route_exhausted request failures true false
        → Exhausted w request overall route t' e
    gone_between :
        (n t : ℕ) (before after : List RuntimeTarget) (failures : List AttemptRecord)
        (e : RouteExhausted) (moment : ℕ)
        → AllFailed n before failures t
        → route ≡ before ++ after
        → t ≤ moment
        → w.cancelled moment ≡ true
        → t' ≡ moment + 1
        → e ≡ route_exhausted request failures false true
        → Exhausted w request overall route t' e
    gone_during :
        (n t : ℕ) (before after : List RuntimeTarget) (failures : List AttemptRecord)
        (target : RuntimeTarget) (e : RouteExhausted) (moment : ℕ)
        → AllFailed n before failures t
        → route ≡ before ++ target ∷ after
        → t ≤ moment
        → w.cancelled moment ≡ true
        → t' ≡ moment + 1
        → e
          ≡ route_exhausted request
              (failures ++ attempt_at n target AttemptOutcome.cancelled ∷ [])
              false
              true
        → Exhausted w request overall route t' e

module _ (w : World) (request : CanonicalRequest) (overall : ℕ) where
  -- The deadline of the attempt that starts at t.
  abbrev pub budget : RuntimeTarget → ℕ → ℕ
  budget target t = min (saturating_add (w.now (t + 2)) (target.timeout * second)) overall

  -- The attempt that starts at t gave the value at a moment when neither deadline had passed; t' is
  -- the moment after it.
  pub record Answered (target : RuntimeTarget) (t t' : ℕ) (value : Result TargetError ChatResponse)
      : Type 0 where
    pub moment : ℕ
    pub begun : t + 4 ≤ moment
    pub given : (w.provider_factory target).complete request moment ≡ ready value
    pub in_time : w.now (moment + 1) < overall
    pub in_budget : w.now (moment + 2) < budget target t
    pub ended : t' ≡ moment + 3

  -- How a buffered attempt fails.
  pub data AttemptFails (target : RuntimeTarget) (t t' : ℕ) (kind : TargetErrorKind)
      (status : Option ℕ) : Type 0 where
    answered_error :
        (error : TargetError)
        → Answered target t t' (err error)
        → kind ≡ error.kind
        → status ≡ error.upstream_status
        → AttemptFails target t t' kind status
    too_slow :
        (moment : ℕ)
        → t + 4 ≤ moment
        → budget target t ≤ w.now moment
        → t' ≡ moment + 1
        → kind ≡ TargetErrorKind.timeout
        → status ≡ none
        → AttemptFails target t t' kind status

  -- What `dispatch_route` returns on a route whose first target is tried at t0, and at which moment.
  pub data Served (t0 : ℕ) (route : List RuntimeTarget) (t' : ℕ)
      : Result RouteExhausted RouteDispatch → Type 0 where
    by_target :
        (n t : ℕ) (before after : List RuntimeTarget) (failures : List AttemptRecord)
        (target : RuntimeTarget) (d : RouteDispatch)
        → AllFailed AttemptFails t0 n before failures t
        → route ≡ before ++ target ∷ after
        → Answered target t t' (ok d.response)
        → d.attempts ≡ failures ++ attempt_at n target AttemptOutcome.succeeded ∷ []
        → d.diagnostics ≡ route_diagnostics request d.attempts
        → Served t0 route t' (ok d)
    exhausted :
        {e : RouteExhausted}
        → Exhausted AttemptFails t0 w request overall route t' e
        → Served t0 route t' (err e)

module _ (w : World) (fuel : ℕ) (request : CanonicalRequest) (overall t0 : ℕ) where
  abbrev Fails : FailsBy
  Fails = AttemptFails w request overall

  abbrev ServedIf : List RuntimeTarget → Dispatched w fuel request → Type 0
  ServedIf route none = Unit
  ServedIf route (some (r, t)) = Served w request overall t0 route t r

  -- The rest of the loop serves the route from any further record of failures.
  abbrev Continues :
      List RuntimeTarget
      → ℕ
      → List RuntimeTarget
      → (List AttemptRecord → ℕ → Dispatched w fuel request)
      → Type 0
  Continues route n before next =
      (attempts : List AttemptRecord) (t : ℕ)
      → AllFailed Fails t0 n before attempts t
      → ServedIf route (next attempts t)

  module _ (route before after : List RuntimeTarget) (target : RuntimeTarget) (n t : ℕ)
      (failures : List AttemptRecord) (failed_so_far : AllFailed Fails t0 n before failures t)
      (here : route ≡ before ++ target ∷ after) where
    conclude-Served :
        (o : Option (Result DeadlineOutcome (Result TargetError ChatResponse) × ℕ))
        (next : List AttemptRecord → ℕ → Dispatched w fuel request)
        → WaitedFor w
            ((w.provider_factory target).complete request)
            (budget w request overall target t)
            overall
            (t + 4)
            o
        → Continues route (n + 1) (before ++ target ∷ []) next
        → ServedIf route (conclude w fuel request n target failures o next)
    unfolding conclude new
    conclude-Served none next h k = tt
    conclude-Served (some (ok (ok response), t')) next (came moment _ begun e early fits ended) k =
        by_target n t before after failures target _ failed_so_far here
          (record {
            moment = moment;
            begun = omega arith;
            given = e;
            in_time = early;
            in_budget = fits;
            ended = ended;
          })
          refl refl
    conclude-Served (some (ok (err error), t')) next (came moment _ begun e early fits ended) k =
        k _ t' (
          more failed_so_far target error.kind error.upstream_status t'
            (answered_error error
              (record {
                moment = moment;
                begun = omega arith;
                given = e;
                in_time = early;
                in_budget = fits;
                ended = ended;
              })
              refl refl)
            refl refl refl)
    conclude-Served (some (err DeadlineOutcome.attempt_timeout, t')) next
          (slow moment begun p ended) k =
        k _ t' (
          more failed_so_far target timed_out.kind timed_out.upstream_status t'
            (too_slow moment (omega arith) p ended refl refl) refl refl refl)
    conclude-Served (some (err DeadlineOutcome.overall_timeout, t')) next
          (late moment begun p ended) k =
        exhausted (
          overall_expired n t before (target ∷ after) failures _ moment failed_so_far here
            (omega arith) p ended refl)
    conclude-Served (some (err DeadlineOutcome.cancelled, t')) next (gone moment begun p ended) k =
        exhausted (
          gone_during n t before after failures target _ moment failed_so_far here (omega arith) p
            ended refl)

  try_targets-Served :
      (targets route before : List RuntimeTarget) (n : ℕ) (failures : List AttemptRecord) (t : ℕ)
      → AllFailed Fails t0 n before failures t
      → route ≡ before ++ targets
      → ServedIf route (try_targets w fuel request overall n targets failures t)
  unfolding try_targets
  try_targets-Served [] route before n failures t h here = exhausted (
      all_failed n failures _
        (subst (λ r. AllFailed Fails t0 n r failures t) (sym (here ∙ append-nil before)) h) refl)
  try_targets-Served (target ∷ targets) route before n failures t h here =
      elim (Bool-cases (w.cancelled t)) [
        | inl p ↦ rw p (
            exhausted (
              gone_between n t before (target ∷ targets) failures _ t h here (omega arith) p refl
                refl))
        | inr p ↦ rw p (elim (Bool-cases (leb overall (w.now (t + 1)))) [
          | inl q ↦ rw q (
              exhausted (
                overall_expired n t before (target ∷ targets) failures _ (t + 1) h here
                  (omega arith) (leb→le _ _ q) (omega arith) refl))
          | inr q ↦ rw q (elim (Bool-cases (leb overall (w.now (t + 2)))) [
            | inl r ↦ rw r (
                exhausted (
                  overall_expired n t before (target ∷ targets) failures _ (t + 2) h here
                    (omega arith) (leb→le _ _ r) (omega arith) refl))
            | inr r ↦ rw r (elim (Bool-cases (w.cancelled (t + 3))) [
              | inl u ↦ rw u (
                  exhausted (
                    gone_between n t before (target ∷ targets) failures _ (t + 3) h here
                      (omega arith) u (omega arith) refl))
              | inr u ↦ rw u (
                  conclude-Served route before targets target n t failures h here
                    (block_on_until w fuel ((w.provider_factory target).complete request)
                      (budget w request overall target t) overall (t + 4))
                    _
                    (block_on_until-Waited w ((w.provider_factory target).complete request) _
                      overall fuel (t + 4))
                    λ attempts t' k.
                      try_targets-Served targets route (before ++ target ∷ []) (n + 1) attempts t' k
                        (here ∙ sym (append_assoc before (target ∷ []) targets)))
            ])
          ])
        ])
      ]

-- `dispatch_route` serves the route as configured: whatever it returns is one of the five outcomes
-- of `Served`. The targets are tried in file order, each from the moment at which the one before
-- it failed. A success is the answer of the first target that did not fail, given before the
-- deadline that its own timeout sets from the start of its attempt and before the overall deadline.
-- There is one recorded failure for each earlier target: an error that its provider gave in that
-- time, recorded with its kind and upstream status, or a timeout when the attempt's deadline had
-- passed. An error says that every target failed once, or that the overall deadline had passed, or
-- that the client was gone, at the moment before the one it returns at, and which attempts had been
-- made by then.
pub dispatch_route-Served :
    (w : World) (fuel : ℕ) (request : CanonicalRequest) (seconds : ℕ) (route : List RuntimeTarget)
    (t t' : ℕ) (r : Result RouteExhausted RouteDispatch)
    → dispatch_route w fuel request seconds route t ≡ some (r, t')
    → Served w request (saturating_add (w.now t) (seconds * second)) (t + 1) route t' r
unfolding dispatch_route
dispatch_route-Served w fuel request seconds route t t' r e =
    let overall = saturating_add (w.now t) (seconds * second) in
    subst (ServedIf w fuel request overall (t + 1) route) e
      (try_targets-Served w fuel request overall (t + 1) route route [] 0 [] (t + 1) start refl)
