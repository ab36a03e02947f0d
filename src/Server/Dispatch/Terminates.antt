-- ===== src/Server/Dispatch/Terminates.antt =====
-- Routing ends (src/server.rs, block_on_until and dispatch_route), also where a provider never
-- answers, because the clock reaches the overall deadline.
use nano_llm.Common.{
  ℕ, zero, suc, ◌+◌, ◌*◌, ◌≤◌, ◌<◌, min, ◌≡◌, refl, true, Option, none, some, List, [], ◌∷◌, arith,
  is_some, Result, ok, err,
}
use nano_llm.Config.{RuntimeTarget}
use nano_llm.Request.{CanonicalRequest}
use nano_llm.Response.{ChatResponse}
use nano_llm.Provider.{TargetError, Poll, World}
use nano_llm.Server.Dispatch.{
  AttemptRecord, RouteDispatch, RouteExhausted, DeadlineOutcome, second, saturating_add,
  block_on_until, Dispatched, conclude, try_targets, dispatch_route,
}

module _ (w : World) (overall horizon : ℕ)
    (advances : (m : ℕ) → horizon ≤ m → overall ≤ w.now m) where
  -- Every round takes at least one moment, so the deadline is seen once they pass the horizon.
  block_on_until_total :
      {A : Type 0} (fuel : ℕ) (poll : ℕ → Poll A) (attempt t : ℕ)
      → horizon < t + fuel
      → 0 < fuel
      → is_some (block_on_until w fuel poll attempt overall t) ≡ true
  unfolding block_on_until
  block_on_until_total zero poll attempt t h k = elim k [ ]
  block_on_until_total (suc zero) poll attempt t h k = ground (arith, advances (t + 1))
  block_on_until_total (suc (suc fuel)) poll attempt t h k =
      ground (arith, block_on_until_total (suc fuel) poll attempt (t + 4))

  module _ (fuel : ℕ) (request : CanonicalRequest) where
    conclude_total :
        (n : ℕ) (target : RuntimeTarget) (attempts : List AttemptRecord)
        (o : Option (Result DeadlineOutcome (Result TargetError ChatResponse) × ℕ))
        (next : List AttemptRecord → ℕ → Dispatched w fuel request)
        → is_some o ≡ true
        → ((attempts' : List AttemptRecord) (t' : ℕ) → is_some (next attempts' t') ≡ true)
        → is_some (conclude w fuel request n target attempts o next) ≡ true
    unfolding conclude
    conclude_total n target attempts none next h k = cc
    conclude_total n target attempts (some (ok (ok response), t)) next h k = refl
    conclude_total n target attempts (some (ok (err error), t)) next h k = k _ t
    conclude_total n target attempts (some (err DeadlineOutcome.attempt_timeout, t)) next h k =
        k _ t
    conclude_total n target attempts (some (err DeadlineOutcome.overall_timeout, t)) next h k = refl
    conclude_total n target attempts (some (err DeadlineOutcome.cancelled, t)) next h k = refl

    try_targets_total :
        (targets : List RuntimeTarget) (n : ℕ) (attempts : List AttemptRecord) (t : ℕ)
        → horizon < fuel
        → is_some (try_targets w fuel request overall n targets attempts t) ≡ true
    unfolding try_targets
    try_targets_total [] n attempts t h = refl
    try_targets_total (target ∷ targets) n attempts t h = ground (
      arith,
      conclude_total n target attempts
          (block_on_until w fuel ((w.provider_factory target).complete request)
            (min (saturating_add (w.now (t + 2)) (target.timeout * second)) overall) overall
            (t + 4))
          (λ attempts' t'. try_targets w fuel request overall (n + 1) targets attempts' t')
          (block_on_until_total fuel ((w.provider_factory target).complete request)
            (min (saturating_add (w.now (t + 2)) (target.timeout * second)) overall) (t + 4)
            (omega arith) (omega arith))
          (λ attempts' t'. try_targets_total targets (n + 1) attempts' t' h),
    )

some_of : {A : Type 0} (o : Option A) → is_some o ≡ true → (a : A) × (o ≡ some a)
some_of none h = cc
some_of (some a) h = (a, refl)

-- If from some moment on the clock shows at least the overall deadline, then on more fuel than that
-- moment `dispatch_route` returns, whatever the providers and the client do.
pub dispatch_route_total :
    (w : World) (request : CanonicalRequest) (seconds : ℕ) (route : List RuntimeTarget)
    (t fuel horizon : ℕ)
    → ((m : ℕ) → horizon ≤ m → saturating_add (w.now t) (seconds * second) ≤ w.now m)
    → horizon < fuel
    → (r : Result RouteExhausted RouteDispatch × ℕ) × (dispatch_route w fuel request seconds route t
        ≡ some r)
unfolding dispatch_route
dispatch_route_total w request seconds route t fuel horizon advances h = some_of _ (
    try_targets_total w (saturating_add (w.now t) (seconds * second)) horizon advances fuel request
      route 0 [] (t + 1) h)
