-- ===== src/Server/Dispatch.antt =====
-- Routing of src/server.rs: block_on_until, dispatch_route and the records of attempts. Durations
-- are nanoseconds; `t` numbers the observations of the World. `none` means that the fuel of
-- block_on_until ran out while a future was still pending.
pub mod Waits
pub mod Failover
pub mod Terminates
use nano_llm.Common.{
  ℕ, zero, suc, ◌+◌, ◌-◌, ◌*◌, ◌^◌, min, Text, Bool, true, false, Option, none, some, List, [], ◌∷◌,
  ◌++◌, leb, if◌then◌else◌, length, Result, ok, err,
}
use nano_llm.Config.{ProviderKind, RuntimeTarget}
use nano_llm.Request.{CanonicalRequest}
use nano_llm.Response.{ChatResponse}
use nano_llm.Provider.{
  TargetErrorKind, TargetError, timed_out, Poll, pending, ready, Provider, World,
}

pub data AttemptOutcome : Type 0 where
  succeeded cancelled : AttemptOutcome
  failed : (kind : TargetErrorKind) (upstream_status : Option ℕ) → AttemptOutcome

pub record AttemptRecord : Type 0 where
  pub route_index : ℕ
  pub provider : ProviderKind
  pub target_model : Text
  pub outcome : AttemptOutcome

pub record RouteDiagnostics : Type 0 where
  pub requested_model : Text
  pub selected_provider : Option ProviderKind
  pub selected_model : Option Text
  pub attempt_count : ℕ
  pub error_kind : Option TargetErrorKind
  pub upstream_status : Option ℕ

pub record RouteDispatch : Type 0 where
  pub response : ChatResponse
  pub attempts : List AttemptRecord
  pub diagnostics : RouteDiagnostics

pub record RouteExhausted : Type 0 where
  pub attempts : List AttemptRecord
  pub diagnostics : RouteDiagnostics
  pub overall_timeout : Bool
  pub cancelled : Bool

pub data DeadlineOutcome : Type 0 where
  attempt_timeout overall_timeout cancelled : DeadlineOutcome

abbrev pub last? : List AttemptRecord → Option AttemptRecord
last? [] = none
last? (a ∷ []) = some a
last? (a ∷ b ∷ attempts) = last? (b ∷ attempts)

error_of : AttemptOutcome → Option TargetErrorKind × Option ℕ
error_of (failed kind status) = (some kind, status)
error_of _ = (none, none)

diagnose : Text → ℕ → Option AttemptRecord → RouteDiagnostics
unfolding error_of
diagnose model count none = record {
  requested_model = model;
  selected_provider = none;
  selected_model = none;
  attempt_count = count;
  error_kind = none;
  upstream_status = none;
}
diagnose model count (some attempt) = record {
  requested_model = model;
  selected_provider = some attempt.provider;
  selected_model = some attempt.target_model;
  attempt_count = count;
  error_kind = (error_of attempt.outcome).0;
  upstream_status = (error_of attempt.outcome).1;
}

unfoldable pub route_diagnostics : CanonicalRequest → List AttemptRecord → RouteDiagnostics
unfolding diagnose
route_diagnostics request attempts = diagnose request.model (length attempts) (last? attempts)

unfoldable pub route_exhausted :
    CanonicalRequest → List AttemptRecord → (late gone : Bool) → RouteExhausted
unfolding route_diagnostics
route_exhausted request attempts late gone = record {
  attempts = attempts;
  diagnostics = route_diagnostics request attempts;
  overall_timeout = late;
  cancelled = gone;
}

abbrev pub attempt_at : ℕ → RuntimeTarget → AttemptOutcome → AttemptRecord
attempt_at route_index target outcome = record {
  route_index = route_index;
  provider = target.provider;
  target_model = target.model;
  outcome = outcome;
}

abbrev pub failed_attempt : ℕ → RuntimeTarget → TargetError → AttemptRecord
failed_attempt route_index target error =
    attempt_at route_index target (failed error.kind error.upstream_status)

abbrev pub second : ℕ
second = 1000000000

-- Duration::MAX
abbrev pub duration_max : ℕ
duration_max = 2 ^ 64 * second - 1

unfoldable pub saturating_add : ℕ → ℕ → ℕ
saturating_add a b = min (a + b) duration_max

module _ (w : World) where
  -- The poll returned: the deadlines are read again before the value counts.
  settle : {A : Type 0} → A → (attempt overall t : ℕ) → Result DeadlineOutcome A × ℕ
  settle value attempt overall t =
      if leb overall (w.now t)
      then (err DeadlineOutcome.overall_timeout, t + 1)
      else if leb attempt (w.now (t + 1))
      then (err DeadlineOutcome.attempt_timeout, t + 2)
      else (ok value, t + 2)

  -- The loop of `block_on_until`, one round for each unit of fuel.
  unfoldable pub block_on_until :
      {A : Type 0}
      → ℕ
      → (ℕ → Poll A)
      → (attempt overall t : ℕ) → Option (Result DeadlineOutcome A × ℕ)
  unfolding settle
  block_on_until zero poll attempt overall t = none
  block_on_until (suc fuel) poll attempt overall t =
      let again = block_on_until fuel poll attempt overall (t + 4) in
      if w.cancelled t
      then some (err DeadlineOutcome.cancelled, t + 1)
      else if leb overall (w.now (t + 1))
      then some (err DeadlineOutcome.overall_timeout, t + 2)
      else if leb attempt (w.now (t + 2))
      then some (err DeadlineOutcome.attempt_timeout, t + 3)
      else elim (poll (t + 3)) [
        | pending ↦ again
        | ready value ↦ some (settle value attempt overall (t + 4))
      ]

module _ (w : World) (fuel : ℕ) (request : CanonicalRequest) where
  abbrev pub Dispatched : Type 0
  Dispatched = Option (Result RouteExhausted RouteDispatch × ℕ)

  -- The match on the outcome of one attempt; `next` is the rest of the loop.
  conclude :
      ℕ
      → RuntimeTarget
      → List AttemptRecord
      → Option (Result DeadlineOutcome (Result TargetError ChatResponse) × ℕ)
      → (List AttemptRecord → ℕ → Dispatched)
      → Dispatched
  unfolding route_exhausted
  conclude route_index target attempts none next = none
  conclude route_index target attempts (some (ok (ok response), t)) next =
      let attempts' = attempts ++ attempt_at route_index target AttemptOutcome.succeeded ∷ [] in
      some (
        ok (record {
          response = response;
          attempts = attempts';
          diagnostics = route_diagnostics request attempts';
        }),
        t,
      )
  conclude route_index target attempts (some (ok (err error), t)) next =
      next (attempts ++ failed_attempt route_index target error ∷ []) t
  conclude route_index target attempts (some (err DeadlineOutcome.attempt_timeout, t)) next =
      next (attempts ++ failed_attempt route_index target timed_out ∷ []) t
  conclude route_index target attempts (some (err DeadlineOutcome.overall_timeout, t)) next =
      some (err (route_exhausted request attempts true false), t)
  conclude route_index target attempts (some (err DeadlineOutcome.cancelled, t)) next = some (
    err (
        route_exhausted request
          (attempts ++ attempt_at route_index target AttemptOutcome.cancelled ∷ []) false true),
    t,
  )

  -- The loop of `dispatch_route`.
  try_targets : (overall : ℕ) → ℕ → List RuntimeTarget → List AttemptRecord → ℕ → Dispatched
  unfolding conclude block_on_until
  try_targets overall route_index [] attempts t =
      some (err (route_exhausted request attempts false false), t)
  try_targets overall route_index (target ∷ targets) attempts t =
      let attempt = min (saturating_add (w.now (t + 2)) (target.timeout * second)) overall in
      let done =
        block_on_until w fuel ((w.provider_factory target).complete request) attempt overall
          (t + 4) in
      if w.cancelled t
      then some (err (route_exhausted request attempts false true), t + 1)
      else if leb overall (w.now (t + 1))
      then some (err (route_exhausted request attempts true false), t + 2)
      else if leb overall (w.now (t + 2))
      then some (err (route_exhausted request attempts true false), t + 3)
      else if w.cancelled (t + 3)
      then some (err (route_exhausted request attempts false true), t + 4)
      else conclude route_index target attempts done
          (λ attempts' t'. try_targets overall (route_index + 1) targets attempts' t')

  unfoldable pub dispatch_route : (seconds : ℕ) → List RuntimeTarget → ℕ → Dispatched
  unfolding try_targets saturating_add
  dispatch_route seconds targets t =
      try_targets (saturating_add (w.now t) (seconds * second)) 0 targets [] (t + 1)
