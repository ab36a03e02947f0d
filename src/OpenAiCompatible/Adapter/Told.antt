-- ===== src/OpenAiCompatible/Adapter/Told.antt =====
-- The kinds of target errors that `complete` of src/openai_compatible.rs tells (src/providers.rs,
-- from_upstream_status), stated apart from the code.
use nano_llm.Common.{
  Text, ◌≢◌, ◌&&◌, ◌||◌, ==→eq, arith, ℕ, ◌<◌, ◌≤◌, ◌≡◌, ◌⊎◌, inl, inr, leb, Bool-cases, ◌==◌,
}
use nano_llm.Provider.{TargetErrorKind, status_kind}
use nano_llm.Provider.Transport.{TransportErrorKind}
use nano_llm.Response.{ResponseError}

-- What a failure of the transport is told as.
pub data NotReached : TransportErrorKind → TargetErrorKind → Type 0 where
  late : NotReached TransportErrorKind.timed_out TargetErrorKind.timeout
  lost : NotReached TransportErrorKind.not_connected TargetErrorKind.connection_error

-- What a status that is no success is told as.
pub data Classified (status : ℕ) : TargetErrorKind → Type 0 where
  unauthorized : status ≡ 401 → Classified status TargetErrorKind.authentication
  forbidden : status ≡ 403 → Classified status TargetErrorKind.permission_denied
  slow : (status ≡ 408) ⊎ (status ≡ 504) → Classified status TargetErrorKind.timeout
  limited : status ≡ 429 → Classified status TargetErrorKind.rate_limited
  other_client :
      400 ≤ status
      → status < 500
      → (status ≢ 401) × (status ≢ 403) × (status ≢ 408) × (status ≢ 429)
      → Classified status TargetErrorKind.rejected_request
  busy : (status ≡ 503) ⊎ (status ≡ 529) → Classified status TargetErrorKind.overloaded
  other :
      (status < 400) ⊎ (500 ≤ status)
      → (status ≢ 503) × (status ≢ 504) × (status ≢ 529)
      → Classified status TargetErrorKind.upstream_http

-- What a completion that does not fit the request is told as.
pub data Incoherent : ResponseError → TargetErrorKind → Type 0 where
  overload : Incoherent ResponseError.overloaded TargetErrorKind.overloaded
  misfit :
      (message : Text)
      → Incoherent (ResponseError.invalid_response message) TargetErrorKind.invalid_response

pub status_kind-Classified : (status : ℕ) → Classified status (status_kind status)
unfolding status_kind
status_kind-Classified status = elim (Bool-cases (status == 401)) [
  | inl a ↦ rw a (unauthorized (==→eq status 401 a))
  | inr a ↦ rw a (elim (Bool-cases (status == 403)) [
    | inl b ↦ rw b (forbidden (==→eq status 403 b))
    | inr b ↦ rw b (elim (Bool-cases (status == 408 || status == 504)) [
      | inl c ↦ rw c (slow (ground (arith, c)))
      | inr c ↦ rw c (elim (Bool-cases (status == 429)) [
        | inl d ↦ rw d (limited (==→eq status 429 d))
        | inr d ↦ rw d (elim (Bool-cases (leb 400 status && leb status 499)) [
          | inl e ↦ rw e (
              other_client (ground (arith, e)) (ground (arith, e)) (
                λ h. ground (arith, a, h),
                λ h. ground (arith, b, h),
                λ h. ground (arith, c, h),
                λ h. ground (arith, d, h),
              ))
          | inr e ↦ rw e (elim (Bool-cases (status == 503 || status == 529)) [
            | inl f ↦ rw f (busy (ground (arith, f)))
            | inr f ↦ rw f (
                other (ground (arith, e))
                  (λ h. ground (arith, f, h), λ h. ground (arith, c, h), λ h. ground (arith, f, h)))
          ])
        ])
      ])
    ])
  ])
]
