-- ===== src/Server/Dispatch/Waits.antt =====
-- What waiting for a provider comes to (src/server.rs, block_on_until).
use nano_llm.Common.{
  ℕ, zero, suc, ◌+◌, ◌≤◌, ◌<◌, ◌≡◌, refl, subst, true, Option, none, some, arith, leb, leb→le,
  leb-false→lt, Bool-cases, inl, inr, Result, ok, err,
}
use nano_llm.Provider.{Poll, pending, ready, World}
use nano_llm.Server.Dispatch.{DeadlineOutcome, settle, block_on_until}

-- What `block_on_until` returns from a moment on, and the moment after it.
module _ (w : World) {A : Type 0} (poll : ℕ → Poll A) (attempt overall : ℕ) where
  pub data Waited (from until : ℕ) : Result DeadlineOutcome A → Type 0 where
    came :
        (moment : ℕ) (a : A)
        → from + 3 ≤ moment
        → poll moment ≡ ready a
        → w.now (moment + 1) < overall
        → w.now (moment + 2) < attempt
        → until ≡ moment + 3
        → Waited from until (ok a)
    late :
        (moment : ℕ)
        → from ≤ moment
        → overall ≤ w.now moment
        → until ≡ moment + 1
        → Waited from until (err DeadlineOutcome.overall_timeout)
    slow :
        (moment : ℕ)
        → from ≤ moment
        → attempt ≤ w.now moment
        → until ≡ moment + 1
        → Waited from until (err DeadlineOutcome.attempt_timeout)
    gone :
        (moment : ℕ)
        → from ≤ moment
        → w.cancelled moment ≡ true
        → until ≡ moment + 1
        → Waited from until (err DeadlineOutcome.cancelled)

  abbrev pub WaitedFor : ℕ → Option (Result DeadlineOutcome A × ℕ) → Type 0
  WaitedFor from none = Unit
  WaitedFor from (some (r, t)) = Waited from t r

  WaitedFor-earlier :
      (from from' : ℕ) (o : Option (Result DeadlineOutcome A × ℕ))
      → from ≤ from'
      → WaitedFor from' o
      → WaitedFor from o
  WaitedFor-earlier from from' none le h = tt
  WaitedFor-earlier from from' (some (_, t)) le (came moment a p e q r s) =
      came moment a (omega arith) e q r s
  WaitedFor-earlier from from' (some (_, t)) le (late moment p q s) = late moment (omega arith) q s
  WaitedFor-earlier from from' (some (_, t)) le (slow moment p q s) = slow moment (omega arith) q s
  WaitedFor-earlier from from' (some (_, t)) le (gone moment p q s) = gone moment (omega arith) q s

  settle-Waited :
      (a : A) (from moment t : ℕ)
      → poll moment ≡ ready a
      → from + 3 ≤ moment
      → t ≡ moment + 1
      → Waited from (settle w a attempt overall t).1 (settle w a attempt overall t).0
  unfolding settle
  settle-Waited a from moment t e begun same = elim (Bool-cases (leb overall (w.now t))) [
    | inl p ↦ rw p (late t (omega arith) (leb→le _ _ p) refl)
    | inr p ↦ rw p (elim (Bool-cases (leb attempt (w.now (t + 1)))) [
      | inl q ↦ rw q (slow (t + 1) (omega arith) (leb→le _ _ q) (omega arith))
      | inr q ↦ rw q (
          came moment a begun e (subst (λ k. w.now k < overall) same (leb-false→lt _ _ p))
            (subst (λ k. w.now k < attempt) (omega arith) (leb-false→lt _ _ q)) (omega arith))
    ])
  ]

  polled-Waited :
      (p : Poll A) (from moment t : ℕ) (again : Option (Result DeadlineOutcome A × ℕ))
      → poll moment ≡ p
      → from + 3 ≤ moment
      → t ≡ moment + 1
      → WaitedFor from again
      → WaitedFor from
          (elim p [ pending ↦ again | ready value ↦ some (settle w value attempt overall t) ])
  polled-Waited pending from moment t again e begun same h = h
  polled-Waited (ready a) from moment t again e begun same h =
      settle-Waited a from moment t e begun same

  pub block_on_until-Waited :
      (fuel t : ℕ) → WaitedFor t (block_on_until w fuel poll attempt overall t)
  unfolding block_on_until
  block_on_until-Waited zero t = tt
  block_on_until-Waited (suc fuel) t = elim (Bool-cases (w.cancelled t)) [
    | inl p ↦ rw p (gone t (omega arith) p refl)
    | inr p ↦ rw p (elim (Bool-cases (leb overall (w.now (t + 1)))) [
      | inl q ↦ rw q (late (t + 1) (omega arith) (leb→le _ _ q) (omega arith))
      | inr q ↦ rw q (elim (Bool-cases (leb attempt (w.now (t + 2)))) [
        | inl r ↦ rw r (slow (t + 2) (omega arith) (leb→le _ _ r) (omega arith))
        | inr r ↦ rw r (
            polled-Waited (poll (t + 3)) t (t + 3) (t + 4) _ refl (omega arith) (omega arith) (
              WaitedFor-earlier t (t + 4) (block_on_until w fuel poll attempt overall (t + 4))
                (omega arith) (block_on_until-Waited fuel (t + 4))))
      ])
    ])
  ]
