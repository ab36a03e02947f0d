-- ===== src/Server/Capacity/Bounded.antt =====
-- No interleaving hands out more permits than the limit (src/server.rs, GenerationCapacity).
use nano_llm.Common.{ℕ, ◌+◌, ◌≤◌, ◌≡◌, refl, List, [], ◌∷◌, All, arith}
use nano_llm.Server.Capacity.{
  Thread, Access, load, refuse, exchange, fail, release, Pool, Among, here, there, Reach, start,
  more,
}

abbrev pub permits : Thread → ℕ
permits Thread.holding = 1
permits _ = 0

abbrev pub held : List Thread → ℕ
held [] = 0
held (t ∷ threads) = permits t + held threads

Access-permits : {a b : ℕ} {s t : Thread} → Access a s b t → a + permits s ≡ b + permits t
Access-permits (load a) = refl
Access-permits (refuse a) = refl
Access-permits (exchange a) = omega arith
Access-permits (fail a old h) = refl
Access-permits (release a) = omega arith

Step-held :
    (a b : ℕ) {before after : List Thread}
    → Among (λ s t. Access a s b t) before after
    → a + held before ≡ b + held after
Step-held a b (here access) = omega (arith, Access-permits access)
Step-held a b (there step) = omega (arith, Step-held a b step)

Reach-held :
    (p : Pool) {q : Pool} → Reach p q → q.available + held q.threads ≡ p.available + held p.threads
Reach-held p start = refl
Reach-held p (more reach step) = omega (arith, Reach-held p reach, Step-held _ _ step)

idle_held : (threads : List Thread) → All (λ t. t ≡ Thread.idle) threads → held threads ≡ 0
idle_held [] h = refl
idle_held (t ∷ threads) h = rw (h.0) (omega (arith, idle_held threads h.1))

-- From a fresh pool of `limit` permits, however the atomic accesses of the threads interleave, the
-- permits that are held and those that are available make up the limit. So never more than `limit`
-- are held, and the counter never leaves the range from 0 to the limit.
pub Reach-bounded :
    (limit : ℕ) (threads : List Thread) (q : Pool)
    → All (λ t. t ≡ Thread.idle) threads
    → Reach (record { available = limit; threads = threads }) q
    → (q.available + held q.threads ≡ limit) × (held q.threads ≤ limit) × (q.available ≤ limit)
Reach-bounded limit threads q all_idle reach =
    let total : q.available + held q.threads ≡ limit = omega (
      arith,
      Reach-held (record { available = limit; threads = threads }) reach,
      idle_held threads all_idle,
    ) in
    (total, omega (arith, total), omega (arith, total))
