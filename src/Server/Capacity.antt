-- ===== src/Server/Capacity.antt =====
-- GenerationCapacity (src/server.rs) under any interleaving of threads.
-- Each atomic access is one step; a weak compare-and-swap may fail without a reason.
pub mod Bounded
use nano_llm.Common.{ℕ, suc, ◌+◌, ◌-◌, ◌<◌, ◌≡◌, List, [], ◌∷◌}

-- A thread with regard to one pool of permits: not using it, with the value that it last read, or
-- with a permit.
pub data Thread : Type 0 where
  idle : Thread
  seen : (available : ℕ) → Thread
  holding : Thread

-- One atomic access of one thread: the pool before and after it, and the thread.
pub data Access : (before : ℕ) → Thread → (after : ℕ) → Thread → Type 0 where
  -- available.load
  load : (available : ℕ) → Access available Thread.idle available (Thread.seen available)
  -- `if available == 0 { return None; }`
  refuse : (available : ℕ) → Access available (Thread.seen 0) available Thread.idle
  -- compare_exchange_weak, Ok
  exchange :
      (available : ℕ)
      → Access (suc available) (Thread.seen (suc available)) available Thread.holding
  -- compare_exchange_weak, Err(current)
  fail :
      (available old : ℕ)
      → 0 < old
      → Access available (Thread.seen old) available (Thread.seen available)
  -- The permit drops: fetch_add
  release : (available : ℕ) → Access available Thread.holding (available + 1) Thread.idle

-- The pool and all threads.
pub record Pool : Type 0 where
  pub available : ℕ
  pub threads : List Thread

-- One thread among the others makes an access.
pub data Among {ℓ} {A : Type ℓ} (P : A → A → Type ℓ) : List A → List A → Type ℓ where
  here : {a b : A} {rest : List A} → P a b → Among P (a ∷ rest) (b ∷ rest)
  there : {a : A} {before after : List A} → Among P before after → Among P (a ∷ before) (a ∷ after)

abbrev pub Step : Pool → Pool → Type 0
Step p q = Among (λ a b. Access p.available a q.available b) p.threads q.threads

pub data Reach (p : Pool) : Pool → Type 0 where
  start : Reach p p
  more : {q r : Pool} → Reach p q → Step q r → Reach p r
