-- ===== src/Response/Ids.antt =====
-- Call identifiers (src/response.rs): the counter NEXT_ID, the set of identifiers in use, and the
-- search for a fresh one.
pub mod Fresh
use nano_llm.Common.{
  ℕ, zero, suc, ◌+◌, ◌%◌, Text, lit, hex, contains, push_new, Bool, true, false, ◌||◌, Option, none,
  some, List, [], ◌∷◌, ◌++◌, if◌then◌else◌, is_empty, length,
}
use nano_llm.Response.{u64_limit}

-- `next` counts every `fetch_add` on NEXT_ID; the atomic holds it modulo 2^64.
pub record Ids : Type 0 where
  pub used : List Text
  pub next : ℕ

unfoldable pub call_id : ℕ → Text
call_id n = lit "call_" ++ hex (n % u64_limit)

-- The loop of `generated_call_id`, on fuel: the first counter value whose identifier is not in use.
unfoldable pub search_from : ℕ → List Text → ℕ → ℕ
search_from zero used n = n
search_from (suc fuel) used n =
    let later = search_from fuel used (n + 1) in if contains used (call_id n) then later else n

-- One more round than there are identifiers in use.
unfoldable pub generated_call_id : Ids → Text × Ids
unfolding search_from
generated_call_id ids =
    let n = search_from (length ids.used + 1) ids.used ids.next in
    (call_id n, record { used = call_id n ∷ ids.used; next = n + 1 })

-- A native identifier is kept if it is nonempty and new, and replaced otherwise. The flag says
-- which.
unfoldable pub claim_id : Option Text → Ids → Text × Bool × Ids
unfolding generated_call_id
claim_id none ids = let (id, ids') = generated_call_id ids in (id, false, ids')
claim_id (some native) ids =
    let (id, ids') = generated_call_id ids in
    if is_empty native || contains ids.used native
    then (id, false, ids')
    else (native, true, record ids { used = native ∷ ids.used })
