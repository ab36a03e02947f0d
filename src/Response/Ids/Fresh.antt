-- ===== src/Response/Ids/Fresh.antt =====
-- The search for a call identifier (src/response.rs, generated_call_id) always ends at one that is
-- not in use.
use nano_llm.Common.{
  ℕ, zero, suc, ◌+◌, ◌%◌, ◌≤◌, ◌<◌, Text, lit, hex_injective, text_eq, text_eq_iff, contains, Fresh,
  contains-Fresh, ◌≡◌, refl, sym, subst, ap, ◌∙◌, true, false, ◌||◌, Option, none, some, List, [],
  ◌∷◌, length, drop, arith, is_empty, Bool-cases, inl, inr,
}
use nano_llm.Common.Count.{count, count-or, count-all, count-none, count_unique}
use nano_llm.Response.{u64_limit}
use nano_llm.Response.Ids.{Ids, call_id, search_from, generated_call_id, claim_id}

call_id_injective : (m n : ℕ) → call_id m ≡ call_id n → m % u64_limit ≡ n % u64_limit
unfolding call_id lit
call_id_injective m n e =
    hex_injective (m % u64_limit) (n % u64_limit) (omega arith) (omega arith) (ap (drop 5) e)

-- Offsets below 2^64 name different identifiers.
call_id_offsets :
    (n i j : ℕ) → i < u64_limit → j < u64_limit → call_id (n + i) ≡ call_id (n + j) → i ≡ j
call_id_offsets n i j h k e = omega (arith, call_id_injective (n + i) (n + j) e)

-- Among k ≤ 2^64 candidates at most `length used` are in use.
taken-le :
    (n k : ℕ) (used : List Text)
    → k ≤ u64_limit
    → count (λ i. contains used (call_id (n + i))) k ≤ length used
unfolding contains
taken-le n k [] h = omega (arith, count-none (λ _. false) k (λ i l. refl))
taken-le n k (x ∷ used) h = omega (
  arith,
  count-or (λ i. text_eq x (call_id (n + i))) (λ i. contains used (call_id (n + i))) k,
  taken-le n k used h,
  count_unique (λ i. text_eq x (call_id (n + i))) k
      λ i j l m p q.
        call_id_offsets n i j (omega arith) (omega arith)
          (sym ((text_eq_iff x _).0 p) ∙ (text_eq_iff x _).0 q),
)

-- An offset is zero, or one more than an offset from the next number.
offset-cases : (n i : ℕ) (P : ℕ → Type 0) → P n → ((j : ℕ) → i ≡ suc j → P (n + 1 + j)) → P (n + i)
offset-cases n zero P h k = subst P (omega arith) h
offset-cases n (suc j) P h k = subst P (omega arith) (k j refl)

-- If the search ends in use, all its candidates were.
search_from-taken :
    (fuel n : ℕ) (used : List Text)
    → contains used (call_id (search_from fuel used n)) ≡ true
    → (i : ℕ) → i < fuel
    → contains used (call_id (n + i)) ≡ true
unfolding search_from
search_from-taken zero n used h i l = elim l [ ]
search_from-taken (suc fuel) n used h i l = elim (Bool-cases (contains used (call_id n))) [
  | inl e ↦
      offset-cases n i (λ c. contains used (call_id c) ≡ true) e
        λ j eq. search_from-taken fuel (n + 1) used (rw e at h) j (omega arith)
  | inr e ↦ cc (e, rw e at h)
]

search_from-free :
    (fuel n : ℕ) (used : List Text)
    → length used < fuel
    → fuel ≤ u64_limit
    → contains used (call_id (search_from fuel used n)) ≡ false
search_from-free fuel n used h k =
    elim (Bool-cases (contains used (call_id (search_from fuel used n)))) [
      | inl e ↦ absurd (
          omega (
            arith,
            taken-le n fuel used k,
            count-all (λ i. contains used (call_id (n + i))) fuel (search_from-taken fuel n used e),
          ))
      | inr e ↦ e
    ]

-- The identifier is not in use, joins those in use, and is nonempty.
pub generated_call_id-Fresh :
    (ids : Ids)
    → length ids.used < u64_limit
    → Fresh (generated_call_id ids).0 ids.used
      × ((generated_call_id ids).1.used ≡ (generated_call_id ids).0 ∷ ids.used)
      × (is_empty (generated_call_id ids).0 ≡ false)
unfolding generated_call_id call_id lit
generated_call_id-Fresh ids h = (
  contains-Fresh ids.used _
      (search_from-free (length ids.used + 1) ids.next ids.used (omega arith) (omega arith)),
  refl,
  refl,
)

-- Whatever the native identifier, the chosen one is new, joins those in use and is nonempty.
pub claim_id-Fresh :
    (native : Option Text) (ids : Ids)
    → length ids.used < u64_limit
    → Fresh (claim_id native ids).0 ids.used
      × ((claim_id native ids).2.used ≡ (claim_id native ids).0 ∷ ids.used)
      × (is_empty (claim_id native ids).0 ≡ false)
unfolding claim_id
claim_id-Fresh none ids h = generated_call_id-Fresh ids h
claim_id-Fresh (some native) ids h =
    elim (Bool-cases (is_empty native || contains ids.used native)) [
      | inl e ↦ rw e (generated_call_id-Fresh ids h)
      | inr e ↦ rw e (contains-Fresh ids.used native (ground (arith, e)), refl, ground (arith, e))
    ]
