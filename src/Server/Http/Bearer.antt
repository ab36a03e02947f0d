-- ===== src/Server/Http/Bearer.antt =====
-- Whom the server lets in (src/server.rs, is_authenticated, exact_bearer_matches, constant_time_eq).
use nano_llm.Common.{
  ℕ, zero, suc, ◌+◌, ◌<◌, max, Text, lit, Bool, true, false, ◌≡◌, ◌≢◌, ◌↔◌, refl, ap, subst, ◌∙◌,
  ◌⊎◌, inl, inr, Bool-cases, Option, none, some, List, [], ◌∷◌, ◌++◌, All, length, ==→eq, arith,
}
use Prim.Native.Nat.{bit_xor}
use nano_llm.Common.Bits.{bit_xor_zero, bit_xor_same, bit_or_zero}
use nano_llm.Common.Scan.{split_at_first}
use nano_llm.Common.Scan.Split.{split_at_first_lem, split_at_first_back}
use nano_llm.Server.Http.{
  HttpRequest, eq_ignore_ascii_case, headers_named, byte_at, differences, constant_time_eq,
  bearer_parts, exact_bearer_matches, only_matches, is_authenticated,
}

at_index :
    (count i : ℕ) (l r : Text)
    → byte_at l i ≡ byte_at r i
    → ((j : ℕ) → j < count → byte_at l (i + 1 + j) ≡ byte_at r (i + 1 + j))
    → (j : ℕ) → j < suc count
    → byte_at l (i + j) ≡ byte_at r (i + j)
at_index count i l r here others zero less =
    subst (λ n. byte_at l n ≡ byte_at r n) (omega arith) here
at_index count i l r here others (suc j) less =
    subst (λ n. byte_at l n ≡ byte_at r n) (omega arith) (others j (omega (arith, less)))

differences_zero :
    (count i : ℕ) (l r : Text) (d : ℕ)
    → differences count i l r d ≡ 0
    → (d ≡ 0) × ((j : ℕ) → j < count → byte_at l (i + j) ≡ byte_at r (i + j))
unfolding differences
differences_zero zero i l r d h = (h, λ j less. absurd (omega (arith, less)))
differences_zero (suc count) i l r d h =
    let (so_far, others) = differences_zero count (i + 1) l r _ h in
    let (before, here) = bit_or_zero d _ so_far in
    (before, λ j less. at_index count i l r (bit_xor_zero _ _ here) others j less)

differences_same : (count i : ℕ) (l : Text) → differences count i l l 0 ≡ 0
unfolding differences
differences_same zero i l = refl
differences_same (suc count) i l =
    rw (bit_xor_same (byte_at l i)) (differences_same count (i + 1) l)

same_bytes :
    (l r : Text)
    → length l ≡ length r
    → ((j : ℕ) → j < length l → byte_at l j ≡ byte_at r j)
    → l ≡ r
same_bytes [] [] e h = refl
same_bytes [] (y ∷ r) e h = absurd (omega (arith, e))
same_bytes (x ∷ l) [] e h = absurd (omega (arith, e))
same_bytes (x ∷ l) (y ∷ r) e h =
    let first : x ≡ y = h 0 (omega arith) in
    let others = same_bytes l r (omega (arith, e)) (λ j less. h (suc j) (omega (arith, less))) in
    rw first (ap (λ t. y ∷ t) others)

-- The comparison in constant time is equality.
constant_time_eq_iff : (l r : Text) → (constant_time_eq l r ≡ true) ↔ (l ≡ r)
unfolding constant_time_eq
constant_time_eq_iff l r = (
  λ h.
      let (lengths, bytes) =
        differences_zero (max (length l) (length r)) 0 l r (bit_xor (length l) (length r))
          (==→eq _ 0 h) in
      let same = bit_xor_zero (length l) (length r) lengths in
      same_bytes l r same (λ j less.
        subst (λ n. byte_at l n ≡ byte_at r n) (omega arith) (bytes j (omega (arith, less)))),
  λ e.
      rw e
        (rw (bit_xor_same (length r)) (rw (differences_same (max (length r) (length r)) 0 r) refl)),
)

-- The header value is a bearer scheme in any case, one space, and exactly the key.
pub record IsBearer (value key : Text) : Type 0 where
  pub scheme : Text
  pub parts : value ≡ scheme ++ b' ' ∷ key
  pub one_word : All (λ x. x ≢ b' ') scheme
  pub is_bearer : eq_ignore_ascii_case scheme (lit "Bearer") ≡ true

bearer_parts-IsBearer :
    (value key : Text) (o : Option (Text × Text))
    → split_at_first b' ' value ≡ o
    → bearer_parts o key ≡ true
    → IsBearer value key
unfolding bearer_parts
bearer_parts-IsBearer value key none e h = cc
bearer_parts-IsBearer value key (some (scheme, token)) e h =
    elim (Bool-cases (eq_ignore_ascii_case scheme (lit "Bearer"))) [
      | inl p ↦
          let same = (constant_time_eq_iff token key).0 (rw p at h) in
          let (parts, one_word) = split_at_first_lem b' ' value scheme token e in
          record {
            scheme = scheme;
            parts = parts ∙ ap (λ t. scheme ++ b' ' ∷ t) same;
            one_word = one_word;
            is_bearer = p;
          }
      | inr p ↦ absurd (cc (rw p at h))
    ]

exact_bearer_matches_iff :
    (value key : Text) → (exact_bearer_matches value key ≡ true) ↔ IsBearer value key
unfolding exact_bearer_matches bearer_parts
exact_bearer_matches_iff value key = (
  bearer_parts-IsBearer value key (split_at_first b' ' value) refl,
  λ b. rw (b.parts) (
      rw (split_at_first_back b' ' b.scheme key b.one_word)
        (rw (b.is_bearer) ((constant_time_eq_iff key key).1 refl))),
)

-- One authorization header with the master key.
abbrev pub HasKey : Option Text → HttpRequest → Type 0
HasKey none request = ⊥
HasKey (some key) request =
    (value : Text) × (headers_named request (lit "authorization") ≡ value ∷ []) × IsBearer value key

only_matches_iff :
    (values : List Text) (key : Text)
    → (only_matches values key ≡ true)
      ↔ ((value : Text) × (values ≡ value ∷ []) × IsBearer value key)
unfolding only_matches
only_matches_iff [] key = (λ h. absurd (cc h), λ (v, e, b). absurd (cc e))
only_matches_iff (value ∷ []) key = (
  λ h. (value, refl, (exact_bearer_matches_iff value key).0 h),
  λ (v, e, b). (exact_bearer_matches_iff value key).1 (subst (λ x. IsBearer x key) (cc e) b),
)
only_matches_iff (value ∷ other ∷ values) key = (λ h. absurd (cc h), λ (v, e, b). absurd (cc e))

-- `is_authenticated` lets a request in exactly if authentication is off, or there is a master key
-- and the request has exactly one authorization header, which is "Bearer" in any case, a space and
-- that key: no other key, no second header, and nobody when no key is configured.
pub is_authenticated_iff :
    (no_auth : Bool) (master_key : Option Text) (request : HttpRequest)
    → (is_authenticated no_auth master_key request ≡ true)
      ↔ ((no_auth ≡ true) ⊎ HasKey master_key request)
unfolding is_authenticated
is_authenticated_iff true master_key request = (λ _. inl refl, λ _. refl)
is_authenticated_iff false none request =
    (λ h. absurd (cc h), λ h. elim h [ inl e ↦ cc e | inr no_key ↦ absurd no_key ])
is_authenticated_iff false (some key) request = (
  λ h. inr ((only_matches_iff (headers_named request (lit "authorization")) key).0 h),
  λ h. elim h [
    | inl e ↦ absurd (cc e)
    | inr has_key ↦ (only_matches_iff (headers_named request (lit "authorization")) key).1 has_key
  ],
)
