-- ===== src/Config/ApiBase/Https.antt =====
-- A base URL that is accepted for a target with a key begins with the scheme https, and has no
-- slash at its end (src/config/validate.rs).
use nano_llm.Common.{
  Text, lit, Bool, true, false, not, ◌&&◌, ◌||◌, ◌≡◌, refl, ap, ◌∙◌, ◌⊎◌, inl, inr, some, [], ◌∷◌,
  ◌++◌, any, is_empty, ◌==◌, Bool-cases, Option-cases, ==→eq, arith, Accepts, Accepts-ok,
  Accepts-ensure, Accepts-ok_or, implied, refuted, ℕ,
}
use nano_llm.Common.Scan.{
  split_at_first, strip_prefix, trim_end_matches, has_byte, has_whitespace, is_ascii_control,
}
use nano_llm.Config.{ProviderKind, is_branded}
use nano_llm.Config.ApiBase.{
  scheme_of, parts_of, is_valid_url_authority, validate_and_normalize_api_base,
}

strip_prefix_lem :
    (prefix text rest : Text) → strip_prefix prefix text ≡ some rest → text ≡ prefix ++ rest
unfolding strip_prefix
strip_prefix_lem [] text rest h = cc
strip_prefix_lem (p ∷ prefix) [] rest h = absurd (cc h)
strip_prefix_lem (p ∷ prefix) (b ∷ text) rest h = elim (Bool-cases (b == p)) [
  | inl e ↦ cc (==→eq b p e, strip_prefix_lem prefix text rest (rw e at h))
  | inr e ↦ absurd (cc (rw e at h))
]

append-nonempty : (front : Text) (b : ℕ) (back : Text) → is_empty (front ++ b ∷ back) ≡ false
append-nonempty [] b back = refl
append-nonempty (x ∷ front) b back = refl

-- Trimming the end stops at another byte.
trim_end_matches-stop :
    (byte b : ℕ) (front back : Text)
    → (b == byte) ≡ false
    → trim_end_matches byte (front ++ b ∷ back) ≡ front ++ b ∷ trim_end_matches byte back
unfolding trim_end_matches
trim_end_matches-stop byte b [] back h = rw h refl
trim_end_matches-stop byte b (x ∷ front) back h =
    rw (trim_end_matches-stop byte b front back h)
      (rw (append-nonempty front b (trim_end_matches byte back)) (ground arith))

trim_end_matches_twice :
    (byte : ℕ) (text : Text)
    → trim_end_matches byte (trim_end_matches byte text) ≡ trim_end_matches byte text
unfolding trim_end_matches
trim_end_matches_twice byte [] = refl
trim_end_matches_twice byte (b ∷ bs) =
    elim (Bool-cases (b == byte && is_empty (trim_end_matches byte bs))) [
      | inl e ↦ rw e refl
      | inr e ↦ rw e (rw (trim_end_matches_twice byte bs) (rw e refl))
    ]

-- A host in front of the first slash: the rest begins with another byte.
host_first :
    (rest : Text)
    → is_empty (parts_of rest).0 ≡ false
    → (b : ℕ) × (bs : Text) × (rest ≡ b ∷ bs) × ((b == b'/') ≡ false)
unfolding parts_of split_at_first
host_first [] h = absurd (cc h)
host_first (b ∷ bs) h = elim (Bool-cases (b == b'/')) [
  | inl e ↦ absurd (cc (rw (e, is_empty) at h))
  | inr e ↦ (b, bs, refl, e)
]

-- The text begins with https://, and not with that alone.
pub data IsHttps : Text → Type 0 where
  https : (base rest : Text) → base ≡ lit "https://" ++ rest → is_empty rest ≡ false → IsHttps base

-- No slash stands at the end.
abbrev pub IsTrimmed : Text → Type 0
IsTrimmed base = trim_end_matches b'/' base ≡ base

trimmed-IsHttps :
    (base rest : Text)
    → base ≡ lit "https://" ++ rest
    → is_empty (parts_of rest).0 ≡ false
    → IsHttps (trim_end_matches b'/' base)
trimmed-IsHttps base rest e h =
    let (b, bs, first, other) = host_first rest h in
    https _ (b ∷ trim_end_matches b'/' bs)
      (ap (trim_end_matches b'/') (e ∙ ap (λ t. lit "https://" ++ t) first)
        ∙ trim_end_matches-stop b'/' b (lit "https://") bs other)
      refl

scheme_of-https :
    (base rest : Text) → scheme_of base ≡ some (true, rest) → base ≡ lit "https://" ++ rest
unfolding scheme_of strip_prefix lit
scheme_of-https base rest h = elim (Option-cases (strip_prefix (lit "https://") base)) [
  | inl e ↦ elim (Option-cases (strip_prefix (lit "http://") base)) [
    | inl f ↦ absurd (cc (rw f at (rw e at h)))
    | inr (r, f) ↦ absurd (cc (rw f at (rw e at h)))
  ]
  | inr (r, e) ↦ strip_prefix_lem (lit "https://") base rest (cc (rw e at h, e))
]

-- What the checks make sure of.
pub record IsBase (provider : ProviderKind) (has_api_key : Bool) (base : Text) : Type 0 where
  pub branded : (is_branded provider ≡ false) ⊎ IsHttps base
  pub keyed : (has_api_key ≡ false) ⊎ IsHttps base
  pub trimmed : IsTrimmed base

kept-IsHttps :
    (base rest : Text) (asked is_https : Bool)
    → scheme_of base ≡ some (is_https, rest)
    → is_empty (parts_of rest).0 ≡ false
    → (asked ≡ false) ⊎ (is_https ≡ true)
    → (asked ≡ false) ⊎ IsHttps (trim_end_matches b'/' base)
kept-IsHttps base rest asked is_https s h (inl e) = inl e
kept-IsHttps base rest asked is_https s h (inr e) =
    inr (trimmed-IsHttps base rest (scheme_of-https base rest (s ∙ ap (λ b. some (b, rest)) e)) h)

pub validate_and_normalize_api_base-IsBase :
    (base : Text) (provider : ProviderKind) (has_api_key : Bool) (path : Text)
    → Accepts (validate_and_normalize_api_base base provider has_api_key path) (λ normalized.
      IsBase provider has_api_key normalized × (normalized ≡ trim_end_matches b'/' base))
unfolding validate_and_normalize_api_base
validate_and_normalize_api_base-IsBase base provider has_api_key path =
    Accepts-ensure (not (has_whitespace base || any is_ascii_control base)) _ _ λ _.
      Accepts-ok_or (scheme_of base) _ _ λ (is_https, rest) s.
        Accepts-ensure (not (is_branded provider && not is_https)) _ _ λ branded.
          Accepts-ensure (not (has_api_key && not is_https)) _ _ λ keyed.
            Accepts-ensure (not (has_byte b'#' base)) _ _ λ _.
              Accepts-ensure (not (has_byte b'?' base)) _ _ λ _.
                Accepts-ensure (not (has_byte b'@' (parts_of rest).0)) _ _ λ _.
                  Accepts-ensure (not (is_empty (parts_of rest).0)) _ _ λ host.
                    Accepts-ensure (is_valid_url_authority (parts_of rest).0) _ _ λ _.
                      Accepts-ensure _ _ _ λ _. Accepts-ok _ (
                        (record {
                          branded =
                              kept-IsHttps base rest _ is_https s (refuted _ host)
                                (implied _ _ branded);
                          keyed =
                              kept-IsHttps base rest _ is_https s (refuted _ host)
                                (implied _ _ keyed);
                          trimmed = trim_end_matches_twice b'/' base;
                        }),
                        refl,
                      )
