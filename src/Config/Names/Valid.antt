-- ===== src/Config/Names/Valid.antt =====
-- What an accepted model name and target model look like (src/config/validate.rs).
use nano_llm.Common.{
  Text, lit, text_eq_iff, true, false, not, ◌&&◌, ◌||◌, ◌≡◌, ap, ◌∙◌, ◌⊎◌, some, [], ◌∷◌, ◌++◌, any,
  all, length, is_empty, leb, ltb, ◌≤◌, ◌<◌, leb→le, arith, Accepts, Accepts-ok, Accepts-ensure,
  Accepts-ok_or, implied, refuted,
}
use nano_llm.Common.Scan.{split_at_first, is_ascii_control}
use nano_llm.Common.Scan.Split.{split_at_first_lem}
use nano_llm.Config.{ProviderKind, name}
use nano_llm.Config.Names.{
  starts_alphanumeric, name_byte, validate_model_name, provider_of, is_gemini, gemini_suffix,
  validate_target_model,
}

-- [A-Za-z0-9][A-Za-z0-9._:/-]{0,127}
pub record IsModelName (model_name : Text) : Type 0 where
  pub nonempty : 0 < length model_name
  pub short : length model_name ≤ 128
  pub first : starts_alphanumeric model_name ≡ true
  pub bytes : all name_byte model_name ≡ true

sized :
    (t : Text) → not (is_empty t || ltb 128 (length t)) ≡ true → (0 < length t) × (length t ≤ 128)
sized [] h = absurd (cc h)
sized (b ∷ t) h = ground arith

pub validate_model_name-IsModelName :
    (model_name path : Text)
    → Accepts (validate_model_name model_name path) (λ _. IsModelName model_name)
unfolding validate_model_name
validate_model_name-IsModelName model_name path =
    Accepts-ensure (not (is_empty model_name || ltb 128 (length model_name))) _ _ λ size.
      Accepts-ensure (starts_alphanumeric model_name) _ _ λ first.
        Accepts-ensure (all name_byte model_name) _ _ λ bytes. Accepts-ok tt (record {
          nonempty = (sized model_name size).0;
          short = (sized model_name size).1;
          first = first;
          bytes = bytes;
        })

-- The full model is the provider's name, a slash and the suffix.
pub record IsTargetModel (model : Text) (provider : ProviderKind) (suffix : Text) : Type 0 where
  pub parts : model ≡ name provider ++ b'/' ∷ suffix
  pub nonempty : 0 < length suffix
  pub short : length suffix ≤ 256
  pub printable : any is_ascii_control suffix ≡ false
  pub gemini : (is_gemini provider ≡ false) ⊎ (gemini_suffix suffix ≡ true)

provider_of-name :
    (prefix : Text) (provider : ProviderKind)
    → provider_of prefix ≡ some provider
    → prefix ≡ name provider
unfolding provider_of name
provider_of-name prefix provider h = ground (
  arith,
  text_eq_iff prefix (lit "openai"),
  text_eq_iff prefix (lit "mistral"),
  text_eq_iff prefix (lit "deepseek"),
  text_eq_iff prefix (lit "openai_compatible"),
  text_eq_iff prefix (lit "anthropic"),
  text_eq_iff prefix (lit "gemini"),
)

pub filled : (t : Text) → not (is_empty t) ≡ true → 0 < length t
filled [] h = absurd (cc h)
filled (b ∷ t) h = omega arith

pub validate_target_model-IsTargetModel :
    (model path : Text)
    → Accepts
        (validate_target_model model path)
        (λ (provider, suffix). IsTargetModel model provider suffix)
unfolding validate_target_model
validate_target_model-IsTargetModel model path =
    Accepts-ok_or (split_at_first b'/' model) _ _ λ (prefix, suffix) s.
      Accepts-ok_or (provider_of prefix) _ _ λ provider p.
        Accepts-ensure (not (is_empty suffix)) _ _ λ some_bytes.
          Accepts-ensure (leb (length suffix) 256) _ _ λ short.
            Accepts-ensure (not (any is_ascii_control suffix)) _ _ λ printable.
              Accepts-ensure (not (is_gemini provider && not (gemini_suffix suffix))) _ _ λ gemini.
                Accepts-ok (provider, suffix)
                  (record {
                    parts =
                        (split_at_first_lem b'/' model prefix suffix s).0
                        ∙ ap (λ t. t ++ b'/' ∷ suffix) (provider_of-name prefix provider p);
                    nonempty = filled suffix some_bytes;
                    short = leb→le _ _ short;
                    printable = refuted _ printable;
                    gemini = implied _ _ gemini;
                  })
