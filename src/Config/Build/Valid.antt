-- ===== src/Config/Build/Valid.antt =====
-- What the targets of a built configuration look like (src/config/validate.rs).
use nano_llm.Common.{
  ℕ, ◌+◌, ◌≤◌, Text, Bool, true, false, not, ◌||◌, ◌≡◌, refl, ap, sym, ◌∙◌, ◌⊎◌, inl, inr, Option,
  none, some, List, [], ◌∷◌, ◌++◌, is_empty, is_some, arith, lit, Accepts, refuted, Accepts-ok,
  Accepts-bind, Accepts-ensure, accepts, rejects, Option-cases,
}
use nano_llm.Common.Scan.{trim_end_matches}
use nano_llm.Float.{F64, has_fract, in_range, as_u64}
use nano_llm.Config.{
  ProviderKind, is_branded, default_api_base, is_http_header_transport, SecretString, RuntimeTarget,
}
use nano_llm.Config.Raw.{RawModelEntry}
use nano_llm.Config.Secrets.{EnvProvider, resolve_secret}
use nano_llm.Config.Secrets.Resolved.{IsSecret, resolve_secret-IsSecret}
use nano_llm.Config.Names.{validate_model_name, validate_target_model}
use nano_llm.Config.Names.Valid.{
  IsModelName, IsTargetModel, validate_model_name-IsModelName, validate_target_model-IsTargetModel,
}
use nano_llm.Config.ApiBase.Https.{
  IsHttps, https, IsTrimmed, IsBase, validate_and_normalize_api_base-IsBase,
}
use nano_llm.Config.Build.{
  timeout_of, unwrap_or, api_key_of, api_base_of, build_target, build_targets,
}

-- The key was asked for and resolved, or neither.
abbrev pub HasKey : Option Text → (header : Bool) → EnvProvider → Option SecretString → Type 0
HasKey (some reference) header env (some key) = IsSecret reference header env key
HasKey none header env none = Unit
HasKey _ header env _ = ⊥

abbrev pub IsTimeout : ℕ → Type 0
IsTimeout t = (1 ≤ t) × (t ≤ 86400)

-- A base of the file, without its last slashes, or else the provider's own.
abbrev pub BaseFrom : Option Text → ProviderKind → Text → Type 0
BaseFrom (some given) provider base = base ≡ trim_end_matches b'/' given
BaseFrom none provider base = default_api_base provider ≡ some base

abbrev pub keyless : RawModelEntry → Bool
keyless entry = not (is_some entry.litellm_params.api_key)

-- The target of an entry.
pub record IsTarget (entry : RawModelEntry) (request_timeout : ℕ) (env : EnvProvider)
    (target : RuntimeTarget) : Type 0 where
  pub named : IsModelName entry.model_name
  pub model : target.model ≡ entry.litellm_params.model
  pub parts : IsTargetModel target.model target.provider target.model_suffix
  pub key :
      HasKey entry.litellm_params.api_key
        (is_http_header_transport target.provider)
        env
        target.api_key
  pub required : (is_branded target.provider ≡ false) ⊎ (is_some target.api_key ≡ true)
  pub base : IsBase target.provider (is_some target.api_key) target.api_base
  pub from : BaseFrom entry.litellm_params.api_base target.provider target.api_base
  pub timed : target.timeout ≡ unwrap_or target.explicit_timeout request_timeout
  pub bounded : IsTimeout target.timeout

as_u64_bounds :
    (t : F64) → not (has_fract t || not (in_range 1 86400 t)) ≡ true → IsTimeout (as_u64 t)
unfolding has_fract in_range as_u64
as_u64_bounds F64.nan h = absurd (cc h)
as_u64_bounds (F64.inf neg) h = absurd (cc h)
as_u64_bounds (F64.fin true whole frac) h = ground arith
as_u64_bounds (F64.fin false whole frac) h = ground arith

-- The timeout that applies if this is the setting.
pub timeout_of-bounded :
    (o : Option F64) (path reason : Text) (otherwise : ℕ)
    → IsTimeout otherwise
    → Accepts (timeout_of o path reason) (λ t. IsTimeout (unwrap_or t otherwise))
unfolding timeout_of
timeout_of-bounded none path reason otherwise h = Accepts-ok none h
timeout_of-bounded (some t) path reason otherwise h =
    Accepts-ensure (not (has_fract t || not (in_range 1 86400 t))) _ _
      λ fits. Accepts-ok (some (as_u64 t)) (as_u64_bounds t fits)

api_key_of-HasKey :
    (o : Option Text) (provider : ProviderKind) (idx : ℕ) (env : EnvProvider)
    → Accepts (api_key_of o provider idx env) (λ key.
      HasKey o (is_http_header_transport provider) env key
      × ((is_branded provider ≡ false) ⊎ (is_some key ≡ true)))
unfolding api_key_of
api_key_of-HasKey (some reference) provider idx env =
    Accepts-bind (resolve_secret reference _ (is_http_header_transport provider) env) _
      (resolve_secret-IsSecret reference _ _ env) λ key h. Accepts-ok (some key) (h, inr refl)
api_key_of-HasKey none provider idx env =
    Accepts-ensure (not (is_branded provider)) _ _
      λ free. Accepts-ok none (tt, inl (refuted _ free))

own_base :
    (rest base : Text)
    → ◌≡◌ {A = Option Text} (some (lit "https://" ++ rest)) (some base)
    → is_empty rest ≡ false
    → IsTrimmed (lit "https://" ++ rest)
    → IsHttps base × IsTrimmed base
own_base rest base h some_bytes t =
    let e : base ≡ lit "https://" ++ rest = cc h in
    (https base rest e some_bytes, ap (trim_end_matches b'/') e ∙ t ∙ sym e)

default_api_base-IsHttps :
    (provider : ProviderKind) (base : Text)
    → default_api_base provider ≡ some base
    → IsHttps base × IsTrimmed base
unfolding default_api_base lit trim_end_matches
default_api_base-IsHttps ProviderKind.openai base h =
    own_base (lit "api.openai.com/v1") base h refl refl
default_api_base-IsHttps ProviderKind.mistral base h =
    own_base (lit "api.mistral.ai/v1") base h refl refl
default_api_base-IsHttps ProviderKind.deepseek base h =
    own_base (lit "api.deepseek.com") base h refl refl
default_api_base-IsHttps ProviderKind.anthropic base h =
    own_base (lit "api.anthropic.com/v1") base h refl refl
default_api_base-IsHttps ProviderKind.gemini base h =
    own_base (lit "generativelanguage.googleapis.com/v1beta") base h refl refl
default_api_base-IsHttps ProviderKind.openai_compatible base h = absurd (cc h)

default-IsBase :
    (provider : ProviderKind) (has_api_key : Bool) (base : Text)
    → default_api_base provider ≡ some base
    → IsBase provider has_api_key base
default-IsBase provider has_api_key base h =
    let (safe, trimmed) = default_api_base-IsHttps provider base h in
    record { branded = inr safe; keyed = inr safe; trimmed = trimmed }

api_base_of-IsBase :
    (o : Option Text) (provider : ProviderKind) (has_api_key : Bool) (idx : ℕ)
    → Accepts
        (api_base_of o provider has_api_key idx)
        (λ base. IsBase provider has_api_key base × BaseFrom o provider base)
unfolding api_base_of
api_base_of-IsBase (some given) provider has_api_key idx =
    validate_and_normalize_api_base-IsBase given provider has_api_key _
api_base_of-IsBase none provider has_api_key idx = elim (Option-cases (default_api_base provider)) [
  | inl e ↦ rw e (rejects _ refl)
  | inr (base, e) ↦ rw e (accepts base refl (default-IsBase provider has_api_key base e, refl))
]

pub build_target-IsTarget :
    (entry : RawModelEntry) (idx request_timeout : ℕ) (env : EnvProvider)
    → IsTimeout request_timeout
    → Accepts (build_target entry idx request_timeout env) (IsTarget entry request_timeout env)
unfolding build_target
build_target-IsTarget entry idx request_timeout env limit =
    Accepts-bind (validate_model_name entry.model_name _) _
      (validate_model_name-IsModelName entry.model_name _)
      λ _ named.
        Accepts-bind (validate_target_model entry.litellm_params.model _) _
          (validate_target_model-IsTargetModel entry.litellm_params.model _)
          λ (provider, suffix) parts.
            Accepts-bind (api_key_of entry.litellm_params.api_key provider idx env) _
              (api_key_of-HasKey entry.litellm_params.api_key provider idx env)
              λ api_key (key, required).
                Accepts-bind
                  (api_base_of entry.litellm_params.api_base provider (is_some api_key) idx) _
                  (api_base_of-IsBase entry.litellm_params.api_base provider (is_some api_key) idx)
                  λ api_base (base, from).
                    Accepts-bind (timeout_of entry.litellm_params.timeout _ _) _
                      (timeout_of-bounded entry.litellm_params.timeout _ _ request_timeout limit)
                      λ explicit_timeout bounded. Accepts-ok _ (record {
                        named = named;
                        model = refl;
                        parts = parts;
                        key = key;
                        required = required;
                        base = base;
                        from = from;
                        timed = refl;
                        bounded = bounded;
                      })

-- Each entry with its name and target.
abbrev pub AreEntries : ℕ → EnvProvider → List RawModelEntry → List (Text × RuntimeTarget) → Type 0
AreEntries limit env [] [] = Unit
AreEntries limit env (entry ∷ entries) ((n, target) ∷ built) =
    (n ≡ entry.model_name) × IsTarget entry limit env target × AreEntries limit env entries built
AreEntries limit env _ _ = ⊥

pub build_targets-AreEntries :
    (entries : List RawModelEntry) (idx limit : ℕ) (env : EnvProvider)
    → IsTimeout limit
    → Accepts (build_targets entries idx limit env) (AreEntries limit env entries)
unfolding build_targets
build_targets-AreEntries [] idx limit env h = Accepts-ok [] tt
build_targets-AreEntries (entry ∷ entries) idx limit env h =
    Accepts-bind (build_target entry idx limit env) _ (build_target-IsTarget entry idx limit env h)
      λ target t.
        Accepts-bind (build_targets entries (idx + 1) limit env) _
          (build_targets-AreEntries entries (idx + 1) limit env h)
          λ built b. Accepts-ok ((entry.model_name, target) ∷ built) (refl, t, b)
