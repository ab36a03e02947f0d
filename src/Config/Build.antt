-- ===== src/Config/Build.antt =====
-- build_runtime_config (src/config/validate.rs): from the file to the configuration that runs.
pub mod Grouped
pub mod Valid
pub mod Settings
pub mod Configured
use nano_llm.Common.{
  ℕ, ◌+◌, Text, lit, text_eq, decimal, Bool, true, false, not, ◌&&◌, ◌||◌, Option, none, some, List,
  [], ◌∷◌, ◌++◌, is_empty, is_some, leb, if◌then◌else◌, Result, ok, err, ensure, ok_or, ◌>>=◌, ◌>>◌,
}
use nano_llm.Float.{F64, has_fract, in_range, as_u64}
use nano_llm.Config.{
  ProviderKind, is_branded, default_api_base, is_http_header_transport, name, SecretString,
  RuntimeTarget, RuntimeRoute, RuntimeGeneralSettings, default_settings, RuntimeConfig,
}
use nano_llm.Config.Error.{ConfigErrorKind, ConfigError, unplaced}
use nano_llm.Config.Raw.{RawConfig, RawModelEntry, RawLiteLlmParams, RawGeneralSettings}
use nano_llm.Config.Secrets.{EnvProvider, resolve_secret}
use nano_llm.Config.Names.{validate_model_name, validate_target_model}
use nano_llm.Config.ApiBase.{validate_and_normalize_api_base}

-- A whole number of seconds, up to a day.
unfoldable pub timeout_of : Option F64 → (path reason : Text) → Result ConfigError (Option ℕ)
timeout_of none path reason = ok none
timeout_of (some t) path reason = do
  ensure (not (has_fract t || not (in_range 1 86400 t)))
      (unplaced (ConfigErrorKind.invalid_timeout path reason))
  ok (some (as_u64 t))

abbrev pub unwrap_or : Option ℕ → ℕ → ℕ
unwrap_or none value = value
unwrap_or (some n) value = n

unfoldable pub max_in_flight_of : Option ℕ → Result ConfigError ℕ
max_in_flight_of none = ok 64
max_in_flight_of (some mif) = do
  ensure (leb 1 mif && leb mif 65535) (
      unplaced (
        ConfigErrorKind.invalid_max_in_flight (lit "general_settings.max_in_flight")
          (lit "max_in_flight must be an integer between 1 and 65535")))
  ok mif

unfoldable pub master_key_of :
    Option Text → (no_auth : Bool) → EnvProvider → Result ConfigError (Option SecretString)
master_key_of (some reference) no_auth env = do
  key ← resolve_secret reference (lit "general_settings.master_key") true env
  ok (some key)
master_key_of none no_auth env = do
  ensure no_auth (unplaced (ConfigErrorKind.missing_master_key (lit "general_settings.master_key")))
  ok none

unfoldable pub build_settings :
    Option RawGeneralSettings
    → (no_auth : Bool) → EnvProvider
    → Result ConfigError RuntimeGeneralSettings
unfolding master_key_of timeout_of max_in_flight_of
build_settings (some raw_gs) no_auth env = do
  master_key ← master_key_of raw_gs.master_key no_auth env
  request_timeout ←
      timeout_of raw_gs.request_timeout (lit "general_settings.request_timeout")
        (lit "request_timeout must be an integer between 1 and 86400 seconds")
  overall_timeout ←
      timeout_of raw_gs.overall_timeout (lit "general_settings.overall_timeout")
        (lit "overall_timeout must be an integer between 1 and 86400 seconds")
  max_in_flight ← max_in_flight_of raw_gs.max_in_flight
  ok (record {
    master_key = master_key;
    request_timeout = unwrap_or request_timeout 30;
    overall_timeout = unwrap_or overall_timeout 120;
    max_in_flight = max_in_flight;
  })
build_settings none no_auth env = do
  ensure no_auth (unplaced (ConfigErrorKind.missing_general_settings (lit "general_settings")))
  ok default_settings

entry_path : ℕ → Text → Text
entry_path idx rest = lit "model_list[" ++ decimal idx ++ lit "]." ++ rest

unfoldable pub api_key_of :
    Option Text → ProviderKind → (idx : ℕ) → EnvProvider → Result ConfigError (Option SecretString)
unfolding entry_path
api_key_of (some reference) provider idx env = do
  key ←
      resolve_secret reference (entry_path idx (lit "litellm_params.api_key"))
        (is_http_header_transport provider) env
  ok (some key)
api_key_of none provider idx env = do
  ensure (not (is_branded provider)) (
      unplaced
        (ConfigErrorKind.missing_api_key (entry_path idx (lit "litellm_params")) (name provider)))
  ok none

unfoldable pub api_base_of :
    Option Text → ProviderKind → (has_api_key : Bool) → (idx : ℕ) → Result ConfigError Text
unfolding entry_path
api_base_of (some base) provider has_api_key idx =
    validate_and_normalize_api_base base provider has_api_key
      (entry_path idx (lit "litellm_params.api_base"))
api_base_of none provider has_api_key idx = ok_or (default_api_base provider) (
    unplaced
      (ConfigErrorKind.missing_api_base (entry_path idx (lit "litellm_params")) (name provider)))

-- One entry of the list, at its index.
unfoldable pub build_target :
    RawModelEntry → (idx request_timeout : ℕ) → EnvProvider → Result ConfigError RuntimeTarget
unfolding api_key_of api_base_of entry_path timeout_of
build_target entry idx request_timeout env = do
  validate_model_name entry.model_name (entry_path idx (lit "model_name"))
  (provider, suffix) ←
      validate_target_model entry.litellm_params.model (entry_path idx (lit "litellm_params.model"))
  api_key ← api_key_of entry.litellm_params.api_key provider idx env
  api_base ← api_base_of entry.litellm_params.api_base provider (is_some api_key) idx
  explicit_timeout ←
      timeout_of entry.litellm_params.timeout (entry_path idx (lit "litellm_params.timeout"))
        (lit "timeout must be an integer between 1 and 86400 seconds")
  ok (record {
    model = entry.litellm_params.model;
    provider = provider;
    model_suffix = suffix;
    api_key = api_key;
    api_base = api_base;
    timeout = unwrap_or explicit_timeout request_timeout;
    explicit_timeout = explicit_timeout;
  })

-- The entries from index `idx` on, each with its public name.
unfoldable pub build_targets :
    List RawModelEntry
    → (idx request_timeout : ℕ) → EnvProvider
    → Result ConfigError (List (Text × RuntimeTarget))
unfolding build_target
build_targets [] idx request_timeout env = ok []
build_targets (entry ∷ model_list) idx request_timeout env = do
  target ← build_target entry idx request_timeout env
  rest ← build_targets model_list (idx + 1) request_timeout env
  ok ((entry.model_name, target) ∷ rest)

-- The target goes to the route of its name, or opens a new one.
unfoldable pub add_target : List RuntimeRoute → Text → RuntimeTarget → List RuntimeRoute
add_target [] model_name target = record { model_name = model_name; targets = target ∷ [] } ∷ []
add_target (route ∷ routes) model_name target =
    if text_eq route.model_name model_name
    then record route { targets = route.targets ++ target ∷ [] } ∷ routes
    else route ∷ add_target routes model_name target

unfoldable pub group : List RuntimeRoute → List (Text × RuntimeTarget) → List RuntimeRoute
unfolding add_target
group routes [] = routes
group routes ((model_name, target) ∷ entries) = group (add_target routes model_name target) entries

unfoldable pub build_runtime_config :
    RawConfig → (no_auth : Bool) → EnvProvider → Result ConfigError RuntimeConfig
unfolding build_settings build_targets group
build_runtime_config raw no_auth env = do
  general_settings ← build_settings raw.general_settings no_auth env
  ensure (not (is_empty raw.model_list))
      (unplaced (ConfigErrorKind.empty_model_list (lit "model_list")))
  entries ← build_targets raw.model_list 0 general_settings.request_timeout env
  ok (record { general_settings = general_settings; routes = group [] entries })
