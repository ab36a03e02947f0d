-- ===== src/Config/Tests.antt =====
-- A configuration of three entries under two names, built as src/config/validate.rs does.
use nano_llm.Common.{
  ℕ, String, Text, lit, text_eq, decimal, true, false, Option, none, some, [], ◌∷◌, ◌≡◌, refl, ok,
}
use nano_llm.Common.Scan.{
  split_at_first, split, strip_prefix, trim_end_matches, has_whitespace, is_ascii_digit,
  is_ascii_hexdigit, is_ascii_control, is_ascii_alphanumeric,
}
use nano_llm.Float.{F64, has_fract, in_range, as_u64}
use nano_llm.Config.{
  ProviderKind, is_branded, default_api_base, is_http_header_transport, SecretString, RuntimeTarget,
  RuntimeConfig,
}
use nano_llm.Config.Raw.{RawConfig, RawModelEntry}
use nano_llm.Config.Secrets.{EnvProvider, resolve_secret}
use nano_llm.Config.Names.{validate_model_name, validate_target_model}
use nano_llm.Config.Ipv6.{is_ipv6}
use nano_llm.Config.ApiBase.{
  has_valid_percent_escapes, is_valid_url_authority, validate_and_normalize_api_base,
}
use nano_llm.Config.Build.{build_runtime_config}
use nano_llm.Config.Build.Configured.{IsConfigured, build_runtime_config-IsConfigured}
use nano_llm.Config.Display.{route_table_display}
use nano_llm.Config.Display.Redacted.{rekeyed_config, route_table_display-rekeyed}

abbrev entry : String → String → Option Text → Option Text → Option F64 → RawModelEntry
entry model_name model api_key api_base timeout = record {
  model_name = lit model_name;
  litellm_params = record {
    model = lit model;
    api_key = api_key;
    api_base = api_base;
    timeout = timeout;
  };
}

abbrev pub raw : RawConfig
raw = record {
  model_list =
      entry "fast" "gemini/flash" (some (lit "os.environ/KEY")) none none
      ∷ entry "own" "openai_compatible/m" none (some (lit "http://[::1]:8080/v1/"))
          (some (F64.fin false 5 false))
      ∷ entry "fast" "openai/o" (some (lit "os.environ/KEY"))
          (some (lit "https://proxy.test/a%2Fb//")) none
      ∷ [];
  general_settings = none;
}

abbrev pub env : EnvProvider
env = record { get_utf8_var = λ var_name. ok (some (lit "k")) }

abbrev target :
    ProviderKind → String → String → Option SecretString → String → ℕ → Option ℕ → RuntimeTarget
target provider model model_suffix api_key api_base timeout explicit_timeout = record {
  model = lit model;
  provider = provider;
  model_suffix = lit model_suffix;
  api_key = api_key;
  api_base = lit api_base;
  timeout = timeout;
  explicit_timeout = explicit_timeout;
}

abbrev key : Option SecretString
key = some (record { secret = lit "k" })

abbrev pub config : RuntimeConfig
config = record {
  general_settings = record {
    master_key = none;
    request_timeout = 30;
    overall_timeout = 120;
    max_in_flight = 64;
  };
  routes =
      record {
        model_name = lit "fast";
        targets =
            target ProviderKind.gemini "gemini/flash" "flash" key
              "https://generativelanguage.googleapis.com/v1beta" 30 none
            ∷ target ProviderKind.openai "openai/o" "o" key "https://proxy.test/a%2Fb" 30 none
            ∷ [];
      }
      ∷ record {
        model_name = lit "own";
        targets =
            target ProviderKind.openai_compatible "openai_compatible/m" "m" none
              "http://[::1]:8080/v1" 5 (some 5)
            ∷ [];
      }
      ∷ [];
}

pub built : build_runtime_config raw true env ≡ ok config
unfolding build_runtime_config validate_model_name validate_target_model resolve_secret
    validate_and_normalize_api_base is_valid_url_authority has_valid_percent_escapes is_ipv6
    default_api_base is_http_header_transport is_branded has_fract in_range as_u64 split_at_first
    split strip_prefix trim_end_matches has_whitespace is_ascii_control is_ascii_alphanumeric
    is_ascii_digit is_ascii_hexdigit text_eq lit decimal
built = refl

build_runtime_config-IsConfigured_example : IsConfigured raw true env config
build_runtime_config-IsConfigured_example =
    build_runtime_config-IsConfigured raw true env config built

route_table_display-rekeyed_example :
    route_table_display (rekeyed_config (λ key. record { secret = [] }) config)
    ≡ route_table_display config
route_table_display-rekeyed_example =
    route_table_display-rekeyed (λ key. record { secret = [] }) config

-- Addresses that the standard library reads, and some that it does not.
ipv6_accepted : is_ipv6 (lit "::") ≡ true
unfolding is_ipv6 is_ascii_digit is_ascii_hexdigit lit
ipv6_accepted = refl

ipv6_embedded : is_ipv6 (lit "64:ff9b::192.0.2.33") ≡ true
unfolding is_ipv6 is_ascii_digit is_ascii_hexdigit lit
ipv6_embedded = refl

ipv6_full : is_ipv6 (lit "1:2:3:4:5:6:7::") ≡ true
unfolding is_ipv6 is_ascii_digit is_ascii_hexdigit lit
ipv6_full = refl

ipv6_two_elisions : is_ipv6 (lit "1::2::3") ≡ false
unfolding is_ipv6 is_ascii_digit is_ascii_hexdigit lit
ipv6_two_elisions = refl

ipv6_long_group : is_ipv6 (lit "::12345") ≡ false
unfolding is_ipv6 is_ascii_digit is_ascii_hexdigit lit
ipv6_long_group = refl
