-- ===== src/Config.antt =====
-- The immutable runtime configuration of src/config/runtime.rs.
pub mod Error
pub mod Raw
pub mod Secrets
pub mod Names
pub mod Ipv6
pub mod ApiBase
pub mod Build
pub mod Display
pub mod Tests
use nano_llm.Common.{
  ℕ, Text, lit, text_eq, Bool, true, false, Option, none, some, List, [], ◌∷◌, if◌then◌else◌,
}

pub data ProviderKind : Type 0 where
  openai mistral deepseek openai_compatible anthropic gemini : ProviderKind

unfoldable pub is_branded : ProviderKind → Bool
is_branded ProviderKind.openai_compatible = false
is_branded _ = true

unfoldable pub default_api_base : ProviderKind → Option Text
default_api_base ProviderKind.openai = some (lit "https://api.openai.com/v1")
default_api_base ProviderKind.mistral = some (lit "https://api.mistral.ai/v1")
default_api_base ProviderKind.deepseek = some (lit "https://api.deepseek.com")
default_api_base ProviderKind.anthropic = some (lit "https://api.anthropic.com/v1")
default_api_base ProviderKind.gemini = some (lit "https://generativelanguage.googleapis.com/v1beta")
default_api_base ProviderKind.openai_compatible = none

unfoldable pub is_http_header_transport : ProviderKind → Bool
is_http_header_transport ProviderKind.gemini = false
is_http_header_transport _ = true

unfoldable pub name : ProviderKind → Text
name ProviderKind.openai = lit "openai"
name ProviderKind.mistral = lit "mistral"
name ProviderKind.deepseek = lit "deepseek"
name ProviderKind.openai_compatible = lit "openai_compatible"
name ProviderKind.anthropic = lit "anthropic"
name ProviderKind.gemini = lit "gemini"

pub record SecretString : Type 0 where
  pub secret : Text

pub record RuntimeTarget : Type 0 where
  pub model : Text
  pub provider : ProviderKind
  pub model_suffix : Text
  pub api_key : Option SecretString
  pub api_base : Text
  pub timeout : ℕ
  pub explicit_timeout : Option ℕ

pub record RuntimeRoute : Type 0 where
  pub model_name : Text
  pub targets : List RuntimeTarget

pub record RuntimeGeneralSettings : Type 0 where
  pub master_key : Option SecretString
  pub request_timeout : ℕ
  pub overall_timeout : ℕ
  pub max_in_flight : ℕ

-- RuntimeGeneralSettings::default
abbrev pub default_settings : RuntimeGeneralSettings
default_settings = record {
  master_key = none;
  request_timeout = 30;
  overall_timeout = 120;
  max_in_flight = 64;
}

pub record RuntimeConfig : Type 0 where
  pub general_settings : RuntimeGeneralSettings
  pub routes : List RuntimeRoute

unfoldable pub find_route : List RuntimeRoute → Text → Option RuntimeRoute
find_route [] model_name = none
find_route (r ∷ routes) model_name =
    if text_eq r.model_name model_name then some r else find_route routes model_name

unfoldable pub get_route : RuntimeConfig → Text → Option RuntimeRoute
unfolding find_route
get_route config model_name = find_route config.routes model_name
