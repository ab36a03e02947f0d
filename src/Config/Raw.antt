-- ===== src/Config/Raw.antt =====
-- The configuration as it stands in the file (src/config/raw.rs).
use nano_llm.Common.{ℕ, Text, Option, List}
use nano_llm.Float.{F64}

pub record RawLiteLlmParams : Type 0 where
  pub model : Text
  pub api_key : Option Text
  pub api_base : Option Text
  pub timeout : Option F64

pub record RawModelEntry : Type 0 where
  pub model_name : Text
  pub litellm_params : RawLiteLlmParams

pub record RawGeneralSettings : Type 0 where
  pub master_key : Option Text
  pub request_timeout : Option F64
  pub overall_timeout : Option F64
  pub max_in_flight : Option ℕ

pub record RawConfig : Type 0 where
  pub model_list : List RawModelEntry
  pub general_settings : Option RawGeneralSettings
