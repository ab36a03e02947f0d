-- ===== src/Config/Display.antt =====
-- The display of the resolved route table (src/config/runtime.rs, route_table_display).
pub mod Redacted
use nano_llm.Common.{
  ℕ, ◌+◌, Text, lit, decimal, Option, none, some, List, [], ◌∷◌, ◌++◌, length, if◌then◌else◌, ◌==◌,
}
use nano_llm.Config.{
  name, SecretString, RuntimeTarget, RuntimeRoute, RuntimeGeneralSettings, RuntimeConfig,
}

-- A label, a value and the end of the line.
line : Text → Text → Text
line label value = label ++ value ++ 10 ∷ []

secret_or_none : Option SecretString → Text
secret_or_none (some _) = lit "[REDACTED]"
secret_or_none none = lit "(none)"

seconds : ℕ → Text
seconds n = decimal n ++ lit "s"

display_target : ℕ → RuntimeTarget → Text
unfolding line secret_or_none seconds
display_target number target =
    line (lit "    " ++ decimal number ++ lit ". ") target.model
    ++ line (lit "       provider: ") (name target.provider)
    ++ line (lit "       api_base: ") target.api_base
    ++ line (lit "       api_key: ") (secret_or_none target.api_key)
    ++ line (lit "       timeout: ") (seconds target.timeout)

display_targets : ℕ → List RuntimeTarget → Text
unfolding display_target
display_targets number [] = []
display_targets number (target ∷ targets) =
    display_target number target ++ display_targets (number + 1) targets

display_routes : List RuntimeRoute → Text
unfolding display_targets line
display_routes [] = []
display_routes (route ∷ routes) =
    line (lit "  - model: ") (
      route.model_name
      ++ lit " ("
      ++ decimal (length route.targets)
      ++ lit " "
      ++ (if length route.targets == 1 then lit "target" else lit "targets")
      ++ lit ")")
    ++ display_targets 1 route.targets
    ++ display_routes routes

total_targets : List RuntimeRoute → ℕ
total_targets [] = 0
total_targets (route ∷ routes) = length route.targets + total_targets routes

unfoldable pub route_table_display : RuntimeConfig → Text
unfolding line secret_or_none seconds display_routes total_targets
route_table_display config =
    line (lit "nano-llm resolved route table:") []
    ++ line (lit "General Settings:") []
    ++ line (lit "  master_key: ") (secret_or_none config.general_settings.master_key)
    ++ line (lit "  request_timeout: ") (seconds config.general_settings.request_timeout)
    ++ line (lit "  overall_timeout: ") (seconds config.general_settings.overall_timeout)
    ++ line (lit "  max_in_flight: ") (decimal config.general_settings.max_in_flight)
    ++ line [] []
    ++ line (lit "Routes (") (
        decimal (length config.routes)
        ++ lit " public models, "
        ++ decimal (total_targets config.routes)
        ++ lit " total targets):")
    ++ display_routes config.routes
