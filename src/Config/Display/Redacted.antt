-- ===== src/Config/Display/Redacted.antt =====
-- No secret shows in the route table (src/config/runtime.rs).
use nano_llm.Common.{ℕ, ◌+◌, ◌≡◌, refl, Option, none, some, List, [], ◌∷◌, map, length, arith}
use nano_llm.Config.{SecretString, RuntimeTarget, RuntimeRoute, RuntimeConfig}
use nano_llm.Config.Display.{
  secret_or_none, display_target, display_targets, display_routes, total_targets,
  route_table_display,
}

module _ (other : SecretString → SecretString) where
  abbrev pub rekeyed : Option SecretString → Option SecretString
  rekeyed none = none
  rekeyed (some key) = some (other key)

  abbrev pub rekeyed_target : RuntimeTarget → RuntimeTarget
  rekeyed_target target = record target { api_key = rekeyed target.api_key }

  abbrev pub rekeyed_route : RuntimeRoute → RuntimeRoute
  rekeyed_route route = record route { targets = map rekeyed_target route.targets }

  -- The same configuration with other secrets.
  abbrev pub rekeyed_config : RuntimeConfig → RuntimeConfig
  rekeyed_config config = record {
    general_settings = record config.general_settings {
      master_key = rekeyed config.general_settings.master_key;
    };
    routes = map rekeyed_route config.routes;
  }

  secret_or_none-rekeyed :
      (key : Option SecretString) → secret_or_none (rekeyed key) ≡ secret_or_none key
  unfolding secret_or_none
  secret_or_none-rekeyed none = refl
  secret_or_none-rekeyed (some key) = refl

  length-rekeyed :
      (targets : List RuntimeTarget) → length (map rekeyed_target targets) ≡ length targets
  length-rekeyed [] = refl
  length-rekeyed (target ∷ targets) = omega (arith, length-rekeyed targets)

  display_targets-rekeyed :
      (number : ℕ) (targets : List RuntimeTarget)
      → display_targets number (map rekeyed_target targets) ≡ display_targets number targets
  unfolding display_targets
  display_targets-rekeyed number [] = refl
  display_targets-rekeyed number (target ∷ targets) =
      rw (secret_or_none-rekeyed target.api_key, display_target)
        (rw (display_targets-rekeyed (number + 1) targets) refl)

  display_routes-rekeyed :
      (routes : List RuntimeRoute)
      → display_routes (map rekeyed_route routes) ≡ display_routes routes
  unfolding display_routes
  display_routes-rekeyed [] = refl
  display_routes-rekeyed (route ∷ routes) =
      rw (length-rekeyed route.targets)
        (rw (display_targets-rekeyed 1 route.targets) (rw (display_routes-rekeyed routes) refl))

  total_targets-rekeyed :
      (routes : List RuntimeRoute) → total_targets (map rekeyed_route routes) ≡ total_targets routes
  unfolding total_targets
  total_targets-rekeyed [] = refl
  total_targets-rekeyed (route ∷ routes) =
      omega (arith, length-rekeyed route.targets, total_targets-rekeyed routes)

  length-routes : (routes : List RuntimeRoute) → length (map rekeyed_route routes) ≡ length routes
  length-routes [] = refl
  length-routes (route ∷ routes) = omega (arith, length-routes routes)

  -- The display of the route table shows nothing of the value of a secret: with any other secrets in
  -- the places of those that there are, it is the same text.
  pub route_table_display-rekeyed :
      (config : RuntimeConfig)
      → route_table_display (rekeyed_config config) ≡ route_table_display config
  unfolding route_table_display
  route_table_display-rekeyed config =
      rw (secret_or_none-rekeyed config.general_settings.master_key) (
        rw (length-routes config.routes) (
          rw (total_targets-rekeyed config.routes)
            (rw (display_routes-rekeyed config.routes) refl)))
