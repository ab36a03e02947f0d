-- ===== src/Server/Perimeter/Models.antt =====
-- The list of models (src/server.rs, models_response) writes names without escaping them: those of
-- a built configuration need none.
use nano_llm.Common.{
  ℕ, Text, lit, Bool, true, false, ◌≡◌, refl, ap, List, [], ◌∷◌, ◌++◌, map, All, all, ◌==◌, ok,
  Bool-cases, inl, inr, arith,
}
use nano_llm.Config.{RuntimeRoute, RuntimeConfig}
use nano_llm.Config.Raw.{RawConfig}
use nano_llm.Config.Secrets.{EnvProvider}
use nano_llm.Config.Names.{name_byte}
use nano_llm.Config.Names.Valid.{IsModelName}
use nano_llm.Config.Build.{build_runtime_config}
use nano_llm.Config.Build.Grouped.{names_of}
use nano_llm.Config.Build.Configured.{build_runtime_config-IsConfigured}
use nano_llm.Server.Serialize.{escape_byte, escape_from, json_escape, commas}
use nano_llm.Server.Perimeter.{json_response, model_entry, models_response}

plain_byte : (b : ℕ) → name_byte b ≡ true → ((b == 194) ≡ false) × (escape_byte b ≡ b ∷ [])
unfolding name_byte escape_byte
plain_byte b h = ground arith

escape_from-name : (t : Text) → all name_byte t ≡ true → escape_from false t ≡ t
unfolding escape_from
escape_from-name [] h = refl
escape_from-name (b ∷ t) h = elim (Bool-cases (name_byte b)) [
  | inl e ↦
      let (other, plain) = plain_byte b e in
      rw other (rw plain (ap (λ s. b ∷ s) (escape_from-name t (rw e at h))))
  | inr e ↦ absurd (cc (rw e at h))
]

-- An entry whose name is written as JSON text.
pub escaped_entry : RuntimeRoute → Text
escaped_entry route =
    lit "{\"id\":\""
    ++ json_escape route.model_name
    ++ lit "\",\"object\":\"model\",\"created\":0,\"owned_by\":\"nano-llm\"}"

entries-escaped :
    (routes : List RuntimeRoute)
    → All IsModelName (names_of routes)
    → map model_entry routes ≡ map escaped_entry routes
unfolding model_entry escaped_entry json_escape
entries-escaped [] h = refl
entries-escaped (route ∷ routes) h =
    rw (escape_from-name route.model_name h.0.bytes) (rw (entries-escaped routes h.1) refl)

-- For a configuration that `build_runtime_config` returns, `models_response` is the list in which
-- every public name is escaped as JSON text, in the order of the routes: no name breaks out of its
-- string.
pub models_response-escaped :
    (raw : RawConfig) (no_auth : Bool) (env : EnvProvider) (config : RuntimeConfig)
    → build_runtime_config raw no_auth env ≡ ok config
    → models_response config.routes
      ≡ json_response 200 (
          lit "{\"object\":\"list\",\"data\":["
          ++ commas (map escaped_entry config.routes)
          ++ lit "]}")
unfolding models_response
models_response-escaped raw no_auth env config built =
    rw
      (entries-escaped config.routes
        (build_runtime_config-IsConfigured raw no_auth env config built).named)
      refl
