-- ===== src/Config/Build/Settings.antt =====
-- What the settings of a built configuration look like (src/config/validate.rs).
use nano_llm.Common.{
  ℕ, ◌≤◌, Text, Bool, true, ◌&&◌, ◌≡◌, refl, sym, subst, ◌⊎◌, inl, inr, Option, none, some, is_some,
  leb, arith, Accepts, Accepts-ok, Accepts-bind, Accepts-ensure,
}
use nano_llm.Config.{RuntimeGeneralSettings}
use nano_llm.Config.Raw.{RawConfig, RawGeneralSettings}
use nano_llm.Config.Secrets.{EnvProvider, resolve_secret}
use nano_llm.Config.Secrets.Resolved.{resolve_secret-IsSecret}
use nano_llm.Config.Build.{timeout_of, max_in_flight_of, master_key_of, build_settings}
use nano_llm.Config.Build.Valid.{HasKey, IsTimeout, timeout_of-bounded}

abbrev pub master_reference : Option RawGeneralSettings → Option Text
master_reference none = none
master_reference (some raw_gs) = raw_gs.master_key

-- The settings of the file, or the defaults.
pub record IsSettings (raw : RawConfig) (no_auth : Bool) (env : EnvProvider)
    (settings : RuntimeGeneralSettings) : Type 0 where
  pub request : IsTimeout settings.request_timeout
  pub overall : IsTimeout settings.overall_timeout
  pub capacity : (1 ≤ settings.max_in_flight) × (settings.max_in_flight ≤ 65535)
  pub authenticated : (no_auth ≡ true) ⊎ (is_some settings.master_key ≡ true)
  pub master : HasKey (master_reference raw.general_settings) true env settings.master_key

master_key_of-HasKey :
    (o : Option Text) (no_auth : Bool) (env : EnvProvider)
    → Accepts
        (master_key_of o no_auth env)
        (λ key. HasKey o true env key × ((no_auth ≡ true) ⊎ (is_some key ≡ true)))
unfolding master_key_of
master_key_of-HasKey (some reference) no_auth env =
    Accepts-bind (resolve_secret reference _ true env) _
      (resolve_secret-IsSecret reference _ true env) λ key h. Accepts-ok (some key) (h, inr refl)
master_key_of-HasKey none no_auth env =
    Accepts-ensure no_auth _ _ λ free. Accepts-ok none (tt, inl free)

max_in_flight_of_bounds : (o : Option ℕ) → Accepts (max_in_flight_of o) (λ n. (1 ≤ n) × (n ≤ 65535))
unfolding max_in_flight_of
max_in_flight_of_bounds none = Accepts-ok 64 (omega arith)
max_in_flight_of_bounds (some mif) =
    Accepts-ensure (leb 1 mif && leb mif 65535) _ _ λ fits. Accepts-ok mif (ground arith)

pub build_settings-IsSettings :
    (raw : RawConfig) (o : Option RawGeneralSettings) (no_auth : Bool) (env : EnvProvider)
    → raw.general_settings ≡ o
    → Accepts (build_settings o no_auth env) (IsSettings raw no_auth env)
unfolding build_settings
build_settings-IsSettings raw (some raw_gs) no_auth env same =
    Accepts-bind (master_key_of raw_gs.master_key no_auth env) _
      (master_key_of-HasKey raw_gs.master_key no_auth env)
      λ key (has, authenticated).
        Accepts-bind (timeout_of raw_gs.request_timeout _ _) _
          (timeout_of-bounded raw_gs.request_timeout _ _ 30 (omega arith))
          λ request r.
            Accepts-bind (timeout_of raw_gs.overall_timeout _ _) _
              (timeout_of-bounded raw_gs.overall_timeout _ _ 120 (omega arith))
              λ overall o.
                Accepts-bind (max_in_flight_of raw_gs.max_in_flight) _
                  (max_in_flight_of_bounds raw_gs.max_in_flight)
                  λ capacity c. Accepts-ok _ (record {
                    request = r;
                    overall = o;
                    capacity = c;
                    authenticated = authenticated;
                    master = subst (λ g. HasKey (master_reference g) true env key) (sym same) has;
                  })
build_settings-IsSettings raw none no_auth env same = Accepts-ensure no_auth _ _ λ free.
    Accepts-ok _ (record {
      request = omega arith;
      overall = omega arith;
      capacity = omega arith;
      authenticated = inl free;
      master = subst (λ g. HasKey (master_reference g) true env none) (sym same) tt;
    })
