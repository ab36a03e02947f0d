-- ===== src/Config/Build/Configured.antt =====
-- What a built configuration holds (src/config/validate.rs).
use nano_llm.Common.{
  All, ℕ, Text, text_eq, Bool, false, not, ◌≡◌, refl, ap, sym, subst, ◌∙◌, inl, inr, List, [], ◌∷◌,
  map, Distinct, is_empty, if◌then◌else◌, Bool-cases, ok, Accepts, refuted, Accepts-ok,
  Accepts-bind, Accepts-ensure, Accepts-result,
}
use nano_llm.Config.{RuntimeTarget, RuntimeConfig, find_route, get_route}
use nano_llm.Config.Raw.{RawConfig, RawModelEntry}
use nano_llm.Config.Secrets.{EnvProvider}
use nano_llm.Config.Names.Valid.{IsModelName}
use nano_llm.Config.Build.{build_settings, build_targets, group, build_runtime_config}
use nano_llm.Config.Build.Valid.{IsTarget, AreEntries, build_targets-AreEntries}
use nano_llm.Config.Build.Settings.{IsSettings, build_settings-IsSettings}
use nano_llm.Config.Build.Grouped.{
  targets_of, targets_named, find_route-group, appear, names_of, names_of-group, appear-Distinct,
  appear-All,
}

-- The entries with that public name.
pub entries_named : Text → List RawModelEntry → List RawModelEntry
entries_named model_name [] = []
entries_named model_name (entry ∷ entries) =
    if text_eq entry.model_name model_name
    then entry ∷ entries_named model_name entries
    else entries_named model_name entries

-- One target for each entry, in order.
abbrev pub AreTargets : ℕ → EnvProvider → List RawModelEntry → List RuntimeTarget → Type 0
AreTargets limit env [] [] = Unit
AreTargets limit env (entry ∷ entries) (target ∷ targets) =
    IsTarget entry limit env target × AreTargets limit env entries targets
AreTargets limit env _ _ = ⊥

targets_named-AreTargets :
    (model_name : Text) (limit : ℕ) (env : EnvProvider) (entries : List RawModelEntry)
    (built : List (Text × RuntimeTarget))
    → AreEntries limit env entries built
    → AreTargets limit env (entries_named model_name entries) (targets_named model_name built)
unfolding entries_named targets_named
targets_named-AreTargets model_name limit env [] [] h = tt
targets_named-AreTargets model_name limit env [] (b ∷ built) h = absurd h
targets_named-AreTargets model_name limit env (entry ∷ entries) [] h = absurd h
targets_named-AreTargets model_name limit env (entry ∷ entries) ((n, target) ∷ built)
      (same, t, rest) =
    let ih = targets_named-AreTargets model_name limit env entries built rest in
    let test : text_eq n model_name ≡ text_eq entry.model_name model_name =
      ap (λ x. text_eq x model_name) same in
    elim (Bool-cases (text_eq entry.model_name model_name)) [
      | inl e ↦ rw e (rw (test ∙ e) (t, ih))
      | inr e ↦ rw e (rw (test ∙ e) ih)
    ]

abbrev names_in : List RawModelEntry → List Text
names_in entries = map (λ entry. entry.model_name) entries

names_of-AreEntries :
    (limit : ℕ) (env : EnvProvider) (entries : List RawModelEntry)
    (built : List (Text × RuntimeTarget))
    → AreEntries limit env entries built
    → map (λ (n, target). n) built ≡ names_in entries
names_of-AreEntries limit env [] [] h = refl
names_of-AreEntries limit env [] (b ∷ built) h = absurd h
names_of-AreEntries limit env (entry ∷ entries) [] h = absurd h
names_of-AreEntries limit env (entry ∷ entries) ((n, target) ∷ built) (same, t, rest) =
    rw same
      (ap (λ names. entry.model_name ∷ names) (names_of-AreEntries limit env entries built rest))

AreEntries-named :
    (limit : ℕ) (env : EnvProvider) (entries : List RawModelEntry)
    (built : List (Text × RuntimeTarget))
    → AreEntries limit env entries built
    → All IsModelName (names_in entries)
AreEntries-named limit env [] built h = tt
AreEntries-named limit env (entry ∷ entries) [] h = absurd h
AreEntries-named limit env (entry ∷ entries) ((n, target) ∷ built) (same, t, rest) =
    (t.named, AreEntries-named limit env entries built rest)

-- The configuration is the file's.
pub record IsConfigured (raw : RawConfig) (no_auth : Bool) (env : EnvProvider)
    (config : RuntimeConfig) : Type 0 where
  pub settings : IsSettings raw no_auth env config.general_settings
  pub nonempty : is_empty raw.model_list ≡ false
  pub routed :
      (model_name : Text)
      → AreTargets config.general_settings.request_timeout env
          (entries_named model_name raw.model_list)
          (targets_of (get_route config model_name))
  pub ordered : names_of config.routes ≡ appear [] (names_in raw.model_list)
  pub distinct : Distinct (names_of config.routes)
  pub named : All IsModelName (names_of config.routes)

found :
    (model_name : Text) (built : List (Text × RuntimeTarget))
    → targets_of (find_route (group [] built) model_name) ≡ targets_named model_name built
unfolding targets_of find_route
found model_name built = find_route-group [] built model_name

configured :
    (raw : RawConfig) (no_auth : Bool) (env : EnvProvider)
    → Accepts (build_runtime_config raw no_auth env) (IsConfigured raw no_auth env)
unfolding build_runtime_config get_route
configured raw no_auth env =
    Accepts-bind (build_settings raw.general_settings no_auth env) _
      (build_settings-IsSettings raw raw.general_settings no_auth env refl)
      λ settings s. Accepts-ensure (not (is_empty raw.model_list)) _ _ λ nonempty.
        Accepts-bind (build_targets raw.model_list 0 settings.request_timeout env) _
          (build_targets-AreEntries raw.model_list 0 settings.request_timeout env s.request)
          λ built b.
            let order : names_of (group [] built) ≡ appear [] (names_in raw.model_list) =
              names_of-group [] built
              ∙ ap (appear []) (names_of-AreEntries _ env raw.model_list built b) in
            Accepts-ok _ (record {
              settings = s;
              nonempty = refuted _ nonempty;
              routed = λ model_name.
                  subst
                    (AreTargets settings.request_timeout env
                      (entries_named model_name raw.model_list))
                    (sym (found model_name built))
                    (targets_named-AreTargets model_name _ env raw.model_list built b);
              ordered = order;
              distinct =
                  subst Distinct (sym order) (appear-Distinct [] (names_in raw.model_list) tt);
              named = subst (All IsModelName) (sym order) (
                  appear-All IsModelName [] (names_in raw.model_list) tt
                    (AreEntries-named _ env raw.model_list built b));
            })

-- A configuration that `build_runtime_config` returns is the file's. For each public model name, the
-- lookup gives one target for each entry of that name, in the order of the file; a name without an
-- entry has no targets. Each target has the entry's model, split into provider and suffix, the key
-- that the environment has under the entry's reference (a branded provider has one), and a timeout of
-- 1 to 86400 seconds; a target with a key, or of a branded provider, is reached by https only. The
-- routes stand in the order in which the names first appear, under
-- distinct names of at most 128 letters, digits and `._:/-`. The settings are
-- in their ranges, and without `no_auth` there is a master key.
pub build_runtime_config-IsConfigured :
    (raw : RawConfig) (no_auth : Bool) (env : EnvProvider) (config : RuntimeConfig)
    → build_runtime_config raw no_auth env ≡ ok config
    → IsConfigured raw no_auth env config
build_runtime_config-IsConfigured raw no_auth env config =
    Accepts-result (build_runtime_config raw no_auth env) config (configured raw no_auth env)
