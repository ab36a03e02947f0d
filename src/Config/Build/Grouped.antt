-- ===== src/Config/Build/Grouped.antt =====
-- The grouping of entries into routes (src/config/validate.rs, build_runtime_config): what a lookup
-- finds, and in which order the routes stand.
use nano_llm.Common.{
  Text, text_eq, text_eq_iff, text_eq-false, contains, contains-Fresh, false, ◌≡◌, refl, sym, ap,
  ◌∙◌, inl, inr, Option, none, some, List, [], ◌∷◌, ◌++◌, map, All, All-append, Distinct,
  Distinct-append, if◌then◌else◌, Bool-cases,
}
use mathlib.Core.List.{append_assoc, append-nil}
use nano_llm.Config.{RuntimeTarget, RuntimeRoute, find_route}
use nano_llm.Config.Build.{add_target, group}

unfoldable pub targets_of : Option RuntimeRoute → List RuntimeTarget
targets_of none = []
targets_of (some route) = route.targets

-- The targets of the entries with that public name, in the order of the file.
unfoldable pub targets_named : Text → List (Text × RuntimeTarget) → List RuntimeTarget
targets_named model_name [] = []
targets_named model_name ((n, target) ∷ entries) =
    if text_eq n model_name
    then target ∷ targets_named model_name entries
    else targets_named model_name entries

one_named : Text → Text → RuntimeTarget → List RuntimeTarget
one_named model_name n target = if text_eq n model_name then target ∷ [] else []

find_route-add_target :
    (routes : List RuntimeRoute) (n : Text) (target : RuntimeTarget) (model_name : Text)
    → targets_of (find_route (add_target routes n target) model_name)
      ≡ targets_of (find_route routes model_name) ++ one_named model_name n target
unfolding find_route add_target targets_of one_named
find_route-add_target [] n target model_name = elim (Bool-cases (text_eq n model_name)) [
  | inl e ↦ rw e refl
  | inr e ↦ rw e refl
]
find_route-add_target (route ∷ routes) n target model_name =
    elim (Bool-cases (text_eq route.model_name n)) [
      | inl e ↦
          let test : text_eq route.model_name model_name ≡ text_eq n model_name =
            ap (λ t. text_eq t model_name) ((text_eq_iff route.model_name n).0 e) in
          elim (Bool-cases (text_eq n model_name)) [
            | inl f ↦ rw e (rw (test ∙ f) (rw f refl))
            | inr f ↦ rw e (rw (test ∙ f) (rw f (sym (append-nil _))))
          ]
      | inr e ↦ elim (Bool-cases (text_eq route.model_name model_name)) [
        | inl f ↦
            let other : text_eq n model_name ≡ false =
              text_eq-false n model_name (λ g. absurd (cc (e, f, g))) in
            rw e (rw f (rw other (sym (append-nil _))))
        | inr f ↦ rw e (rw f (find_route-add_target routes n target model_name))
      ]
    ]

one_named-append :
    (model_name n : Text) (target : RuntimeTarget) (entries : List (Text × RuntimeTarget))
    → one_named model_name n target ++ targets_named model_name entries
      ≡ targets_named model_name ((n, target) ∷ entries)
unfolding one_named targets_named
one_named-append model_name n target entries = elim (Bool-cases (text_eq n model_name)) [
  | inl e ↦ rw e refl
  | inr e ↦ rw e refl
]

pub find_route-group :
    (routes : List RuntimeRoute) (entries : List (Text × RuntimeTarget)) (model_name : Text)
    → targets_of (find_route (group routes entries) model_name)
      ≡ targets_of (find_route routes model_name) ++ targets_named model_name entries
unfolding group
find_route-group routes [] model_name = unfold targets_named in sym (append-nil _)
find_route-group routes ((n, target) ∷ entries) model_name =
    find_route-group (add_target routes n target) entries model_name
    ∙ ap (λ found. found ++ targets_named model_name entries)
        (find_route-add_target routes n target model_name)
    ∙ append_assoc (targets_of (find_route routes model_name)) (one_named model_name n target) _
    ∙ ap (λ found. targets_of (find_route routes model_name) ++ found)
        (one_named-append model_name n target entries)

-- Names in the order of their first appearance, after those seen.
pub appear : List Text → List Text → List Text
appear seen [] = seen
appear seen (n ∷ names) = appear (if contains seen n then seen else seen ++ n ∷ []) names

abbrev pub names_of : List RuntimeRoute → List Text
names_of routes = map (λ route. route.model_name) routes

names_of-add_target :
    (routes : List RuntimeRoute) (n : Text) (target : RuntimeTarget)
    → names_of (add_target routes n target)
      ≡ (if contains (names_of routes) n then names_of routes else names_of routes ++ n ∷ [])
unfolding add_target contains
names_of-add_target [] n target = refl
names_of-add_target (route ∷ routes) n target = elim (Bool-cases (text_eq route.model_name n)) [
  | inl e ↦ rw e refl
  | inr e ↦ elim (Bool-cases (contains (names_of routes) n)) [
    | inl f ↦
        rw e (
          rw f (ap (λ t. route.model_name ∷ t) (names_of-add_target routes n target ∙ (rw f refl))))
    | inr f ↦
        rw e (
          rw f (ap (λ t. route.model_name ∷ t) (names_of-add_target routes n target ∙ (rw f refl))))
  ]
]

pub names_of-group :
    (routes : List RuntimeRoute) (entries : List (Text × RuntimeTarget))
    → names_of (group routes entries) ≡ appear (names_of routes) (map (λ (n, target). n) entries)
unfolding group appear
names_of-group routes [] = refl
names_of-group routes ((n, target) ∷ entries) =
    names_of-group (add_target routes n target) entries
    ∙ ap (λ seen. appear seen (map (λ (n, target). n) entries))
        (names_of-add_target routes n target)

pub appear-Distinct : (seen names : List Text) → Distinct seen → Distinct (appear seen names)
unfolding appear
appear-Distinct seen [] d = d
appear-Distinct seen (n ∷ names) d = elim (Bool-cases (contains seen n)) [
  | inl e ↦ rw e (appear-Distinct seen names d)
  | inr e ↦
      rw e (
        appear-Distinct (seen ++ n ∷ []) names (Distinct-append seen n d (contains-Fresh seen n e)))
]

pub appear-All {κ} :
    (P : Text → Type κ) (seen names : List Text)
    → All P seen
    → All P names
    → All P (appear seen names)
unfolding appear
appear-All P seen [] hs hn = hs
appear-All P seen (n ∷ names) hs hn = elim (Bool-cases (contains seen n)) [
  | inl e ↦ rw e (appear-All P seen names hs hn.1)
  | inr e ↦
      rw e (appear-All P (seen ++ n ∷ []) names (All-append P seen (n ∷ []) hs (hn.0, tt)) hn.1)
]
