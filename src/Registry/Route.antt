-- ===== src/Registry/Route.antt =====
-- The queries of internal/provider/registry.go: ProviderFor, ProvidersFor, CandidatesFor and
-- ResolveModel. `active p` is what activeCount(p) returns at the time of the sort.
pub mod Unseen
pub mod Laws
pub mod Auto
use go_ai_proxy.Common.{
  ℕ, Bool, true, false, Option, none, some, List, [], ◌∷◌, ◌++◌, map, head?, is_nil, or_default,
  if◌then◌else◌,
}
use go_ai_proxy.Common.Text.{Text}
use go_ai_proxy.Common.Eq.{Comparable, nat_eq, list_eq, pair_eq, contains, list_beq}
use go_ai_proxy.Common.Assoc.{Assoc, lookup}
use go_ai_proxy.Common.Sort.{sort_stable}
use go_ai_proxy.Domain.{Model, ProviderId}
use go_ai_proxy.Registry.{Registry}
use go_ai_proxy.Registry.Glob.{glob_match}
use go_ai_proxy.Registry.Selector.{is_auto, parse_auto_selector, has_all_caps}

pub record Candidate : Type 0 where
  pub model_id : Text
  pub provider : ProviderId

-- The first glob pattern that matches, and the provider that the index has for it (Go's zero
-- value, nil, where it has none).
first_glob : Assoc Text ProviderId → List Text → Text → Option (Option ProviderId)
first_glob index [] id = none
first_glob index (g ∷ gs) id =
    let rest = first_glob index gs id in if glob_match g id then some (lookup g index) else rest

-- ProviderFor: `none` is `nil, false`, and `some none` would be `nil, true`.
unfoldable pub provider_for : Registry → Text → Option (Option ProviderId)
unfolding first_glob
provider_for r id = elim (lookup id r.index) [
  | some p ↦ some (some p)
  | none ↦ first_glob r.index r.globs id
]

-- Appends what has not been seen; `out` holds just what the map `seen` does.
unfoldable pub add_unseen {ℓ} : {A : Type ℓ} ⦃e : Comparable A⦄ → List A → List A → List A
add_unseen out [] = out
add_unseen out (p ∷ ps) = add_unseen (if contains out p then out else out ++ p ∷ []) ps

-- The loop over the glob patterns of ProvidersFor.
unfoldable pub glob_providers :
    Assoc Text (List ProviderId) → List Text → Text → List ProviderId → List ProviderId
glob_providers fallbacks [] id out = out
glob_providers fallbacks (g ∷ gs) id out =
    glob_providers fallbacks gs id
      (if glob_match g id then add_unseen out (or_default (lookup g fallbacks) []) else out)

unfoldable pub serving : Registry → Text → List ProviderId
serving r id = elim (lookup id r.fallbacks) [
  | some ps ↦ ps
  | none ↦ glob_providers r.fallbacks r.globs id []
]

unfoldable pub providers_for : (ProviderId → ℕ) → Registry → Text → List ProviderId
providers_for active r id = sort_stable active (serving r id)

-- The pairs of one model's ID with its providers.
abbrev pub pairs_of : Text → List ProviderId → List (Text × ProviderId)
pairs_of id [] = []
pairs_of id (p ∷ ps) = (id, p) ∷ pairs_of id ps

-- The loop over the models of candidatesForAuto.
unfoldable pub auto_pairs :
    Assoc Text (List ProviderId)
    → List Text
    → List Model
    → List (Text × ProviderId)
    → List (Text × ProviderId)
auto_pairs fallbacks required [] out = out
auto_pairs fallbacks required (m ∷ ms) out = auto_pairs fallbacks required ms (
    if has_all_caps m.capabilities required
    then add_unseen out (pairs_of m.id (or_default (lookup m.id fallbacks) []))
    else out)

abbrev pub to_candidate : Text × ProviderId → Candidate
to_candidate (id, p) = record { model_id = id; provider = p }

abbrev pub load : (ProviderId → ℕ) → Candidate → ℕ
load active c = active c.provider

unfoldable pub candidates_for_auto : (ProviderId → ℕ) → Registry → Text → List Candidate
candidates_for_auto active r id =
    let required = parse_auto_selector id in
    if is_nil required
    then []
    else sort_stable (load active)
        (map to_candidate (auto_pairs r.fallbacks required r.all_models []))

unfoldable pub candidates_for : (ProviderId → ℕ) → Registry → Text → List Candidate
candidates_for active r id =
    if is_auto id
    then candidates_for_auto active r id
    else map (λ p. to_candidate (id, p)) (providers_for active r id)

-- The candidates of ResolveModel.
unfoldable pub indexed : Assoc Text ProviderId → List Text → List Model → List Candidate
indexed index required [] = []
indexed index required (m ∷ ms) =
    let rest = indexed index required ms in
    if has_all_caps m.capabilities required
    then (elim (lookup m.id index) [ some p ↦ to_candidate (m.id, p) ∷ rest | none ↦ rest ])
    else rest

abbrev first_id : Text → List Candidate → Text
first_id id [] = id
first_id id (c ∷ cs) = c.model_id

unfoldable pub resolve_model : (ProviderId → ℕ) → Registry → Text → Text
resolve_model active r id =
    let required = parse_auto_selector id in
    if is_auto id
    then if is_nil required
      then id
      else first_id id (sort_stable (load active) (indexed r.index required r.all_models))
    else id
