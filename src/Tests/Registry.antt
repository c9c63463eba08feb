-- ===== src/Tests/Registry.antt =====
-- A registry of three providers after a refresh in which the third fails: the second reports a model
-- of the first, and a pattern of its own.
use go_ai_proxy.Common.{
  ℕ, ◌≡◌, refl, Option, some, none, List, [], ◌∷◌, map, any, arith, ◌==◌, if◌then◌else◌,
}
use mathlib.Core.List.{Perm}
use go_ai_proxy.Common.Eq.{list_beq, nat_eq, list_eq, pair_eq, contains}
use go_ai_proxy.Common.Sort.{IsSorted}
use go_ai_proxy.Common.Text.{Text, lit, strip_prefix, split, trim_space}
use go_ai_proxy.Domain.{Model, ProviderId}
use go_ai_proxy.Registry.{ProviderEntry, Registry, refresh, is_glob, prepare}
use go_ai_proxy.Registry.Offers.{offers, model_of, find_model}
use go_ai_proxy.Registry.Refresh.{Distinct, glob_ids, refresh_models}
use go_ai_proxy.Registry.Selector.{parse_auto_selector}
use go_ai_proxy.Registry.Route.{provider_for, serving, load, to_candidate, candidates_for}
use go_ai_proxy.Registry.Route.Unseen.{NoRepeats}
use go_ai_proxy.Registry.Route.Laws.{serving-refresh}
use go_ai_proxy.Registry.Route.Auto.{offers_pair, candidates_for_auto_exact}

abbrev pub model : Text → List Text → Model
model id capabilities = record {
  id = id;
  owned_by = [];
  capabilities = capabilities;
  input_cost_per_token = none;
  output_cost_per_token = none;
  max_model_len = 0;
}

abbrev entry : ProviderId → ProviderEntry
entry p = record { provider = p; capability_overrides = none; context_length_overrides = none }

abbrev registry : Registry
registry = record {
  providers = entry 1 ∷ entry 2 ∷ entry 3 ∷ [];
  tables = record { index = []; fallbacks = []; globs = []; all_models = [] };
}

abbrev models : ProviderId → Option (List Model)
models p =
    if p == 1
    then some (model (lit "m") (lit "tools" ∷ []) ∷ [])
    else if p == 2
    then some (model (lit "m") [] ∷ model (lit "g-*") (lit "tools" ∷ []) ∷ [])
    else none

abbrev refreshed : Registry
refreshed = refresh models registry

serving-refresh_example :
    (serving refreshed (lit "m") ≡ 1 ∷ 2 ∷ []) × (provider_for refreshed (lit "m") ≡ some (some 1))
unfolding list_beq prepare is_glob
serving-refresh_example = serving-refresh models registry (lit "m") 1 (2 ∷ []) refl

refresh_models_example :
    ((id : Text)
      → find_model id refreshed.all_models ≡ model_of id (offers models registry.providers))
    × Distinct refreshed.all_models
    × (refreshed.globs ≡ glob_ids refreshed.all_models)
refresh_models_example = refresh_models models registry

-- The first provider has more to do than the second.
abbrev active : ProviderId → ℕ
active p = if p == 1 then 5 else 2

abbrev selector : Text
selector = lit "auto:tools"

candidates_for_auto_exact_example :
    (pairs : List (Text × ProviderId)) × IsSorted
      (load active)
      (candidates_for active refreshed selector)
    × Perm (candidates_for active refreshed selector) (map to_candidate pairs)
    × NoRepeats pairs
    × ((i : Text) (p : ProviderId)
        → contains pairs (i, p)
          ≡ any
              (offers_pair refreshed.fallbacks (parse_auto_selector selector) i p)
              refreshed.all_models)
unfolding parse_auto_selector split trim_space strip_prefix
candidates_for_auto_exact_example =
    candidates_for_auto_exact active refreshed selector refl (ground arith)
