-- ===== src/Registry/Route/Laws.antt =====
-- ProviderFor and ProvidersFor of internal/provider/registry.go: who serves a model ID, and in
-- which order.
use mathlib.Core.List.{Perm}
use go_ai_proxy.Common.{
  ℕ, ◌≤◌, ◌≡◌, refl, Bool, false, ◌&&◌, ◌||◌, Option, none, some, List, [], ◌∷◌, arith, head?, any,
  keep, ◌==◌, or_default, Bool-cases, inl, inr,
}
use go_ai_proxy.Common.Text.{Text}
use go_ai_proxy.Common.Eq.{nat_eq, list_eq, contains}
use go_ai_proxy.Common.Assoc.{Assoc, lookup}
use go_ai_proxy.Common.Sort.{
  sort_stable, insert, IsSorted, sort_stable-perm, sort_stable-IsSorted, keep-sort_stable,
}
use go_ai_proxy.Domain.{Model, ProviderId}
use go_ai_proxy.Registry.{Registry, refresh}
use go_ai_proxy.Registry.Offers.{offers, providers_of}
use go_ai_proxy.Registry.Refresh.{refresh_routes}
use go_ai_proxy.Registry.Glob.{glob_match}
use go_ai_proxy.Registry.Selector.{is_auto}
use go_ai_proxy.Registry.Route.{
  provider_for, add_unseen, glob_providers, serving, providers_for, candidates_for, to_candidate,
}
use go_ai_proxy.Registry.Route.Unseen.{contains-add_unseen, NoRepeats, add_unseen-NoRepeats}

-- ProvidersFor returns the providers that serve the ID, each as often as it serves it, least loaded
-- first, and those of equal load in the order of the tables.
pub providers_for_order :
    (active : ProviderId → ℕ) (r : Registry) (id : Text)
    → IsSorted active (providers_for active r id)
      × Perm (providers_for active r id) (serving r id)
      × ((n : ℕ)
          → keep (λ p. active p == n) (providers_for active r id)
            ≡ keep (λ p. active p == n) (serving r id))
unfolding providers_for
providers_for_order active r id = (
  sort_stable-IsSorted active (serving r id),
  sort_stable-perm active (serving r id),
  (λ n. keep-sort_stable active n (serving r id)),
)

pub serving-refresh :
    (models : ProviderId → Option (List Model)) (r : Registry) (id : Text) (p : ProviderId)
    (ps : List ProviderId)
    → providers_of id (offers models r.providers) ≡ p ∷ ps
    → (serving (refresh models r) id ≡ p ∷ ps)
      × (provider_for (refresh models r) id ≡ some (some p))
unfolding serving provider_for
serving-refresh models r id p ps h = ground (arith, refresh_routes models r id)

glob_serves : Assoc Text (List ProviderId) → Text → ProviderId → Text → Bool
glob_serves fallbacks id p g = glob_match g id && contains (or_default (lookup g fallbacks) []) p

contains-glob_providers :
    (fallbacks : Assoc Text (List ProviderId)) (gs : List Text) (id : Text) (out : List ProviderId)
    (p : ProviderId)
    → contains (glob_providers fallbacks gs id out) p
      ≡ (contains out p || any (glob_serves fallbacks id p) gs)
unfolding glob_providers glob_serves
contains-glob_providers fallbacks [] id out p = ground arith
contains-glob_providers fallbacks (g ∷ gs) id out p = elim (Bool-cases (glob_match g id)) [
  | inl m ↦ rw m (
      ground (
        arith,
        contains-glob_providers fallbacks gs id
            (add_unseen out (or_default (lookup g fallbacks) [])) p,
        contains-add_unseen out (or_default (lookup g fallbacks) []) p,
      ))
  | inr m ↦ rw m (contains-glob_providers fallbacks gs id out p)
]

glob_providers-NoRepeats :
    (fallbacks : Assoc Text (List ProviderId)) (gs : List Text) (id : Text) (out : List ProviderId)
    → NoRepeats out
    → NoRepeats (glob_providers fallbacks gs id out)
unfolding glob_providers
glob_providers-NoRepeats fallbacks [] id out h = h
glob_providers-NoRepeats fallbacks (g ∷ gs) id out h = elim (Bool-cases (glob_match g id)) [
  | inl m ↦ rw m (
      glob_providers-NoRepeats fallbacks gs id _
        (add_unseen-NoRepeats out (or_default (lookup g fallbacks) []) h))
  | inr m ↦ rw m (glob_providers-NoRepeats fallbacks gs id out h)
]

unlisted :
    (r : Registry) (id : Text)
    → lookup id r.fallbacks ≡ none
    → serving r id ≡ glob_providers r.fallbacks r.globs id []
unfolding serving
unlisted r id h = ground arith

-- For an ID that is not in the tables, a provider serves it exactly when some glob pattern that
-- matches the ID has it among its providers, and no provider is listed twice.
pub serving_by_globs :
    (r : Registry) (id : Text)
    → lookup id r.fallbacks ≡ none
    → ((p : ProviderId)
        → contains (serving r id) p
          ≡ any (λ g. glob_match g id && contains (or_default (lookup g r.fallbacks) []) p) r.globs)
      × NoRepeats (serving r id)
unfolding glob_serves
serving_by_globs r id h = rw (unlisted r id h) (
  (λ p. contains-glob_providers r.fallbacks r.globs id [] p),
  glob_providers-NoRepeats r.fallbacks r.globs id [] tt,
)

insert_least :
    (active : ProviderId → ℕ) (p : ProviderId) (ps : List ProviderId)
    → ((q : ProviderId) → active p ≤ active q)
    → insert active p ps ≡ p ∷ ps
unfolding insert
insert_least active p [] h = refl
insert_least active p (q ∷ ps) h = ground (arith, h q)

providers_for_primary :
    (active : ProviderId → ℕ) (r : Registry) (id : Text) (p : ProviderId) (ps : List ProviderId)
    → serving r id ≡ p ∷ ps
    → ((q : ProviderId) → active p ≤ active q)
    → providers_for active r id ≡ p ∷ sort_stable active ps
unfolding providers_for sort_stable
providers_for_primary active r id p ps h least =
    rw h (insert_least active p (sort_stable active ps) least)

-- For a reported concrete ID whose primary provider has no more requests in flight than any other,
-- the first candidate is that provider, the one that ProviderFor returns.
pub candidates_for_primary :
    (active : ProviderId → ℕ) (models : ProviderId → Option (List Model)) (r : Registry) (id : Text)
    (p : ProviderId) (ps : List ProviderId)
    → is_auto id ≡ false
    → providers_of id (offers models r.providers) ≡ p ∷ ps
    → ((q : ProviderId) → active p ≤ active q)
    → (head? (candidates_for active (refresh models r) id) ≡ some (to_candidate (id, p)))
      × (provider_for (refresh models r) id ≡ some (some p))
unfolding candidates_for
candidates_for_primary active models r id p ps a h least =
    let (served, primary) = serving-refresh models r id p ps h in
    (
      ground (arith, a, providers_for_primary active (refresh models r) id p ps served least),
      primary,
    )
