-- ===== src/Server/Handlers/Cancelled.antt =====
-- internal/server/server.go: a request for a model that is not known refreshes the registry under the
-- request's own context, and internal/provider/registry.go takes a provider that fails to have no models.
use go_ai_proxy.Common.{ℕ, ◌≡◌, refl, Option, none, List, [], ◌∷◌, arith}
use go_ai_proxy.Common.Text.{Text}
use go_ai_proxy.Common.Sort.{sort_stable}
use go_ai_proxy.Common.Assoc.{lookup}
use go_ai_proxy.Domain.{Model, ProviderId}
use go_ai_proxy.Registry.{ProviderEntry, Tables, no_tables, add_entry, build, refresh}
use go_ai_proxy.Registry.Route.{
  candidates_for, candidates_for_auto, auto_pairs, providers_for, serving, glob_providers,
}
use go_ai_proxy.Server.Handlers.{Backend, Server, find_candidates, candidates_now}

build-none :
    (models : ProviderId → Option (List Model)) (es : List ProviderEntry) (t : Tables)
    → ((p : ProviderId) → models p ≡ none)
    → build models es t ≡ t
unfolding build add_entry
build-none models [] t h = refl
build-none models (e ∷ es) t h = rw (h e.provider) (build-none models es t h)

no_candidates :
    (active : ProviderId → ℕ) (es : List ProviderEntry) (id : Text)
    → candidates_for active (record { providers = es; tables = no_tables }) id ≡ []
unfolding candidates_for candidates_for_auto auto_pairs providers_for serving glob_providers lookup
    sort_stable
no_candidates active es id = ground arith

module _ {W : Type 0} (backend : Backend W) where
  -- When a request for a model without candidates finds no provider that answers, as when its client
  -- goes away while the providers are asked, every model is forgotten: the registry that the request
  -- leaves has no candidates for any ID or selector, and lists no model, whatever it had before.
  pub failed_refresh_forgets :
      (model : Text) (s : Server W)
      → candidates_now backend model s ≡ []
      → ((p : ProviderId) → (backend.models s.world).1 p ≡ none)
      → let end = (find_candidates backend model s).0 in
        ((other : Text) → candidates_now backend other end ≡ []) × (end.registry.all_models ≡ [])
  unfolding find_candidates refresh
  failed_refresh_forgets model s none_now h =
      let gone = build-none (backend.models s.world).1 s.registry.providers no_tables h in
      rw (none_now, gone)
        (
          λ other.
              no_candidates (backend.active (backend.models s.world).0) s.registry.providers other,
          refl,
        )
