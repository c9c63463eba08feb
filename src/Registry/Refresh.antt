-- ===== src/Registry/Refresh.antt =====
-- What `refresh` of internal/provider/registry.go builds, against the list of all that the
-- providers offer, in registration order.
use go_ai_proxy.Common.{
  ◌≡◌, ◌≢◌, refl, sym, ap, ◌∙◌, true, Option, none, some, List, [], ◌∷◌, ◌++◌, map, arith, head?,
  keep, is_some, or_default, if◌then◌else◌, Bool-cases, inl, inr,
}
use go_ai_proxy.Common.Text.{Text, text_eq}
use go_ai_proxy.Common.Eq.{nat_eq, list_eq, list_beq_iff}
use go_ai_proxy.Common.Assoc.{lookup, has_key}
use go_ai_proxy.Domain.{Model, ProviderId, inf}
use go_ai_proxy.Registry.{
  ProviderEntry, Tables, Registry, no_tables, is_glob, prepare, add_model, refresh, find_caps,
  capabilities_for,
}
use mathlib.Core.Option
use go_ai_proxy.Common.All.{All, All-append}
use mathlib.Core.List.{append_assoc}
use go_ai_proxy.Registry.Offers.{
  Offer, offers, offers_of, providers_of, model_of, find_model, add_all, build-offers, or_else,
  extend, fallbacks-add_all, index-add_model, index-add_all, find_model-concat,
}

-- The index knows the models that are listed.
abbrev SameKeys : Tables → Type 0
SameKeys t = (id : Text) → has_key id t.index ≡ is_some (find_model id t.all_models)

models-add_model :
    (id : Text) (p : ProviderId) (m : Model) (t : Tables)
    → SameKeys t
    → find_model id (add_model p m t).all_models
      ≡ or_else (find_model id t.all_models) (if text_eq m.id id then some m else none)
unfolding add_model
models-add_model id p m t h =
    ground (arith, list_beq_iff m.id id, h m.id, find_model-concat id t.all_models m)

SameKeys-add_model :
    (p : ProviderId) (m : Model) (t : Tables) → SameKeys t → SameKeys (add_model p m t)
SameKeys-add_model p m t h id =
    ground (arith, index-add_model id p m t, models-add_model id p m t h, h id)

models-add_all :
    (id : Text) (os : List Offer) (t : Tables)
    → SameKeys t
    → find_model id (add_all os t).all_models
      ≡ or_else (find_model id t.all_models) (model_of id os)
models-add_all id [] t h = ground arith
models-add_all id ((p, m) ∷ os) t h = ground (
  arith,
  models-add_all id os (add_model p m t) (SameKeys-add_model p m t h),
  models-add_model id p m t h,
)

-- No two listed models share an ID.
abbrev pub Distinct : List Model → Type 0
Distinct [] = Unit
Distinct (m ∷ ms) = (find_model m.id ms ≡ none) × Distinct ms

Distinct-concat :
    (ms : List Model) (m : Model)
    → Distinct ms
    → find_model m.id ms ≡ none
    → Distinct (ms ++ m ∷ [])
Distinct-concat [] m d h = (refl, tt)
Distinct-concat (n ∷ ms) m d h = (
  ground (arith, find_model-concat n.id ms m, list_beq_iff m.id n.id, list_beq_iff n.id m.id),
  Distinct-concat ms m d.1 (ground arith),
)

abbrev pub glob_ids : List Model → List Text
glob_ids ms = map (λ m. m.id) (keep (λ m. is_glob m.id) ms)

record Inv (t : Tables) : Type 0 where
  same_keys : SameKeys t
  distinct : Distinct t.all_models
  patterns : t.globs ≡ glob_ids t.all_models

glob_ids-concat :
    (ms : List Model) (m : Model)
    → glob_ids (ms ++ m ∷ []) ≡ (if is_glob m.id then glob_ids ms ++ m.id ∷ [] else glob_ids ms)
glob_ids-concat [] m = ground arith
glob_ids-concat (n ∷ ms) m = ground (arith, glob_ids-concat ms m)

Distinct-add_model :
    (p : ProviderId) (m : Model) (t : Tables) → Inv t → Distinct (add_model p m t).all_models
unfolding add_model
Distinct-add_model p m t v =
    ground (arith, v.same_keys m.id, Distinct-concat t.all_models m v.distinct)

patterns-add_model :
    (p : ProviderId) (m : Model) (t : Tables)
    → Inv t
    → (add_model p m t).globs ≡ glob_ids (add_model p m t).all_models
unfolding add_model
patterns-add_model p m t v = ground (arith, v.patterns, glob_ids-concat t.all_models m)

Inv-add_all : (os : List Offer) (t : Tables) → Inv t → Inv (add_all os t)
Inv-add_all [] t v = v
Inv-add_all ((p, m) ∷ os) t v = Inv-add_all os (add_model p m t) (record {
  same_keys = SameKeys-add_model p m t v.same_keys;
  distinct = Distinct-add_model p m t v;
  patterns = patterns-add_model p m t v;
})

Inv-no_tables : Inv no_tables
unfolding lookup
Inv-no_tables = record { same_keys = λ id. refl; distinct = tt; patterns = refl }

abbrev pub IsPriced : Model → Type 0
IsPriced m =
    (m.input_cost_per_token ≢ none)
    × (m.output_cost_per_token ≢ none)
    × (is_glob m.id ≡ true
        → (m.input_cost_per_token ≡ some inf) × (m.output_cost_per_token ≡ some inf))

prepare-IsPriced : (e : ProviderEntry) (m : Model) → IsPriced (prepare e m)
unfolding prepare
prepare-IsPriced e m = ground arith

offers_of-IsPriced :
    (e : ProviderEntry) (ms : List Model) → All (λ o. IsPriced o.1) (offers_of e ms)
offers_of-IsPriced e [] = tt
offers_of-IsPriced e (m ∷ ms) = (prepare-IsPriced e m, offers_of-IsPriced e ms)

offers-IsPriced :
    (models : ProviderId → Option (List Model)) (es : List ProviderEntry)
    → All (λ o. IsPriced o.1) (offers models es)
offers-IsPriced models [] = tt
offers-IsPriced models (e ∷ es) =
    All-append (λ o. IsPriced o.1) (offers_of e (or_default (models e.provider) []))
      (offers models es) (offers_of-IsPriced e _) (offers-IsPriced models es)

add_model-IsPriced :
    (p : ProviderId) (m : Model) (t : Tables)
    → IsPriced m
    → All IsPriced t.all_models
    → All IsPriced (add_model p m t).all_models
unfolding add_model
add_model-IsPriced p m t h a = elim (Bool-cases (has_key m.id t.index)) [
  | inl e ↦ rw e a
  | inr e ↦ rw e (All-append IsPriced t.all_models (m ∷ []) a (h, tt))
]

add_all-IsPriced :
    (os : List Offer) (t : Tables)
    → All (λ o. IsPriced o.1) os
    → All IsPriced t.all_models
    → All IsPriced (add_all os t).all_models
add_all-IsPriced [] t h a = a
add_all-IsPriced ((p, m) ∷ os) t h a =
    add_all-IsPriced os (add_model p m t) h.1 (add_model-IsPriced p m t h.0 a)

find_caps-find_model :
    (id : Text) (ms : List Model)
    → find_caps id ms ≡ Option.map (λ m. m.capabilities) (find_model id ms)
unfolding find_caps
find_caps-find_model id [] = refl
find_caps-find_model id (m ∷ ms) = ground (arith, find_caps-find_model id ms)

module _ (models : ProviderId → Option (List Model)) (r : Registry) where
  -- After a refresh a model ID is routed to the providers that report it, in registration order, and
  -- its primary provider is the first of them; an ID that nobody reports is in neither table.
  pub refresh_routes :
      (id : Text)
      → (lookup id (refresh models r).fallbacks
          ≡ extend none (providers_of id (offers models r.providers)))
        × (lookup id (refresh models r).index ≡ head? (providers_of id (offers models r.providers)))
  unfolding refresh lookup
  refresh_routes id = rw (build-offers models r.providers no_tables) (
    fallbacks-add_all id (offers models r.providers) no_tables,
    index-add_all id (offers models r.providers) no_tables,
  )

  -- After a refresh the listed model of each ID is the first that a provider reports, with that
  -- provider's overrides; IDs are distinct, and the patterns are the glob IDs in listed order.
  pub refresh_models :
      ((id : Text)
        → find_model id (refresh models r).all_models ≡ model_of id (offers models r.providers))
      × Distinct (refresh models r).all_models
      × ((refresh models r).globs ≡ glob_ids (refresh models r).all_models)
  unfolding refresh
  refresh_models =
      let v = Inv-add_all (offers models r.providers) no_tables Inv-no_tables in
      rw (build-offers models r.providers no_tables) (
        (λ id. models-add_all id (offers models r.providers) no_tables Inv-no_tables.same_keys),
        v.distinct,
        v.patterns,
      )

  -- After a refresh every listed model has both costs, and those of a glob pattern are infinite.
  pub refresh-IsPriced : All IsPriced (refresh models r).all_models
  unfolding refresh
  refresh-IsPriced =
      rw (build-offers models r.providers no_tables)
        (add_all-IsPriced _ no_tables (offers-IsPriced models r.providers) tt)

  -- After a refresh the capabilities of an ID are those of the first model reported under it, and an
  -- ID that nobody reports is unknown.
  pub refresh-capabilities_for :
      (id : Text)
      → capabilities_for (refresh models r) id
        ≡ Option.map (λ m. m.capabilities) (model_of id (offers models r.providers))
  unfolding capabilities_for
  refresh-capabilities_for id =
      find_caps-find_model id (refresh models r).all_models
      ∙ ap (Option.map (λ m. m.capabilities)) (refresh_models.0 id)

offers-append :
    (models : ProviderId → Option (List Model)) (es fs : List ProviderEntry)
    → offers models (es ++ fs) ≡ offers models es ++ offers models fs
offers-append models [] fs = refl
offers-append models (e ∷ es) fs =
    rw (offers-append models es fs)
      (sym (append_assoc (offers_of e (or_default (models e.provider) [])) (offers models es) _))

-- A provider whose model list cannot be fetched leaves the tables as if it were not registered.
pub refresh_skips_failing :
    (models : ProviderId → Option (List Model)) (es fs : List ProviderEntry) (e : ProviderEntry)
    (r : Registry)
    → models e.provider ≡ none
    → (refresh models (record r { providers = es ++ e ∷ fs })).tables
      ≡ (refresh models (record r { providers = es ++ fs })).tables
unfolding refresh
refresh_skips_failing models es fs e r h = rw (
  build-offers models (es ++ e ∷ fs) no_tables,
  build-offers models (es ++ fs) no_tables,
  offers-append models es (e ∷ fs),
  offers-append models es fs,
  h,
)
