-- ===== src/Registry/Offers.antt =====
-- The tables of internal/provider/registry.go against the list of all that the providers offer, in
-- registration order: `refresh` adds the offers one by one.
use go_ai_proxy.Common.{
  ◌≡◌, refl, sym, ap, ◌∙◌, Option, none, some, List, [], ◌∷◌, ◌++◌, arith, head?, or_default,
  if◌then◌else◌, Bool-cases, inl, inr,
}
use go_ai_proxy.Common.Text.{Text, text_eq}
use go_ai_proxy.Common.Eq.{nat_eq, list_eq, list_beq_iff}
use go_ai_proxy.Common.Assoc.{lookup, lookup-insert}
use go_ai_proxy.Domain.{Model, ProviderId}
use go_ai_proxy.Registry.{ProviderEntry, Tables, prepare, add_model, add_models, add_entry, build}
use mathlib.Core.List.{append_assoc}

abbrev pub Offer : Type 0
Offer = ProviderId × Model

abbrev pub offers_of : ProviderEntry → List Model → List Offer
offers_of e [] = []
offers_of e (m ∷ ms) = (e.provider, prepare e m) ∷ offers_of e ms

-- All that the providers report, with the overrides made, a failing provider reporting nothing.
abbrev pub offers : (ProviderId → Option (List Model)) → List ProviderEntry → List Offer
offers models [] = []
offers models (e ∷ es) = offers_of e (or_default (models e.provider) []) ++ offers models es

-- The providers that offer `id`, and the models that go by it.
abbrev pub providers_of : Text → List Offer → List ProviderId
providers_of id [] = []
providers_of id ((p, m) ∷ os) =
    let rest = providers_of id os in if text_eq m.id id then p ∷ rest else rest

abbrev pub model_of : Text → List Offer → Option Model
model_of id [] = none
model_of id ((p, m) ∷ os) = let rest = model_of id os in if text_eq m.id id then some m else rest

abbrev pub find_model : Text → List Model → Option Model
find_model id [] = none
find_model id (m ∷ ms) = let rest = find_model id ms in if text_eq m.id id then some m else rest

abbrev pub add_all : List Offer → Tables → Tables
add_all [] t = t
add_all ((p, m) ∷ os) t = add_all os (add_model p m t)

add_all-append :
    (os qs : List Offer) (t : Tables) → add_all (os ++ qs) t ≡ add_all qs (add_all os t)
add_all-append [] qs t = refl
add_all-append ((p, m) ∷ os) qs t = add_all-append os qs (add_model p m t)

add_models-offers :
    (e : ProviderEntry) (ms : List Model) (t : Tables)
    → add_models e ms t ≡ add_all (offers_of e ms) t
unfolding add_models
add_models-offers e [] t = refl
add_models-offers e (m ∷ ms) t = add_models-offers e ms (add_model e.provider (prepare e m) t)

add_entry-offers :
    (e : ProviderEntry) (o : Option (List Model)) (t : Tables)
    → add_entry e o t ≡ add_all (offers_of e (or_default o [])) t
unfolding add_entry
add_entry-offers e none t = refl
add_entry-offers e (some ms) t = add_models-offers e ms t

pub build-offers :
    (models : ProviderId → Option (List Model)) (es : List ProviderEntry) (t : Tables)
    → build models es t ≡ add_all (offers models es) t
unfolding build
build-offers models [] t = refl
build-offers models (e ∷ es) t =
    build-offers models es (add_entry e (models e.provider) t)
    ∙ ap (add_all (offers models es)) (add_entry-offers e (models e.provider) t)
    ∙ sym (add_all-append (offers_of e (or_default (models e.provider) [])) (offers models es) t)

abbrev pub extend : Option (List ProviderId) → List ProviderId → Option (List ProviderId)
extend o [] = o
extend o (p ∷ ps) = some (or_default o [] ++ p ∷ ps)

abbrev pub or_else {ℓ} : {A : Type ℓ} → Option A → Option A → Option A
or_else none o = o
or_else (some a) o = some a

extend-extend :
    (o : Option (List ProviderId)) (p : ProviderId) (ps : List ProviderId)
    → extend (some (or_default o [] ++ p ∷ [])) ps ≡ extend o (p ∷ ps)
extend-extend o p [] = refl
extend-extend o p (q ∷ ps) = ap some (append_assoc (or_default o []) (p ∷ []) (q ∷ ps))

module _ (id : Text) where
  fallbacks-add_model :
      (p : ProviderId) (m : Model) (t : Tables)
      → lookup id (add_model p m t).fallbacks ≡ (
          if text_eq m.id id
          then some (or_default (lookup id t.fallbacks) [] ++ p ∷ [])
          else lookup id t.fallbacks)
  unfolding add_model
  fallbacks-add_model p m t = ground (
    arith,
    list_beq_iff m.id id,
    lookup-insert m.id id (or_default (lookup m.id t.fallbacks) [] ++ p ∷ []) t.fallbacks,
  )

  pub fallbacks-add_all :
      (os : List Offer) (t : Tables)
      → lookup id (add_all os t).fallbacks ≡ extend (lookup id t.fallbacks) (providers_of id os)
  fallbacks-add_all [] t = refl
  fallbacks-add_all ((p, m) ∷ os) t = elim (Bool-cases (text_eq m.id id)) [
    | inl e ↦
        rw (e, fallbacks-add_all os (add_model p m t), fallbacks-add_model p m t, e)
          (extend-extend (lookup id t.fallbacks) p (providers_of id os))
    | inr e ↦ rw (e, fallbacks-add_all os (add_model p m t), fallbacks-add_model p m t, e)
  ]

  pub index-add_model :
      (p : ProviderId) (m : Model) (t : Tables)
      → lookup id (add_model p m t).index
        ≡ or_else (lookup id t.index) (if text_eq m.id id then some p else none)
  unfolding add_model
  index-add_model p m t = ground (arith, lookup-insert m.id id p t.index, list_beq_iff m.id id)

  pub index-add_all :
      (os : List Offer) (t : Tables)
      → lookup id (add_all os t).index ≡ or_else (lookup id t.index) (head? (providers_of id os))
  index-add_all [] t = ground arith
  index-add_all ((p, m) ∷ os) t =
      ground (arith, index-add_all os (add_model p m t), index-add_model p m t)

  pub find_model-concat :
      (ms : List Model) (m : Model)
      → find_model id (ms ++ m ∷ [])
        ≡ or_else (find_model id ms) (if text_eq m.id id then some m else none)
  find_model-concat [] m = refl
  find_model-concat (n ∷ ms) m = ground (arith, find_model-concat ms m)
