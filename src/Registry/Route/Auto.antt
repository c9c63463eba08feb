-- ===== src/Registry/Route/Auto.antt =====
-- `auto:` selectors: CandidatesFor and ResolveModel of internal/provider/registry.go.
use mathlib.Core.List.{Perm}
use mathlib.Core.Path.{subst}
use go_ai_proxy.Common.{
  ℕ, ◌≤◌, ◌≡◌, ◌≢◌, refl, Bool, true, false, ◌&&◌, ◌||◌, some, List, [], ◌∷◌, map, arith, any, all,
  or_default, is_nil, Bool-cases, Option-cases, ◌⊎◌, inl, inr,
}
use go_ai_proxy.Common.All.{All, All-mono}
use go_ai_proxy.Common.Text.{Text, text_eq}
use go_ai_proxy.Common.Eq.{nat_eq, list_eq, pair_eq, contains, list_beq_iff}
use go_ai_proxy.Common.Assoc.{Assoc, lookup}
use go_ai_proxy.Common.Sort.{
  sort_stable, IsSorted, sort_stable-perm, sort_stable-IsSorted, All-sort_stable,
  All-of_sort_stable,
}
use go_ai_proxy.Domain.{Model, ProviderId}
use go_ai_proxy.Registry.{Registry}
use go_ai_proxy.Registry.Selector.{is_auto, parse_auto_selector, has_all_caps}
use go_ai_proxy.Registry.Route.{
  Candidate, add_unseen, pairs_of, auto_pairs, to_candidate, load, candidates_for_auto,
  candidates_for, indexed, resolve_model, first_id,
}
use go_ai_proxy.Registry.Route.Unseen.{contains-add_unseen, NoRepeats, add_unseen-NoRepeats}

-- A model has a list of capabilities when each stands in its own.
pub has_all_caps-all : (have want : List Text) → has_all_caps have want ≡ all (contains have) want
unfolding has_all_caps
has_all_caps-all have [] = refl
has_all_caps-all have (c ∷ want) = ground (arith, has_all_caps-all have want)

contains-pairs_of :
    (i id : Text) (ps : List ProviderId) (p : ProviderId)
    → contains (pairs_of i ps) (id, p) ≡ (text_eq i id && contains ps p)
contains-pairs_of i id [] p = ground arith
contains-pairs_of i id (q ∷ ps) p = ground (arith, contains-pairs_of i id ps p)

-- Model `m` goes by `id`, has the capabilities and is served by `p`.
abbrev pub offers_pair : Assoc Text (List ProviderId) → List Text → Text → ProviderId → Model → Bool
offers_pair fallbacks required id p m =
    all (contains m.capabilities) required
    && (text_eq m.id id && contains (or_default (lookup m.id fallbacks) []) p)

contains-auto_pairs :
    (fb : Assoc Text (List ProviderId)) (req : List Text) (ms : List Model)
    (out : List (Text × ProviderId)) (id : Text) (p : ProviderId)
    → contains (auto_pairs fb req ms out) (id, p)
      ≡ (contains out (id, p) || any (offers_pair fb req id p) ms)
unfolding auto_pairs
contains-auto_pairs fb req [] out id p = ground arith
contains-auto_pairs fb req (m ∷ ms) out id p = elim (Bool-cases (has_all_caps m.capabilities req)) [
  | inl c ↦ rw c (
      ground (
        arith,
        has_all_caps-all m.capabilities req,
        contains-auto_pairs fb req ms
            (add_unseen out (pairs_of m.id (or_default (lookup m.id fb) []))) id p,
        contains-add_unseen out (pairs_of m.id (or_default (lookup m.id fb) [])) (id, p),
        contains-pairs_of m.id id (or_default (lookup m.id fb) []) p,
      ))
  | inr c ↦
      rw c (
        ground (arith, has_all_caps-all m.capabilities req, contains-auto_pairs fb req ms out id p))
]

auto_pairs-NoRepeats :
    (fb : Assoc Text (List ProviderId)) (req : List Text) (ms : List Model)
    (out : List (Text × ProviderId))
    → NoRepeats out
    → NoRepeats (auto_pairs fb req ms out)
unfolding auto_pairs
auto_pairs-NoRepeats fb req [] out h = h
auto_pairs-NoRepeats fb req (m ∷ ms) out h = elim (Bool-cases (has_all_caps m.capabilities req)) [
  | inl c ↦ rw c (
      auto_pairs-NoRepeats fb req ms _
        (add_unseen-NoRepeats out (pairs_of m.id (or_default (lookup m.id fb) [])) h))
  | inr c ↦ rw c (auto_pairs-NoRepeats fb req ms out h)
]

-- For an `auto:` selector that names some capability, the candidates are, least loaded first, the
-- pairs of a listed model with all those capabilities and a provider of its ID, each pair once.
pub candidates_for_auto_exact :
    (active : ProviderId → ℕ) (r : Registry) (id : Text)
    → is_auto id ≡ true
    → parse_auto_selector id ≢ []
    → (pairs : List (Text × ProviderId)) × IsSorted (load active) (candidates_for active r id)
      × Perm (candidates_for active r id) (map to_candidate pairs)
      × NoRepeats pairs
      × ((i : Text) (p : ProviderId)
          → contains pairs (i, p)
            ≡ any (offers_pair r.fallbacks (parse_auto_selector id) i p) r.all_models)
unfolding candidates_for candidates_for_auto
candidates_for_auto_exact active r id a ne =
    let pairs = auto_pairs r.fallbacks (parse_auto_selector id) r.all_models [] in
    let n : is_nil (parse_auto_selector id) ≡ false = ground arith in
    rw (a, n)
      (
        pairs,
        sort_stable-IsSorted (load active) (map to_candidate pairs),
        sort_stable-perm (load active) (map to_candidate pairs),
        auto_pairs-NoRepeats r.fallbacks (parse_auto_selector id) r.all_models [] tt,
        (λ i p. contains-auto_pairs r.fallbacks (parse_auto_selector id) r.all_models [] i p),
      )

-- The candidate's model is listed with the capabilities, and its provider is the primary one.
abbrev pub IsCapable : Assoc Text ProviderId → List Text → List Model → Candidate → Type 0
IsCapable index required ms c =
    (any (λ m. text_eq m.id c.model_id && all (contains m.capabilities) required) ms ≡ true)
    × (lookup c.model_id index ≡ some c.provider)

IsCapable-cons :
    (index : Assoc Text ProviderId) (req : List Text) (m : Model) (ms : List Model) (c : Candidate)
    → IsCapable index req ms c
    → IsCapable index req (m ∷ ms) c
IsCapable-cons index req m ms c h = ground arith

indexed-IsCapable :
    (index : Assoc Text ProviderId) (req : List Text) (ms : List Model)
    → All (IsCapable index req ms) (indexed index req ms)
unfolding indexed
indexed-IsCapable index req [] = tt
indexed-IsCapable index req (m ∷ ms) =
    let rest =
      All-mono (IsCapable-cons index req m ms) (indexed index req ms)
        (indexed-IsCapable index req ms) in
    elim (Bool-cases (has_all_caps m.capabilities req)) [
      | inr c ↦ rw c rest
      | inl c ↦ elim (Option-cases (lookup m.id index)) [
        | inl e ↦ rw (c, e) rest
        | inr (p, e) ↦
            rw (c, e)
              (
                (ground (arith, has_all_caps-all m.capabilities req, list_beq_iff m.id m.id), e),
                rest,
              )
      ]
    ]

-- What holds of every candidate holds of each model with the capabilities and its primary provider.
indexed_complete :
    (index : Assoc Text ProviderId) (req : List Text) (ms : List Model) (P : Candidate → Type 0)
    → All P (indexed index req ms)
    → All
        (λ m.
          (p : ProviderId)
          → all (contains m.capabilities) req ≡ true
          → lookup m.id index ≡ some p
          → P (to_candidate (m.id, p)))
        ms
unfolding indexed
indexed_complete index req [] P h = tt
indexed_complete index req (m ∷ ms) P h = elim (Bool-cases (has_all_caps m.capabilities req)) [
  | inr c ↦ (
    (λ p k e. cc (c, k, has_all_caps-all m.capabilities req)),
    indexed_complete index req ms P (rw c at h),
  )
  | inl c ↦ elim (Option-cases (lookup m.id index)) [
    | inl n ↦ ((λ p k e. cc (n, e)), indexed_complete index req ms P (rw (c, n) at h))
    | inr (q, n) ↦
        let g : P (to_candidate (m.id, q)) × All P (indexed index req ms) = rw (c, n) at h in
        (
          (λ p k e. let s : q ≡ p = cc (n, e) in subst (λ x. P (to_candidate (m.id, x))) s g.0),
          indexed_complete index req ms P g.1,
        )
  ]
]

-- No listed model has the capabilities and a primary provider.
abbrev pub NoneCapable : Registry → List Text → Type 0
NoneCapable r required =
    All
      (λ m.
        (p : ProviderId)
        → all (contains m.capabilities) required ≡ true
        → lookup m.id r.index ≡ some p
        → ⊥)
      r.all_models

-- No listed model with the capabilities has a less loaded primary provider than `c`.
abbrev pub IsLeast : (ProviderId → ℕ) → Registry → List Text → Candidate → Type 0
IsLeast active r required c =
    All
      (λ m.
        (p : ProviderId)
        → all (contains m.capabilities) required ≡ true
        → lookup m.id r.index ≡ some p
        → active c.provider ≤ active p)
      r.all_models

abbrev Resolves : (ProviderId → ℕ) → Registry → Text → List Text → Text → Type 0
Resolves active r id req result =
    (NoneCapable r req × (result ≡ id))
    ⊎ ((c : Candidate) × IsCapable r.index req r.all_models c
        × IsLeast active r req c
        × (result ≡ c.model_id))

first_Resolves :
    (active : ProviderId → ℕ) (r : Registry) (id : Text) (req : List Text) (sorted : List Candidate)
    → sort_stable (load active) (indexed r.index req r.all_models) ≡ sorted
    → Resolves active r id req (first_id id sorted)
first_Resolves active r id req [] e = inl (
  indexed_complete r.index req r.all_models (λ _. ⊥)
      (All-of_sort_stable (load active) (λ _. ⊥) (indexed r.index req r.all_models) (rw e tt)),
  refl,
)
first_Resolves active r id req (c ∷ rest) e =
    let cs = indexed r.index req r.all_models in
    let sorted : All (λ d. load active c ≤ load active d) rest × IsSorted (load active) rest =
      rw e at (sort_stable-IsSorted (load active) cs) in
    let able : IsCapable r.index req r.all_models c
        × All (IsCapable r.index req r.all_models) rest =
      rw e at (
        All-sort_stable (load active) (IsCapable r.index req r.all_models) cs
          (indexed-IsCapable r.index req r.all_models)) in
    inr (
      c,
      able.0,
      indexed_complete r.index req r.all_models (λ d. load active c ≤ load active d)
          (All-of_sort_stable (load active) (λ d. load active c ≤ load active d) cs
            (rw e (omega arith, sorted.0))),
      refl,
    )

-- An `auto:` selector that names some capability resolves to a listed model with all of them whose
-- primary provider is least loaded among such models', or to itself where there is no such model.
pub resolve_model-IsLeast :
    (active : ProviderId → ℕ) (r : Registry) (id : Text)
    → is_auto id ≡ true
    → parse_auto_selector id ≢ []
    → (NoneCapable r (parse_auto_selector id) × (resolve_model active r id ≡ id))
      ⊎ ((c : Candidate) × IsCapable r.index (parse_auto_selector id) r.all_models c
          × IsLeast active r (parse_auto_selector id) c
          × (resolve_model active r id ≡ c.model_id))
unfolding resolve_model
resolve_model-IsLeast active r id a ne =
    let n : is_nil (parse_auto_selector id) ≡ false = ground arith in
    rw (a, n) (first_Resolves active r id (parse_auto_selector id) _ refl)
