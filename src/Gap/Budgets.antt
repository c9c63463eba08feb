-- ===== src/Gap/Budgets.antt =====
-- The loops of `run` in cmd/gap/main.go that register the providers and that make the token budget.
pub mod Start
pub mod Launch
use go_ai_proxy.Common.{
  not, ◌++◌, ℕ, ◌+◌, ◌≡◌, refl, Bool, true, false, not, ◌||◌, Option, none, some, List, [], ◌∷◌,
  arith, is_nil, or_default, any, if◌then◌else◌, ap, ◌∙◌,
}
use go_ai_proxy.Common.Text.{Text, text_eq}
use go_ai_proxy.Common.Assoc.{Assoc, lookup, insert, lookup-insert}
use go_ai_proxy.Common.Eq.{nat_eq, list_eq, list_beq_iff}
use go_ai_proxy.Common.Int64.{is_positive}
use go_ai_proxy.Domain.{Model, ProviderId}
use go_ai_proxy.Provider.OpenAi.{Result, ok, ◌>>=◌}
use go_ai_proxy.Provider.OpenAi.Client.{option_of, apply_settings}
use go_ai_proxy.Provider.Bounded.{Limits, new_bounded}
use go_ai_proxy.Registry.{
  Registry, ProviderEntry, with_capabilities, with_context_lengths, bare_entry, register, refresh,
  new_registry,
}
use go_ai_proxy.Registry.Route.{provider_for}
use go_ai_proxy.Server.Budget.{TokenBudgetConfig, limit_for}
use go_ai_proxy.Gap.{ProviderConfig, TokenBudget}
use go_ai_proxy.Gap.Build.{Built}

-- A provider as it is registered: built, and bounded if the configuration has a limit.
pub record Registered : Type 0 where
  pub built : Built
  pub bounds : Option Limits

unfoldable pub bounds_of : ProviderConfig → Option Limits
bounds_of pc =
    if is_positive pc.max_concurrent || is_positive pc.request_timeout
    then some (new_bounded pc.max_concurrent pc.queue_size pc.request_timeout)
    else none

-- The overrides that the configuration has.
abbrev reg_opts : ProviderConfig → List (ProviderEntry → ProviderEntry)
reg_opts pc =
    option_of (not (is_nil pc.model_capabilities)) (with_capabilities pc.model_capabilities)
    ++ option_of (not (is_nil pc.model_context_length))
        (with_context_lengths pc.model_context_length)

-- The state of the loop: the registry, the registered values by identity, and providerCfgs.
pub record Wiring : Type 0 where
  pub registry : Registry
  pub registered : Assoc ProviderId Registered
  pub provider_cfgs : Assoc ProviderId ProviderConfig

-- One provider; `id` is the identity of the value that is made for it.
unfoldable pub wire : ProviderId → ProviderConfig → Built → Wiring → Wiring
unfolding bounds_of
wire id pc built w = record {
  registry = register (apply_settings (reg_opts pc) (bare_entry id)) w.registry;
  registered = insert id (record { built = built; bounds = bounds_of pc }) w.registered;
  provider_cfgs = insert id pc w.provider_cfgs;
}

-- The loop over cfg.Providers, with fresh identities from `id` on; the first error ends it.
unfoldable pub wire_all :
    (ProviderConfig → Result Built) → ProviderId → List ProviderConfig → Wiring → Result Wiring
unfolding wire
wire_all build id [] w = ok w
wire_all build id (pc ∷ pcs) w = do
  built ← build pc
  wire_all build (id + 1) pcs (wire id pc built w)

-- The limit that a provider's configuration sets for a model: the model's own, or the default if it is
-- positive; `none` sets none.
unfoldable pub configured_limit : Option TokenBudget → Text → Option ℕ
configured_limit none model = none
configured_limit (some b) model = elim (lookup model b.models) [
  | some limit ↦ some limit
  | none ↦ if is_positive b.fallback then some b.fallback else none
]

abbrev pub budget_of : Option ProviderConfig → Option TokenBudget
budget_of none = none
budget_of (some pc) = pc.token_budget

abbrev pub config_of : Wiring → Option (Option ProviderId) → Option ProviderConfig
config_of w (some (some p)) = lookup p w.provider_cfgs
config_of w _ = none

-- What the body of the loop over reg.Models() adds for a model.
unfoldable pub model_limit : Wiring → Text → Option ℕ
unfolding configured_limit provider_for lookup
model_limit w model =
    configured_limit (budget_of (config_of w (provider_for w.registry model))) model

abbrev add_limit : Text → Option ℕ → Assoc Text ℕ → Assoc Text ℕ
add_limit model none m = m
add_limit model (some limit) m = insert model limit m

unfoldable pub budget_models : Wiring → List Model → Assoc Text ℕ → Assoc Text ℕ
unfolding model_limit
budget_models w [] m = m
budget_models w (x ∷ xs) m = budget_models w xs (add_limit x.id (model_limit w x.id) m)

-- What server.New is given.
unfoldable pub token_budget : Wiring → List Model → Option TokenBudgetConfig
unfolding budget_models
token_budget w models =
    let limits = budget_models w models [] in
    if is_nil limits then none else some (record { fallback = 0; models = limits })

abbrev pub listed : Text → List Model → Bool
listed id models = any (λ x. text_eq x.id id) models

abbrev or_else : Option ℕ → Option ℕ → Option ℕ
or_else (some limit) o = some limit
or_else none o = o

lookup-add_limit :
    (model asked : Text) (limit : Option ℕ) (m : Assoc Text ℕ)
    → lookup asked (add_limit model limit m)
      ≡ (if text_eq model asked then or_else limit (lookup asked m) else lookup asked m)
lookup-add_limit model asked none m = ground arith
lookup-add_limit model asked (some limit) m = lookup-insert model asked limit m

lookup-budget_models :
    (w : Wiring) (xs : List Model) (m : Assoc Text ℕ) (asked : Text)
    → lookup asked (budget_models w xs m)
      ≡ (if listed asked xs then or_else (model_limit w asked) (lookup asked m) else lookup asked m)
unfolding budget_models
lookup-budget_models w [] m asked = refl
lookup-budget_models w (x ∷ xs) m asked =
    let limit = model_limit w asked in
    let step =
      lookup-budget_models w xs (add_limit x.id (model_limit w x.id) m) asked
      ∙ ap (λ o. if listed asked xs then or_else limit o else o)
          (lookup-add_limit x.id asked (model_limit w x.id) m) in
    step
    ∙ merge limit (model_limit w x.id) (lookup asked m) (text_eq x.id asked) (listed asked xs)
        (λ e. ap (model_limit w) ((list_beq_iff x.id asked).0 e))
  where
    merge :
        (l l' o : Option ℕ) (same others : Bool)
        → (same ≡ true → l' ≡ l)
        → (let here = if same then or_else l' o else o in if others then or_else l here else here)
          ≡ (if same || others then or_else l o else o)
    merge l l' o false others h = refl
    merge l l' o true false h = ap (λ x. or_else x o) (h refl)
    merge none l' o true true h = rw (h refl) refl
    merge (some l) l' o true true h = refl

-- The budget that the server is given limits each listed model to what the configuration of its primary
-- provider sets for it, and no other model.
pub token_budget_limits :
    (w : Wiring) (models : List Model) (asked : Text)
    → limit_for (token_budget w models) asked
      ≡ (if listed asked models then or_default (model_limit w asked) 0 else 0)
unfolding token_budget limit_for
token_budget_limits w models asked =
    by_size (budget_models w models [])
    ∙ ap (λ o. or_default o 0) (lookup-budget_models w models [] asked)
    ∙ last (listed asked models) (model_limit w asked)
  where
    by_size :
        (m : Assoc Text ℕ)
        → limit_for (if is_nil m then none else some (record { fallback = 0; models = m })) asked
          ≡ or_default (lookup asked m) 0
    by_size [] = refl
    by_size (e ∷ m) = refl

    last :
        (t : Bool) (l : Option ℕ)
        → or_default (if t then or_else l none else none) 0 ≡ (if t then or_default l 0 else 0)
    last true none = refl
    last true (some l) = refl
    last false l = refl

abbrev pub no_wiring : Wiring
no_wiring = record { registry = new_registry; registered = []; provider_cfgs = [] }

-- `run` up to the server: the providers, the first refresh, and the token budget.
unfoldable pub start_up :
    (ProviderConfig → Result Built)
    → (ProviderId → Option (List Model))
    → List ProviderConfig
    → Result (Wiring × Option TokenBudgetConfig)
unfolding wire_all token_budget refresh
start_up build models pcs = do
  w ← wire_all build 0 pcs no_wiring
  let w' = record w { registry = refresh models w.registry }
  ok (w', token_budget w' w'.registry.all_models)
