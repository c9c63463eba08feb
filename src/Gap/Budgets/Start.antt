-- ===== src/Gap/Budgets/Start.antt =====
-- run in cmd/gap/main.go: each provider keeps its own configuration, and the limits of the server are
-- those of the configurations.
use go_ai_proxy.Common.{
  ℕ, zero, suc, ◌+◌, ◌<◌, ◌≡◌, ◌≢◌, Option, some, List, [], ◌∷◌, arith, get_elem?, or_default,
  if◌then◌else◌, ap, ◌∙◌, sym,
}
use go_ai_proxy.Common.Text.{Text}
use go_ai_proxy.Common.Assoc.{Assoc, lookup, insert, lookup-insert}
use go_ai_proxy.Common.Eq.{nat_eq, list_eq}
use go_ai_proxy.Domain.{Model, ProviderId}
use go_ai_proxy.Provider.OpenAi.{Result, ok, >>=-eq-ok, ok_injective}
use go_ai_proxy.Registry.{refresh}
use go_ai_proxy.Registry.Route.{provider_for}
use go_ai_proxy.Server.Budget.{TokenBudgetConfig, limit_for}
use go_ai_proxy.Gap.{ProviderConfig}
use go_ai_proxy.Gap.Build.{Built}
use go_ai_proxy.Gap.Budgets.{
  Wiring, no_wiring, wire, wire_all, token_budget, model_limit, configured_limit, budget_of,
  config_of, listed, token_budget_limits, start_up,
}

other_key :
    (i id : ProviderId) (pc : ProviderConfig) (m : Assoc ProviderId ProviderConfig)
    → id ≢ i
    → lookup i (insert id pc m) ≡ lookup i m
other_key i id pc m h = ground (arith, lookup-insert id i pc m, h)

same_key :
    (id : ProviderId) (pc : ProviderConfig) (m : Assoc ProviderId ProviderConfig)
    → lookup id (insert id pc m) ≡ some pc
same_key id pc m = ground (arith, lookup-insert id id pc m)

module _ (build : ProviderConfig → Result Built) where
  -- What was registered before stays.
  wire_all-earlier :
      (id : ProviderId) (pcs : List ProviderConfig) (w w' : Wiring) (i : ProviderId)
      → wire_all build id pcs w ≡ ok w'
      → i < id
      → lookup i w'.provider_cfgs ≡ lookup i w.provider_cfgs
  unfolding wire_all wire
  wire_all-earlier id [] w w' i h l =
      ap (λ (x : Wiring). lookup i x.provider_cfgs) (sym (ok_injective w w' h))
  wire_all-earlier id (pc ∷ pcs) w w' i h l =
      let (built, e, rest) = >>=-eq-ok (build pc) _ h in
      wire_all-earlier (id + 1) pcs (wire id pc built w) w' i rest (omega arith)
      ∙ other_key i id pc w.provider_cfgs (omega arith)

  wire_all-configs :
      (id : ProviderId) (pcs : List ProviderConfig) (w w' : Wiring) (i : ℕ) (pc : ProviderConfig)
      → wire_all build id pcs w ≡ ok w'
      → get_elem? pcs i ≡ some pc
      → lookup (id + i) w'.provider_cfgs ≡ some pc
  unfolding wire_all wire
  wire_all-configs id [] w w' i pc h g = ground arith
  wire_all-configs id (q ∷ pcs) w w' zero pc h g =
      let (built, e, rest) = >>=-eq-ok (build q) _ h in
      let here : id + 0 ≡ id = omega arith in
      let same : q ≡ pc = cc g in
      ap (λ n. lookup n w'.provider_cfgs) here
      ∙ wire_all-earlier (id + 1) pcs (wire id q built w) w' id rest (omega arith)
      ∙ same_key id q w.provider_cfgs
      ∙ ap some same
  wire_all-configs id (q ∷ pcs) w w' (suc i) pc h g =
      let (built, e, rest) = >>=-eq-ok (build q) _ h in
      let later = wire_all-configs (id + 1) pcs (wire id q built w) w' i pc rest g in
      let shift : id + suc i ≡ (id + 1) + i = omega arith in
      ap (λ n. lookup n w'.provider_cfgs) shift ∙ later

  -- After a start, the limit that the server has for a listed model is the one that the configuration of
  -- its primary provider sets, 0 where it sets none; other models have no limit.
  pub start_up_limits :
      (models : ProviderId → Option (List Model)) (pcs : List ProviderConfig) (w : Wiring)
      (budget : Option TokenBudgetConfig) (asked : Text) (i : ProviderId) (pc : ProviderConfig)
      → start_up build models pcs ≡ ok (w, budget)
      → provider_for w.registry asked ≡ some (some i)
      → get_elem? pcs i ≡ some pc
      → limit_for budget asked ≡ (
          if listed asked w.registry.all_models
          then or_default (configured_limit pc.token_budget asked) 0
          else 0)
  unfolding start_up model_limit
  start_up_limits models pcs w budget asked i pc h p g =
      let zero_plus : 0 + i ≡ i = omega arith in
      let (w0, e, f) = >>=-eq-ok (wire_all build 0 pcs no_wiring) _ h in
      let w1 : Wiring = record w0 { registry = refresh models w0.registry } in
      let b1 = token_budget w1 w1.registry.all_models in
      let start : (w1, b1) ≡ (w, budget) = ok_injective (w1, b1) (w, budget) f in
      let w_eq : w1 ≡ w = ap (λ x. x.0) start in
      let b_eq : b1 ≡ budget = ap (λ x. x.1) start in
      let config : lookup i w.provider_cfgs ≡ some pc =
        ap (λ (x : Wiring). lookup i x.provider_cfgs) (sym w_eq)
        ∙ ap (λ n. lookup n w0.provider_cfgs) (sym zero_plus)
        ∙ wire_all-configs 0 pcs no_wiring w0 i pc e g in
      let limit : model_limit w asked ≡ configured_limit pc.token_budget asked =
        ap (λ o. configured_limit (budget_of (config_of w o)) asked) p
        ∙ ap (λ o. configured_limit (budget_of o) asked) config in
      ap (λ b. limit_for b asked) (sym b_eq)
      ∙ token_budget_limits w1 w1.registry.all_models asked
      ∙ ap
          (λ (x : Wiring).
            if listed asked x.registry.all_models then or_default (model_limit x asked) 0 else 0)
          w_eq
      ∙ ap (λ o. if listed asked w.registry.all_models then or_default o 0 else 0) limit
