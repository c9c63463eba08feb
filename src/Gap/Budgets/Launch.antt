-- ===== src/Gap/Budgets/Launch.antt =====
-- run in cmd/gap/main.go, from the configuration to the server that listens.
use mathlib.Core.Option
use go_ai_proxy.Common.{
  ℕ, ◌≡◌, refl, Bool, ◌||◌, Option, none, some, List, ◌++◌, get_elem?, or_default, if◌then◌else◌,
  ap, ◌∙◌, sym, arith,
}
use go_ai_proxy.Common.Text.{Text}
use go_ai_proxy.Common.Int64.{is_positive}
use go_ai_proxy.Domain.{Model, ProviderId}
use go_ai_proxy.Metrics.{Metrics, new_metrics}
use go_ai_proxy.Provider.OpenAi.{Result, ok, ◌>>=◌, >>=-eq-ok, ok_injective}
use go_ai_proxy.Provider.OpenAi.Client.{option_of, apply_settings}
use go_ai_proxy.Registry.{Registry}
use go_ai_proxy.Registry.Route.{provider_for}
use go_ai_proxy.Server.Budget.{TokenBudgetConfig, limit_for}
use go_ai_proxy.Server.Audit.{Logger}
use go_ai_proxy.Server.Handlers.{Server}
use go_ai_proxy.Server.Serve as Serve
use go_ai_proxy.Server.Serve.{
  Outside, Gate, Settings, RateLimitConfig, with_max_body_bytes, with_audit_log, with_metrics,
  with_rate_limit, with_token_budget,
}
use go_ai_proxy.Gap.{ProviderConfig, Config, ServerConfig, server_options, given, limit_of}
use go_ai_proxy.Gap.Build.{Built}
use go_ai_proxy.Gap.Budgets.{Wiring, configured_limit, listed, start_up}
use go_ai_proxy.Gap.Budgets.Start.{start_up_limits}

-- The settings but for the budget leave the budget, and it is set to what is given.
options_budget :
    (a b c : Bool) (n : ℕ) (budget : Option TokenBudgetConfig) (logger : Logger) (m : Metrics)
    (limit : Option RateLimitConfig) (s : Settings)
    → s.token_budget ≡ none
    → let q =
        apply_settings
          (option_of a (with_max_body_bytes n)
            ++ (given budget with_token_budget
                ++ (option_of b (with_audit_log logger)
                    ++ (option_of c (with_metrics m) ++ given limit with_rate_limit))))
          s in
      q.token_budget ≡ budget
options_budget a b c n none logger m none s h = ground (arith, h)
options_budget a b c n none logger m (some cfg) s h = ground (arith, h)
options_budget a b c n (some x) logger m none s h = ground arith
options_budget a b c n (some x) logger m (some cfg) s h = ground arith

module _ {L W : Type 0} (o : Outside L) (build : ProviderConfig → Result Built)
    (models : ProviderId → Option (List Model)) where
  -- What listens: the limiter and the server.
  unfoldable pub launch : Bool → Config → W → Result (Gate o × Server W)
  unfolding start_up server_options Serve.new
  launch debug cfg world = do
    (w, budget) ← start_up build models cfg.providers
    ok (Serve.new o (server_options debug budget cfg.server) w.registry world)

  new-budget :
      (debug : Bool) (budget : Option TokenBudgetConfig) (c : ServerConfig) (w : Wiring) (world : W)
      → (let q = Serve.new o (server_options debug budget c) w.registry world in q.1.token_budget)
        ≡ budget
  unfolding server_options Serve.new
  new-budget debug budget c w world =
      options_budget (is_positive c.max_body_bytes) (c.audit_log || debug) c.metrics
        c.max_body_bytes budget (some debug) new_metrics (Option.map limit_of c.rate_limit) _ refl

  -- The server that gap starts limits each model that its registry lists when it is made to what the
  -- configuration of the model's primary provider sets, and sets no limit where that sets none. A model
  -- that is not listed then has no limit, whatever its provider's token_budget says: such is each model
  -- that is served through a glob alone.
  pub launch_limits :
      (debug : Bool) (cfg : Config) (world : W) (gate : Gate o) (s : Server W) (asked : Text)
      (i : ProviderId) (pc : ProviderConfig)
      → launch debug cfg world ≡ ok (gate, s)
      → provider_for s.registry asked ≡ some (some i)
      → get_elem? cfg.providers i ≡ some pc
      → limit_for s.token_budget asked ≡ (
          if listed asked s.registry.all_models
          then or_default (configured_limit pc.token_budget asked) 0
          else 0)
  unfolding launch Serve.new
  launch_limits debug cfg world gate s asked i pc h p g =
      let ((w, budget), e, f) = >>=-eq-ok (start_up build models cfg.providers) _ h in
      let made = Serve.new o (server_options debug budget cfg.server) w.registry world in
      let start : made ≡ (gate, s) = ok_injective made (gate, s) f in
      let same : w.registry ≡ s.registry = ap (λ (x : Gate o × Server W). x.1.registry) start in
      let kept : s.token_budget ≡ budget =
        sym (ap (λ (x : Gate o × Server W). x.1.token_budget) start)
        ∙ new-budget debug budget cfg.server w world in
      ap (λ b. limit_for b asked) kept
      ∙ start_up_limits build models cfg.providers w budget asked i pc e
          (ap (λ (r : Registry). provider_for r asked) same ∙ p) g
      ∙ ap
          (λ (r : Registry).
            if listed asked r.all_models
            then or_default (configured_limit pc.token_budget asked) 0
            else 0)
          same
