-- ===== src/Tests/Live.antt =====
-- A registry of one provider: Start runs to its end while a call of Refresh is under way. A refresh that
-- fails. A shutdown.
use go_ai_proxy.Common.{◌≡◌, refl, true, none, some, [], ◌∷◌}
use go_ai_proxy.Common.Eq.{list_beq, nat_eq}
use go_ai_proxy.Common.Assoc.{lookup}
use go_ai_proxy.Common.Sort.{sort_stable}
use go_ai_proxy.Common.Text.{Text, lit, strip_prefix}
use go_ai_proxy.Registry.{Registry, bare_entry, no_tables, build, refresh}
use go_ai_proxy.Registry.Route.{candidates_for, providers_for, serving, glob_providers}
use go_ai_proxy.Registry.Live.{
  Models, starting, selecting, launch, turn, begin, loop_step, System, loop_moves, refresh_called,
  Reach, here, next,
}
use go_ai_proxy.Registry.Live.Underway.{IsWhole, HasStarted, IsRefreshed}
use go_ai_proxy.Registry.Live.Whole.{begun, registry-IsWhole}
use go_ai_proxy.Server.Handlers.{find_candidates, candidates_now}
use go_ai_proxy.Server.Handlers.Cancelled.{failed_refresh_forgets}
use go_ai_proxy.Gap.Shutdown as Shutdown
use go_ai_proxy.Gap.Shutdown.{Process, returned, draining, step, returns_while_draining}
use go_ai_proxy.Tests.Registry.{model}
use go_ai_proxy.Tests.Server.{backend, server}

abbrev one : Registry
one = record { providers = bare_entry 1 ∷ []; tables = no_tables }

abbrev reported : Models
reported p = some (model (lit "m") [] ∷ [])

abbrev running : System
running = record {
  registry = refresh reported one;
  loop = selecting;
  calls = begin reported one ∷ [];
}

Reach-running : Reach one running
unfolding loop_step refresh build
Reach-running =
    let a =
      next here (loop_moves (launch reported) (starting (begin reported one)) one refl refl) in
    let b = next a (refresh_called reported refl) in
    let c = next b (loop_moves turn _ one refl refl) in
    next c (loop_moves turn selecting (refresh reported one) refl refl)

registry-IsWhole_example :
    IsWhole (begun Reach-running) one (refresh reported one)
    × (HasStarted selecting → IsRefreshed (begun Reach-running) one (refresh reported one))
registry-IsWhole_example = registry-IsWhole Reach-running

unknown_now : candidates_now backend (lit "x") (server 0) ≡ []
unfolding candidates_for providers_for serving glob_providers lookup sort_stable list_beq
    strip_prefix
unknown_now = refl

failed_refresh_forgets_example :
    let end = (find_candidates backend (lit "x") (server 0)).0 in
    ((other : Text) → candidates_now backend other end ≡ []) × (end.registry.all_models ≡ [])
failed_refresh_forgets_example =
    failed_refresh_forgets backend (lit "x") (server 0) unknown_now (λ p. refl)

returns_while_draining_example :
    (p : Process) × Shutdown.Reach p
    × (p.main ≡ returned true)
    × (p.waiter ≡ draining)
    × (p.requests ≡ 2)
    × ((ev : Shutdown.Event) → step ev p ≡ none)
returns_while_draining_example = returns_while_draining 2
