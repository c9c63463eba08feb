-- ===== src/Tests/Metrics.antt =====
-- Counters after two requests, and after one record of tokens.
use go_ai_proxy.Common.{ℕ, List, [], ◌∷◌}
use go_ai_proxy.Common.Eq.{nat_eq, list_eq, pair_eq}
use go_ai_proxy.Common.Text.{Text, lit}
use go_ai_proxy.Metrics.Laws.{Finish}

abbrev finish : Text → ℕ → Finish
finish status ms = record { model = lit "m"; provider = lit "p"; status = status; duration_ms = ms }

abbrev finishes : List Finish
finishes = finish (lit "error") 5 ∷ finish (lit "success") 7 ∷ []
