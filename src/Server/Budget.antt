-- ===== src/Server/Budget.antt =====
-- internal/server/tokenbudget.go, and the test in handleChatCompletions that uses it.
use go_ai_proxy.Common.{ℕ, Bool, false, ◌&&◌, Option, none, some, or_default}
use go_ai_proxy.Common.Text.{Text}
use go_ai_proxy.Common.Eq.{list_eq, nat_eq}
use go_ai_proxy.Common.Int64.{lt_int, is_positive}
use go_ai_proxy.Common.Assoc.{Assoc, lookup}

pub record TokenBudgetConfig : Type 0 where
  pub fallback : ℕ
  pub models : Assoc Text ℕ

-- limitFor; a nil config has no limit.
unfoldable pub limit_for : Option TokenBudgetConfig → Text → ℕ
limit_for none model = 0
limit_for (some c) model = or_default (lookup model c.models) c.fallback

-- Whether the request asks for more than the model's limit.
unfoldable pub exceeds_budget : Option TokenBudgetConfig → Text → Option ℕ → Bool
exceeds_budget budget model none = false
exceeds_budget budget model (some tokens) =
    let limit = limit_for budget model in is_positive limit && lt_int limit tokens
