-- ===== src/Metrics.antt =====
-- internal/metrics/metrics.go: counters in three maps. A counter is an int64; the mutex and the
-- atomic additions make each call of `Add` one step, in some order.
pub mod Laws
use go_ai_proxy.Common.{
  ℕ, ◌+◌, Bool, true, false, Option, none, some, List, [], ◌∷◌, ◌++◌, map, is_nil, or_default,
  if◌then◌else◌,
}
use go_ai_proxy.Common.Text.{Text, lit}
use go_ai_proxy.Common.Eq.{Comparable, nat_eq, list_eq, pair_eq}
use go_ai_proxy.Common.Int64.{add_int, is_positive}
use go_ai_proxy.Common.Assoc.{Assoc, lookup, insert}

-- requestKey{model, provider, status}, durationKey{model, provider}, tokenKey{provider, model, type}
abbrev pub RequestKey : Type 0
RequestKey = Text × (Text × Text)

abbrev pub DurationKey : Type 0
DurationKey = Text × Text

abbrev pub TokenKey : Type 0
TokenKey = Text × (Text × Text)

pub record Metrics : Type 0 where
  pub requests : Assoc RequestKey ℕ
  pub duration : Assoc DurationKey ℕ
  pub tokens : Assoc TokenKey ℕ

abbrev pub new_metrics : Metrics
new_metrics = record { requests = []; duration = []; tokens = [] }

-- reqCounter, durCounter and tokCounter: the counter of a key, made at its first use; then `Add`.
unfoldable pub bump {ℓ} : {K : Type ℓ} ⦃e : Comparable K⦄ → K → ℕ → Assoc K ℕ → Assoc K ℕ
bump k n m = insert k (add_int (or_default (lookup k m) 0) n) m

unfoldable pub record_request : Text → Text → Text → ℕ → Metrics → Metrics
record_request model provider status duration_ms m = record m {
  requests = bump (model, (provider, status)) 1 m.requests;
  duration = bump (model, provider) duration_ms m.duration;
}

abbrev pub prompt : Text
prompt = lit "prompt"

abbrev pub completion : Text
completion = lit "completion"

abbrev pub cached : Text
cached = lit "cached"

unfoldable pub record_tokens : Text → Text → ℕ → ℕ → ℕ → Metrics → Metrics
record_tokens provider model prompt_tokens completion_tokens cached_tokens m =
    let counted =
      bump (provider, (model, completion)) completion_tokens
        (bump (provider, (model, prompt)) prompt_tokens m.tokens) in
    record m {
      tokens =
          if is_positive cached_tokens
          then bump (provider, (model, cached)) cached_tokens counted
          else counted;
    }

-- A line of the Prometheus text format, before it is printed.
pub data Line : Type 0 where
  help : Text → Text → Line
  counter_type : Text → Line
  sample : Text → List (Text × Text) → ℕ → Line

request_line : RequestKey × ℕ → Line
request_line ((model, (provider, status)), n) =
    sample (lit "gap_requests_total")
      ((lit "model", model) ∷ (lit "provider", provider) ∷ (lit "status", status) ∷ []) n

duration_line : DurationKey × ℕ → Line
duration_line ((model, provider), n) =
    sample (lit "gap_request_duration_ms_total")
      ((lit "model", model) ∷ (lit "provider", provider) ∷ []) n

token_line : TokenKey × ℕ → Line
token_line ((provider, (model, kind)), n) =
    sample (lit "gap_tokens_total")
      ((lit "provider", provider) ∷ (lit "model", model) ∷ (lit "type", kind) ∷ []) n

abbrev section : Text → Text → List Line → List Line
section name text [] = []
section name text (l ∷ ls) = help name text ∷ counter_type name ∷ l ∷ ls

-- WritePrometheus, with the entries of each map in the order of their first use; Go's order varies.
unfoldable pub write_prometheus : Metrics → List Line
unfolding request_line duration_line token_line
write_prometheus m =
    section (lit "gap_requests_total") (lit "Total number of requests handled")
      (map request_line m.requests)
    ++ (section (lit "gap_request_duration_ms_total")
          (lit "Sum of request durations in milliseconds") (map duration_line m.duration)
        ++ section (lit "gap_tokens_total") (lit "Total tokens processed (billing)")
            (map token_line m.tokens))
