-- ===== src/Server.antt =====
-- internal/server/server.go: the loop over the candidates that the three handlers share, and what is
-- written to the client when no candidate succeeds. A call on a provider changes the world outside
-- (`W`), and ends with a result and the milliseconds since the handler's start.
pub mod Fallback
pub mod Exhausted
pub mod Budget
pub mod Stream
pub mod Handlers
pub mod Limiter
pub mod Middleware
pub mod Audit
pub mod Serve
use go_ai_proxy.Common.{
  ℕ, ◌/◌, Bool, true, false, not, ◌&&◌, Option, none, some, List, [], ◌∷◌, is_nil, leb, ltb,
  if◌then◌else◌,
}
use mathlib.Core.Option
use go_ai_proxy.Common.Text.{Text, lit}
use go_ai_proxy.Common.Int64.{lt_int}
use go_ai_proxy.Domain.{ProviderId}
use go_ai_proxy.Metrics.{Metrics, record_request}
use go_ai_proxy.Provider.Errors.{ProviderError, rate_limit, upstream, queue_full, other, second}
use go_ai_proxy.Provider.OpenAi.{Result, ok, err}
use go_ai_proxy.Registry.Route.{Candidate}

-- What the message of an error response is made from.
pub data Detail : Type 0 where
  plain : Text → Detail
  too_large : ℕ → Detail
  unknown_model : Text → List Text → Detail
  over_budget : ℕ → ℕ → Text → Detail
  retry_in : ℕ → Detail
  all_failed : Option ProviderError → Detail

-- An error response: the status, the Retry-After header if it is set, and the `error` object.
pub record HttpError : Type 0 where
  pub status : ℕ
  pub retry_after : Option ℕ
  pub kind : Text
  pub detail : Detail

-- `closed` is the bare status 499; `success` is the status 200 with a body.
pub data Reply {ℓ} (A : Type ℓ) : Type ℓ where
  failure : HttpError → Reply A
  closed : Reply A
  success : A → Reply A

abbrev pub write_error : ℕ → Text → Detail → HttpError
write_error status kind detail = record {
  status = status;
  retry_after = none;
  kind = kind;
  detail = detail;
}

-- writeProviderFailure
unfoldable pub write_provider_failure : Option ProviderError → HttpError
write_provider_failure (some (upstream status body)) =
    if leb 400 status && ltb status 500
    then write_error status (lit "provider_error") (plain body)
    else write_error 502 (lit "upstream_error") (all_failed (some (upstream status body)))
write_provider_failure last = write_error 502 (lit "upstream_error") (all_failed last)

-- The variables of a handler's loop; `response` is the one that ended it.
pub record Fanout {ℓ} (A : Type ℓ) : Type ℓ where
  pub metrics : Option Metrics
  pub model : Text
  pub last_err : Option ProviderError
  pub response : Option (Candidate × A)
  pub all_rate_limited : Bool
  pub max_retry_after : ℕ

abbrev pub start_fanout {ℓ} : {A : Type ℓ} → Option Metrics → Text → List Candidate → Fanout A
start_fanout metrics model candidates = record {
  metrics = metrics;
  model = model;
  last_err = none;
  response = none;
  all_rate_limited = not (is_nil candidates);
  max_retry_after = 0;
}

abbrev pub is_rate_limit : ProviderError → Bool
is_rate_limit (rate_limit d) = true
is_rate_limit _ = false

-- The longer of two waits, as signed durations.
abbrev pub longer_wait : ℕ → ProviderError → ℕ
longer_wait longest (rate_limit d) = if lt_int longest d then d else longest
longer_wait longest _ = longest

module _ {ℓ} {A : Type ℓ} (name : ProviderId → Text) where
  -- What the loop does after an error.
  unfoldable pub fail_candidate : Candidate → ProviderError → ℕ → Fanout A → Fanout A
  fail_candidate c e duration_ms f = record f {
    metrics =
        Option.map (record_request c.model_id (name c.provider) (lit "error") duration_ms)
          f.metrics;
    model = c.model_id;
    last_err = some e;
    all_rate_limited = is_rate_limit e && f.all_rate_limited;
    max_retry_after = longer_wait f.max_retry_after e;
  }

module _ {ℓ κ} {A : Type ℓ} {W : Type κ} (name : ProviderId → Text)
    (call : Candidate → W → W × (Result A × ℕ))
    (on_success : Candidate → ℕ → A → Metrics → Metrics) where
  unfoldable pub succeed_candidate : Candidate → A → ℕ → Fanout A → Fanout A
  succeed_candidate c a duration_ms f = record f {
    metrics = Option.map (on_success c duration_ms a) f.metrics;
    model = c.model_id;
    last_err = none;
    response = some (c, a);
    all_rate_limited = false;
  }

  -- The loop: the first success ends it.
  unfoldable pub try_all : List Candidate → W → Fanout A → W × Fanout A
  try_all [] w f = (w, f)
  try_all (c ∷ cs) w f =
      let (w', (result, duration_ms)) = call c w in
      elim result [
        | ok a ↦ (w', succeed_candidate c a duration_ms f)
        | err e ↦ try_all cs w' (fail_candidate name c e duration_ms f)
      ]

abbrev pub is_queue_full : Option ProviderError → Bool
is_queue_full (some queue_full) = true
is_queue_full _ = false

-- int(d.Seconds()) for a duration that is not negative. The quotient is a float64 in the source; it
-- is the exact one for waits below 2 ^ 23 s.
abbrev pub whole_seconds : ℕ → ℕ
whole_seconds d = d / second

-- The end of a handler after the loop: `gone` is whether the client's context has ended.
unfoldable pub exhausted {ℓ κ} : {A : Type ℓ} {B : Type κ} → Bool → Fanout A → Reply B
exhausted gone f =
    if gone
    then closed
    else if f.all_rate_limited
    then failure
        (record (write_error 429 (lit "rate_limit_exceeded") (retry_in f.max_retry_after)) {
          retry_after = some (whole_seconds f.max_retry_after);
        })
    else if is_queue_full f.last_err
    then failure (
        write_error 503 (lit "provider_busy")
          (plain (lit "all providers are at capacity, retry later")))
    else failure (write_provider_failure f.last_err)
