-- ===== src/Server/Exhausted.antt =====
-- What the client sees when no candidate answers, in terms of the errors of the candidates: the end
-- of the three handlers of internal/server/server.go.
use go_ai_proxy.Common.{
  leb, if◌then◌else◌, ℕ, ◌≡◌, refl, true, false, ◌&&◌, Option, none, some, List, [], ◌∷◌, arith,
  all,
}
use go_ai_proxy.Common.Text.{Text, lit}
use go_ai_proxy.Common.All.{All}
use go_ai_proxy.Common.Int64.{le_int}
use go_ai_proxy.Domain.{ProviderId}
use go_ai_proxy.Metrics.{Metrics}
use go_ai_proxy.Provider.Errors.{ProviderError, rate_limit, upstream, queue_full, other}
use go_ai_proxy.Registry.Route.{Candidate}
use go_ai_proxy.Server.{
  Fanout, Reply, HttpError, failure, start_fanout, fail_candidate, is_rate_limit, longer_wait,
  exhausted, write_error, whole_seconds, retry_in, write_provider_failure, plain, all_failed,
}
use go_ai_proxy.Server.Fallback.{Failure, errors_of, note_failures}

abbrev pub last_error : Option ProviderError → List ProviderError → Option ProviderError
last_error e [] = e
last_error e (x ∷ xs) = last_error (some x) xs

abbrev pub longest_wait : ℕ → List ProviderError → ℕ
longest_wait d [] = d
longest_wait d (x ∷ xs) = longest_wait (longer_wait d x) xs

abbrev pub too_many : ℕ → HttpError
too_many d = record (write_error 429 (lit "rate_limit_exceeded") (retry_in d)) {
  retry_after = some (whole_seconds d);
}

abbrev pub busy : HttpError
busy =
    write_error 503 (lit "provider_busy") (plain (lit "all providers are at capacity, retry later"))

-- The error response for a last error that is not among rate limits only.
abbrev pub last_failure : Option ProviderError → HttpError
last_failure (some queue_full) = busy
last_failure (some (upstream status body)) =
    if leb 400 status && leb status 499
    then write_error status (lit "provider_error") (plain body)
    else write_error 502 (lit "upstream_error") (all_failed (some (upstream status body)))
last_failure e = write_error 502 (lit "upstream_error") (all_failed e)

-- The error response, from the errors of the candidates in order.
abbrev pub failure_for : List ProviderError → HttpError
failure_for es =
    if all is_rate_limit es then too_many (longest_wait 0 es) else last_failure (last_error none es)

module _ {ℓ} {A : Type ℓ} (name : ProviderId → Text) where
  note_failures-all_rate_limited :
      (fs : List Failure) (f : Fanout A)
      → (note_failures name fs f).all_rate_limited
        ≡ (f.all_rate_limited && all is_rate_limit (errors_of fs))
  unfolding fail_candidate
  note_failures-all_rate_limited [] f = ground arith
  note_failures-all_rate_limited ((c, (e, ms)) ∷ fs) f =
      ground (arith, note_failures-all_rate_limited fs (fail_candidate name c e ms f))

  note_failures-last_err :
      (fs : List Failure) (f : Fanout A)
      → (note_failures name fs f).last_err ≡ last_error f.last_err (errors_of fs)
  unfolding fail_candidate
  note_failures-last_err [] f = refl
  note_failures-last_err ((c, (e, ms)) ∷ fs) f =
      note_failures-last_err fs (fail_candidate name c e ms f)

  note_failures-max_retry_after :
      (fs : List Failure) (f : Fanout A)
      → (note_failures name fs f).max_retry_after ≡ longest_wait f.max_retry_after (errors_of fs)
  unfolding fail_candidate
  note_failures-max_retry_after [] f = refl
  note_failures-max_retry_after ((c, (e, ms)) ∷ fs) f =
      note_failures-max_retry_after fs (fail_candidate name c e ms f)

module _ {ℓ κ} (A : Type ℓ) {B : Type κ} (name : ProviderId → Text) where
  -- The reply after a loop over `cs` whose failures are `fs`, for a client that is still there.
  abbrev pub reply_after : Option Metrics → Text → List Candidate → List Failure → Reply B
  reply_after metrics model cs fs =
      exhausted {A = A} {B = B} false
        (note_failures name fs (start_fanout {A = A} metrics model cs))

  pub exhausted_lem :
      (metrics : Option Metrics) (model : Text) (c : Candidate) (cs : List Candidate)
      (fs : List Failure)
      → reply_after metrics model (c ∷ cs) fs ≡ failure (failure_for (errors_of fs))
  unfolding exhausted write_provider_failure
  exhausted_lem metrics model c cs fs =
      let a =
        note_failures-all_rate_limited name fs (start_fanout {A = A} metrics model (c ∷ cs)) in
      let l = note_failures-last_err name fs (start_fanout {A = A} metrics model (c ∷ cs)) in
      let m = note_failures-max_retry_after name fs (start_fanout {A = A} metrics model (c ∷ cs)) in
      ground (arith, a, l, m)

longest_wait-ge : (d : ℕ) (es : List ProviderError) → le_int d (longest_wait d es) ≡ true
longest_wait-ge d [] = ground arith
longest_wait-ge d (rate_limit w ∷ es) =
    ground (arith, longest_wait-ge (longer_wait d (rate_limit w)) es)
longest_wait-ge d (upstream s b ∷ es) = longest_wait-ge d es
longest_wait-ge d (queue_full ∷ es) = longest_wait-ge d es
longest_wait-ge d (other t ∷ es) = longest_wait-ge d es

abbrev pub WaitWithin : ℕ → ProviderError → Type 0
WaitWithin longest (rate_limit w) = le_int w longest ≡ true
WaitWithin longest _ = Unit

-- The wait that is reported is at least each provider's.
pub longest_wait-All : (d : ℕ) (es : List ProviderError) → All (WaitWithin (longest_wait d es)) es
longest_wait-All d [] = tt
longest_wait-All d (rate_limit w ∷ es) = (
  ground (arith, longest_wait-ge (longer_wait d (rate_limit w)) es),
  longest_wait-All (longer_wait d (rate_limit w)) es,
)
longest_wait-All d (upstream s b ∷ es) = (tt, longest_wait-All d es)
longest_wait-All d (queue_full ∷ es) = (tt, longest_wait-All d es)
longest_wait-All d (other t ∷ es) = (tt, longest_wait-All d es)
