-- ===== src/Metrics/Laws.antt =====
-- What a scrape of internal/metrics/metrics.go reads after any sequence of records.
use go_ai_proxy.Common.{
  ℕ, ◌+◌, ◌%◌, ◌≡◌, ◌↔◌, Bool, true, ◌&&◌, List, [], ◌∷◌, arith, or_default, if◌then◌else◌,
  Bool-cases, inl, inr,
}
use go_ai_proxy.Common.Text.{Text, text_eq}
use go_ai_proxy.Common.Eq.{Comparable, nat_eq, list_eq, pair_eq}
use go_ai_proxy.Common.Int64.{add_int, is_positive, modulus}
use go_ai_proxy.Common.Assoc.{Assoc, lookup, lookup-insert}
use go_ai_proxy.Metrics.{
  Metrics, RequestKey, DurationKey, TokenKey, bump, record_request, record_tokens, new_metrics,
  prompt, completion, cached,
}

-- What a map of counters says of a key.
abbrev pub value {ℓ} : {K : Type ℓ} ⦃e : Comparable K⦄ → Assoc K ℕ → K → ℕ
value m k = or_default (lookup k m) 0

module _ {ℓ} {K : Type ℓ} ⦃e : Comparable K⦄ where
  pub value-bump :
      (k j : K) (n : ℕ) (m : Assoc K ℕ)
      → value (bump k n m) j ≡ (if e.same k j then add_int (value m j) n else value m j)
  unfolding bump
  value-bump k j n m = ground (arith, lookup-insert k j (add_int (value m k) n) m, e.same_iff k j)

-- One finished request.
pub record Finish : Type 0 where
  pub model : Text
  pub provider : Text
  pub status : Text
  pub duration_ms : ℕ

abbrev pub record_all : List Finish → Metrics → Metrics
record_all [] m = m
record_all (f ∷ fs) m = record_all fs (record_request f.model f.provider f.status f.duration_ms m)

abbrev pub is_request : Text → Text → Text → Finish → Bool
is_request model provider status f =
    text_eq f.model model && (text_eq f.provider provider && text_eq f.status status)

-- The number of the requests with these labels, and the sum of the durations of those with the first
-- two.
abbrev pub count : Text → Text → Text → List Finish → ℕ
count model provider status [] = 0
count model provider status (f ∷ fs) =
    let rest = count model provider status fs in
    if is_request model provider status f then 1 + rest else rest

abbrev pub time_spent : Text → Text → List Finish → ℕ
time_spent model provider [] = 0
time_spent model provider (f ∷ fs) =
    let rest = time_spent model provider fs in
    if text_eq f.model model && text_eq f.provider provider then f.duration_ms + rest else rest

module _ (model provider status : Text) where
  counted_requests :
      (fs : List Finish) (m : Metrics)
      → value (record_all fs m).requests (model, (provider, status)) % modulus
        ≡ (value m.requests (model, (provider, status)) + count model provider status fs) % modulus
  unfolding record_request
  counted_requests [] m = omega arith
  counted_requests (f ∷ fs) m =
      let step =
        value-bump {K = RequestKey} (f.model, (f.provider, f.status)) (model, (provider, status)) 1
          m.requests in
      let rest = counted_requests fs (record_request f.model f.provider f.status f.duration_ms m) in
      elim (Bool-cases (is_request model provider status f)) [
        | inl h ↦ rw h (omega (arith, rest, rw h at step))
        | inr h ↦ rw h (omega (arith, rest, rw h at step))
      ]

  counted_time :
      (fs : List Finish) (m : Metrics)
      → value (record_all fs m).duration (model, provider) % modulus
        ≡ (value m.duration (model, provider) + time_spent model provider fs) % modulus
  unfolding record_request
  counted_time [] m = omega arith
  counted_time (f ∷ fs) m =
      let step =
        value-bump {K = DurationKey} (f.model, f.provider) (model, provider) f.duration_ms
          m.duration in
      let rest = counted_time fs (record_request f.model f.provider f.status f.duration_ms m) in
      elim (Bool-cases (text_eq f.model model && text_eq f.provider provider)) [
        | inl h ↦ rw h (omega (arith, rest, rw h at step))
        | inr h ↦ rw h (omega (arith, rest, rw h at step))
      ]

  -- After any finished requests, from a new Metrics, a request counter is the number of those with
  -- its labels, and a duration counter the sum of their durations, modulo 2 ^ 64.
  pub record_all_counts :
      (fs : List Finish)
      → (value (record_all fs new_metrics).requests (model, (provider, status)) % modulus
          ≡ count model provider status fs % modulus)
        × (value (record_all fs new_metrics).duration (model, provider) % modulus
            ≡ time_spent model provider fs % modulus)
  unfolding lookup
  record_all_counts fs =
      (omega (arith, counted_requests fs new_metrics), omega (arith, counted_time fs new_metrics))

abbrev key_is : TokenKey → TokenKey → Bool
key_is = pair_eq.same

key_is_iff : (a b : TokenKey) → (key_is a b ≡ true) ↔ (a ≡ b)
key_is_iff = pair_eq.same_iff

-- One record of tokens adds the prompt and the completion tokens to their counters, the cached
-- tokens to theirs if there are any, and leaves every other counter as it was.
pub record_tokens_counts :
    (provider model : Text) (p c k : ℕ) (m : Metrics) (key : TokenKey)
    → value (record_tokens provider model p c k m).tokens key ≡ (
        if key_is (provider, (model, prompt)) key
        then add_int (value m.tokens key) p
        else if key_is (provider, (model, completion)) key
        then add_int (value m.tokens key) c
        else if key_is (provider, (model, cached)) key && is_positive k
        then add_int (value m.tokens key) k
        else value m.tokens key)
unfolding record_tokens
record_tokens_counts provider model p c k m key = ground (
  arith,
  value-bump (provider, (model, prompt)) key p m.tokens,
  value-bump (provider, (model, completion)) key c (bump (provider, (model, prompt)) p m.tokens),
  value-bump (provider, (model, cached)) key k
      (bump (provider, (model, completion)) c (bump (provider, (model, prompt)) p m.tokens)),
  key_is_iff (provider, (model, prompt)) key,
  key_is_iff (provider, (model, completion)) key,
  key_is_iff (provider, (model, cached)) key,
)
