-- ===== src/Provider/OpenAi.antt =====
-- internal/provider/openai: the provider for OpenAI-compatible servers. HTTP is outside: a call ends
-- without a response, or with a status, a Retry-After header and a body.
pub mod Think
pub mod Stream
pub mod Client
use go_ai_proxy.Common.{
  ℕ, ◌<◌, ◌≡◌, ◌≢◌, ◌⊎◌, inl, inr, refl, Bool, true, false, Option, none, some, List, [], ◌∷◌,
  arith, ◌==◌, if◌then◌else◌,
}
use go_ai_proxy.Common.Text.{Text}
use go_ai_proxy.Provider.Errors.{
  ProviderError, rate_limit, upstream, queue_full, other, parse_retry_after,
}

pub data Result {ℓ} (A : Type ℓ) : Type ℓ where
  ok : A → Result A
  err : ProviderError → Result A

infixl 5 ◌>>=◌
abbrev pub ◌>>=◌ {ℓ κ} : {A : Type ℓ} {B : Type κ} → Result A → (A → Result B) → Result B
err why >>= next = err why
ok found >>= next = next found

pub Result-cases {ℓ} :
    {A : Type ℓ} (m : Result A) → ((a : A) × (m ≡ ok a)) ⊎ ((e : ProviderError) × (m ≡ err e))
Result-cases (ok a) = inl (a, refl)
Result-cases (err e) = inr (e, refl)

-- What a chain of calls has gone through when it succeeds.
pub >>=-eq-ok {ℓ κ} :
    {A : Type ℓ} {B : Type κ} (first : Result A) (next : A → Result B) {last : B}
    → (first >>= next) ≡ ok last
    → (found : A) × (first ≡ ok found) × (next found ≡ ok last)
>>=-eq-ok (err why) next e = cc
>>=-eq-ok (ok found) next e = (found, refl, e)

pub if_err-eq-ok {ℓ} :
    {A : Type ℓ} (b : Bool) (e : ProviderError) (m : Result A) (a : A)
    → (if b then err e else m) ≡ ok a
    → m ≡ ok a
if_err-eq-ok true e m a h = cc h
if_err-eq-ok false e m a h = h

pub ok_injective {ℓ} : {A : Type ℓ} (a b : A) → ok a ≡ ok b → a ≡ b
ok_injective a b h = cc h

pub record HttpReply : Type 0 where
  pub status : ℕ
  pub retry_after : Text
  pub body : Text

-- How a round trip ends: no usable reply (the body was not built, the request failed, or the reply
-- could not be read), or a reply.
pub data RoundTrip : Type 0 where
  broken : Text → RoundTrip
  replied : HttpReply → RoundTrip

abbrev pub or_parse_error {ℓ} : {A : Type ℓ} → Option A → Result A
or_parse_error none = err (other [])
or_parse_error (some a) = ok a

module _ (until : Text → Option ℕ) where
  -- The tests on the status code that Chat, Embeddings and ChatStream share; `none` goes on.
  unfoldable pub status_error : HttpReply → Option ProviderError
  status_error r =
      if r.status == 429
      then some (rate_limit (parse_retry_after until r.retry_after))
      else if r.status == 200
      then none
      else some (upstream r.status r.body)

  module _ {ℓ} {A : Type ℓ} (decode : Text → Option A) where
    -- The end of Chat and of Embeddings: `decode` is the translator on the body.
    unfoldable pub finish_call : RoundTrip → Result A
    finish_call (broken e) = err (other e)
    finish_call (replied r) = elim (status_error r) [
      | some e ↦ err e
      | none ↦ or_parse_error (decode r.body)
    ]

    -- A call succeeds exactly on a 200 whose body decodes, with what it decodes to; a 429 is a rate
    -- limit with the header's wait, and any other status keeps its code and body for the client.
    pub finish_call_lem :
        (r : HttpReply)
        → (r.status ≡ 200 → finish_call (replied r) ≡ or_parse_error (decode r.body))
          × (r.status ≡ 429
              → finish_call (replied r) ≡ err (rate_limit (parse_retry_after until r.retry_after)))
          × (r.status ≢ 200
              → r.status ≢ 429
              → finish_call (replied r) ≡ err (upstream r.status r.body))
    unfolding finish_call status_error
    finish_call_lem r = (ground arith, ground arith, ground arith)
