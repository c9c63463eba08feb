-- ===== src/Auth/OAuth.antt =====
-- internal/auth/oauth.go: the token cache of OAuthAuthenticator, as a specification in which the file, the
-- HTTP exchange and the browser flow are results that the environment gives; GetToken holds a mutex
-- throughout. The children have the file and the flow in full.
pub mod Files
pub mod Flow
pub mod Await
pub mod Refines
pub mod Browser
pub mod Grants
pub mod Restart
use go_ai_proxy.Common.{
  ℕ, ◌≡◌, ◌⊎◌, inl, inr, Bool, true, false, Option, none, some, arith, is_nil, if◌then◌else◌,
}
use go_ai_proxy.Common.Text.{Text}
use go_ai_proxy.Common.Int64.{lt_int, add_int, mul_int}

-- tokenData; `expires_at` is a time in nanoseconds.
pub record TokenData : Type 0 where
  pub access_token : Text
  pub refresh_token : Text
  pub expires_at : ℕ

-- The JSON object that the token endpoint answers with.
pub record TokenReply : Type 0 where
  pub access_token : Text
  pub refresh_token : Text
  pub expires_in : ℕ
  pub error : Text

-- The result of one exchange with the endpoint: no decoded reply, or a reply with the time at which
-- it is turned into a token and whether saveToken succeeds.
pub data Exchange : Type 0 where
  unreachable : Exchange
  reply : TokenReply → ℕ → Bool → Exchange

-- Everything that GetToken asks of its environment, in the order of the code. `code` says whether
-- the browser flow came back with a code.
pub record Env : Type 0 where
  pub stored : Option TokenData
  pub now : ℕ
  pub refreshed : Exchange
  pub code : Bool
  pub authorized : Exchange

abbrev pub new_token : TokenReply → ℕ → TokenData
new_token r now = record {
  access_token = r.access_token;
  refresh_token = r.refresh_token;
  expires_at = add_int now (mul_int r.expires_in 1000000000);
}

-- exchangeToken: the new cache, and whether the error is nil. The cache is written before the file.
unfoldable pub exchange_token : Option TokenData → Exchange → Option TokenData × Bool
exchange_token cache unreachable = (cache, false)
exchange_token cache (reply r now saved) =
    if is_nil r.error then (some (new_token r now), saved) else (cache, false)

-- authorize
pub authorize : Option TokenData → Env → Option TokenData × Bool
authorize cache env = if env.code then exchange_token cache env.authorized else (cache, false)

abbrev pub load : Option TokenData → Option TokenData → Option TokenData
load none stored = stored
load (some t) stored = some t

abbrev pub access : Option TokenData → Option Text
access none = none
access (some t) = some t.access_token

-- The token if the exchange went well; Go would panic on a nil token, which `access` gives as `none`.
abbrev pub answer : Option TokenData × Bool → Option TokenData × Option Text
answer (cache, true) = (cache, access cache)
answer (cache, false) = (cache, none)

abbrev pub or_authorize : Env → Option TokenData × Bool → Option TokenData × Option Text
or_authorize env (cache, true) = (cache, access cache)
or_authorize env (cache, false) = answer (authorize cache env)

pub from_cache : Option TokenData → Env → Option TokenData × Option Text
from_cache none env = answer (authorize none env)
from_cache (some t) env =
    if lt_int env.now t.expires_at
    then (some t, some t.access_token)
    else if is_nil t.refresh_token
    then answer (authorize (some t) env)
    else or_authorize env (exchange_token (some t) env.refreshed)

-- GetToken: the new cache, and the token, `none` for an error.
unfoldable pub get_token : Option TokenData → Env → Option TokenData × Option Text
unfolding from_cache authorize
get_token cache env = from_cache (load cache env.stored) env

-- A cached token, or the stored one if nothing is cached, is returned as it is until it expires,
-- whatever the endpoint would say.
pub get_token_cached :
    (cache : Option TokenData) (env : Env) (t : TokenData)
    → (cache ≡ some t) ⊎ ((cache ≡ none) × (env.stored ≡ some t))
    → lt_int env.now t.expires_at ≡ true
    → get_token cache env ≡ (some t, some t.access_token)
unfolding get_token
get_token_cached cache env t (inl c) h = rw (c, h)
get_token_cached cache env t (inr (c, e)) h = rw (c, e, h)

-- Whenever GetToken returns a token, it is the access token of what it leaves in the cache.
pub get_token_in_cache :
    (cache : Option TokenData) (env : Env) (key : Text)
    → (get_token cache env).1 ≡ some key
    → access (get_token cache env).0 ≡ some key
unfolding get_token exchange_token
get_token_in_cache cache env key h = ground arith

-- GetToken fails only if the browser flow gives no code or its exchange fails.
pub get_token_fails :
    (cache : Option TokenData) (env : Env)
    → (get_token cache env).1 ≡ none
    → (env.code ≡ false) ⊎ ((exchange_token none env.authorized).1 ≡ false)
unfolding get_token exchange_token
get_token_fails cache env h = ground arith
