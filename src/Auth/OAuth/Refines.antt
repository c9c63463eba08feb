-- ===== src/Auth/OAuth/Refines.antt =====
-- internal/auth/oauth.go: GetToken with the file and the browser flow does what the specification of the
-- token cache says.
use go_ai_proxy.Common.{
  ◌∙◌, ℕ, ap, List, ◌≡◌, ◌⊎◌, inl, inr, refl, Bool, true, false, Option, none, some, Bool-cases,
  is_nil, if◌then◌else◌,
}
use go_ai_proxy.Common.Text.{Text}
use go_ai_proxy.Common.Format.{hex}
use go_ai_proxy.Common.Int64.{lt_int}
use go_ai_proxy.Auth.OAuth as Cache
use go_ai_proxy.Auth.OAuth.{TokenData, Exchange, Env, new_token}
use go_ai_proxy.Auth.OAuth.Await.{await-kept, await_same, sent-kept}
use go_ai_proxy.Auth.OAuth.Files.{
  OauthConfig, Values, Machine, OauthError, Session, Outcome, note, browse, load_token, save_token,
}
use go_ai_proxy.Auth.OAuth.Flow.{
  saved_or_error, flow, access_of, Answer, cannot_build, no_reply, bad_json, reply, Trip,
  no_messages, callback_url, browser_command, generate_pkce, auth_params, auth_url, refresh_form,
  code_form, received, sent, exchange, await, with_code, ask_user, authorize, finish, or_authorize,
  loaded, from_token, get_token,
}

abbrev pub succeeded : {A : Type 0} → OauthError ⊎ A → Bool
succeeded (inl e) = false
succeeded (inr a) = true

abbrev pub to_option : {A : Type 0} → OauthError ⊎ A → Option A
to_option (inl e) = none
to_option (inr a) = some a

module _ {D : Type 0} (m : Machine D) (cfg : OauthConfig) where
  -- What comes of a POST to the endpoint, with whether the token that it brings is saved.
  abbrev pub exchange_of : Answer → D → Exchange
  exchange_of cannot_build d = Cache.unreachable
  exchange_of no_reply d = Cache.unreachable
  exchange_of bad_json d = Cache.unreachable
  exchange_of (reply r now) d = Cache.reply r now (save_token m cfg (new_token r now) d).1

  abbrev cache_of : {A : Type 0} → Outcome D A → Option TokenData × Bool
  cache_of (s, r) = (s.token, succeeded r)

  saved_lem :
      (t : TokenData) (s : Session D) (r : D × Bool)
      → cache_of (saved_or_error m cfg t s r) ≡ (s.token, r.1)
  saved_lem t s (d, true) = refl
  saved_lem t s (d, false) = refl

  received_lem :
      (a : Answer) (s : Session D)
      → cache_of (received m cfg a s) ≡ Cache.exchange_token s.token (exchange_of a s.disk)
  unfolding received Cache.exchange_token
  received_lem cannot_build s = refl
  received_lem no_reply s = refl
  received_lem bad_json s = refl
  received_lem (reply r now) s = elim (Bool-cases (is_nil r.error)) [
    | inl e ↦ rw e (
        saved_lem (new_token r now) (record s { token = some (new_token r now) })
          (save_token m cfg (new_token r now) s.disk))
    | inr e ↦ rw e
  ]

  exchange_lem :
      (endpoint : Values → Answer) (vals : Values) (s : Session D)
      → cache_of (exchange m cfg endpoint vals s)
        ≡ Cache.exchange_token s.token (exchange_of (endpoint vals) s.disk)
  unfolding exchange
  exchange_lem endpoint vals s =
      let a = endpoint vals in
      let kept = sent-kept m cfg a vals s in
      received_lem a (sent m cfg a vals s)
      ∙ ap (λ t. Cache.exchange_token t (exchange_of a (sent m cfg a vals s).disk)) kept.0
      ∙ ap (λ d. Cache.exchange_token s.token (exchange_of a d)) kept.1

  -- Whether the browser flow has a code, and then the exchange of the code.
  abbrev pub with_code_env : Trip → Text → Text → D → OauthError ⊎ Text → Bool × Exchange
  with_code_env trip callback verifier d (inl e) = (false, Cache.unreachable)
  with_code_env trip callback verifier d (inr code) =
      (true, exchange_of (trip.authorizing (code_form m cfg code callback verifier)) d)

  -- That of a flow: no code without a listener and random bytes, and else what comes back to the listener
  -- under the state of this call.
  abbrev pub flow_env :
      Trip → Option ℕ → Option (List ℕ) → Option (List ℕ) → Session D → Bool × Exchange
  flow_env trip none bytes random s = (false, Cache.unreachable)
  flow_env trip (some port) none random s = (false, Cache.unreachable)
  flow_env trip (some port) (some bytes) none s = (false, Cache.unreachable)
  flow_env trip (some port) (some bytes) (some random) s =
      with_code_env trip (callback_url port) (generate_pkce m cfg bytes).0 s.disk
        (await m cfg (hex random) trip.callbacks no_messages s).1

  abbrev asked : Option TokenData → Bool × Exchange → Option TokenData × Bool
  asked cache (code, x) = if code then Cache.exchange_token cache x else (cache, false)

  with_code_lem :
      (trip : Trip) (callback verifier : Text) (r : Outcome D Text)
      → cache_of (with_code m cfg trip callback verifier r)
        ≡ asked r.0.token (with_code_env trip callback verifier r.0.disk r.1)
  with_code_lem trip callback verifier (s, inl e) = refl
  with_code_lem trip callback verifier (s, inr code) =
      exchange_lem trip.authorizing (code_form m cfg code callback verifier) s

  flow_lem :
      (trip : Trip) (listener : Option ℕ) (bytes random : Option (List ℕ)) (s : Session D)
      → cache_of (flow m cfg trip listener bytes random s)
        ≡ asked s.token (flow_env trip listener bytes random s)
  unfolding flow ask_user
  flow_lem trip none bytes random s = refl
  flow_lem trip (some port) none random s = refl
  flow_lem trip (some port) (some bytes) none s = refl
  flow_lem trip (some port) (some bytes) (some random) s =
      let (verifier, challenge) = generate_pkce m cfg bytes in
      let params = auth_params m cfg (callback_url port) challenge (hex random) in
      let s' = note (browse (browser_command m.goos (auth_url m cfg params))) s in
      let met = await m cfg (hex random) trip.callbacks no_messages s' in
      let kept = await-kept m cfg (hex random) trip.callbacks no_messages s' in
      let env = with_code_env trip (callback_url port) verifier in
      with_code_lem trip (callback_url port) verifier met
      ∙ ap (λ t. asked t (env met.0.disk met.1)) kept.0
      ∙ ap (λ d. asked s.token (env d met.1)) kept.1
      ∙ ap (λ r. asked s.token (env s.disk r))
          (await_same m cfg (hex random) trip.callbacks no_messages s' s)

  access_lem : (t : Option TokenData) → to_option (access_of m cfg t) ≡ Cache.access t
  access_lem none = refl
  access_lem (some t) = refl

  abbrev seen : Outcome D Text → Option TokenData × Option Text
  seen (s, r) = (s.token, to_option r)

  finish_lem : (r : Outcome D (Unit {0})) → seen (finish m cfg r) ≡ Cache.answer (cache_of r)
  finish_lem (s, inl e) = refl
  finish_lem (s, inr u) = ap (λ x. (s.token, x)) (access_lem s.token)

  or_authorize_lem :
      (trip : Trip) (env : Env) (r : Outcome D (Unit {0}))
      → cache_of (authorize m cfg trip r.0) ≡ Cache.authorize r.0.token env
      → seen (or_authorize m cfg trip r) ≡ Cache.or_authorize env (cache_of r)
  or_authorize_lem trip env (t, inl e) h =
      finish_lem (authorize m cfg trip t) ∙ ap (λ c. Cache.answer c) h
  or_authorize_lem trip env (t, inr u) h = ap (λ x. (t.token, x)) (access_lem t.token)

  -- The session in which the browser flow begins: after a refresh if there is a refresh token.
  abbrev pub at_browser : Trip → Option TokenData → Session D → Session D
  at_browser trip none s = s
  at_browser trip (some t) s =
      if is_nil t.refresh_token
      then s
      else (exchange m cfg trip.refreshing (refresh_form m cfg t) s).0

  abbrev pub refreshed_of : Trip → Option TokenData → D → Exchange
  refreshed_of trip none d = Cache.unreachable
  refreshed_of trip (some t) d = exchange_of (trip.refreshing (refresh_form m cfg t)) d

  abbrev browser : Trip → Session D → Bool × Exchange
  browser trip s = flow_env trip trip.listener trip.verifier_bytes trip.state_bytes s

  abbrev env_with : Option TokenData → Trip → Exchange → Bool × Exchange → Env
  env_with stored trip first (code, x) = record {
    stored = stored;
    now = trip.now;
    refreshed = first;
    code = code;
    authorized = x;
  }

  -- What the specification's environment is in a run of GetToken with this token, in hand or loaded.
  abbrev env_from : Option TokenData → Trip → Option TokenData → Session D → Env
  env_from stored trip token s =
      env_with stored trip (refreshed_of trip token s.disk) (browser trip (at_browser trip token s))

  -- It is made of what the run meets: the stored token, the clock, the answer to the refresh form of the
  -- token in hand or else the stored one, and that to the code which comes back to the listener.
  abbrev pub env_of : Trip → Session D → Env
  env_of trip s =
      let token = loaded m cfg s.token s.disk in
      env_from (load_token m cfg s.disk) trip token (record s { token = token })

  authorize_lem :
      (stored : Option TokenData) (trip : Trip) (first : Exchange) (s : Session D)
      → cache_of (authorize m cfg trip s)
        ≡ Cache.authorize s.token (env_with stored trip first (browser trip s))
  unfolding Cache.authorize authorize
  authorize_lem stored trip first s =
      flow_lem trip trip.listener trip.verifier_bytes trip.state_bytes s

  from_token_lem :
      (stored : Option TokenData) (trip : Trip) (token : Option TokenData) (s : Session D)
      → s.token ≡ token
      → seen (from_token m cfg trip token s) ≡ Cache.from_cache token (env_from stored trip token s)
  unfolding from_token Cache.from_cache
  from_token_lem stored trip none s k =
      let env = env_from stored trip none s in
      finish_lem (authorize m cfg trip s)
      ∙ ap (λ c. Cache.answer c) (authorize_lem stored trip Cache.unreachable s)
      ∙ ap (λ t. Cache.answer (Cache.authorize t env)) k
  from_token_lem stored trip (some t) s k =
      let first = refreshed_of trip (some t) s.disk in
      let asking = exchange m cfg trip.refreshing (refresh_form m cfg t) s in
      elim (Bool-cases (lt_int trip.now t.expires_at)) [
        | inl live ↦ rw live (ap (λ x. (x, some t.access_token)) k)
        | inr dead ↦ elim (Bool-cases (is_nil t.refresh_token)) [
          | inl bare ↦
              rw (dead, bare)
                (finish_lem (authorize m cfg trip s)
                  ∙ ap (λ c. Cache.answer c) (authorize_lem stored trip first s)
                  ∙ ap
                      (λ x.
                        Cache.answer
                          (Cache.authorize x (env_with stored trip first (browser trip s))))
                      k)
          | inr full ↦
              let env = env_with stored trip first (browser trip asking.0) in
              rw (dead, full)
                (or_authorize_lem trip env asking (authorize_lem stored trip first asking.0)
                  ∙ ap (λ c. Cache.or_authorize env c)
                      (exchange_lem trip.refreshing (refresh_form m cfg t) s
                        ∙ ap (λ x. Cache.exchange_token x first) k))
        ]
      ]

  loaded_lem :
      (token : Option TokenData) (d : D)
      → loaded m cfg token d ≡ Cache.load token (load_token m cfg d)
  loaded_lem none d = refl
  loaded_lem (some t) d = refl

  -- GetToken, with the token file, the requests to the endpoint and the browser flow, has the result and
  -- leaves the cache of the token cache's specification, in the environment made of what GetToken meets:
  -- the stored token and the clock; the endpoint's answer to the refresh form of the token in hand, or of
  -- the stored one; whether a code comes back under the state of this call; and the endpoint's answer to
  -- that code. An answer counts with its error, and with whether its token is saved.
  pub get_token_refines :
      (trip : Trip) (s : Session D)
      → ((get_token m cfg trip s).0.token, to_option (get_token m cfg trip s).1)
        ≡ Cache.get_token s.token (env_of trip s)
  unfolding get_token Cache.get_token
  get_token_refines trip s =
      let token = loaded m cfg s.token s.disk in
      let env = env_of trip s in
      from_token_lem (load_token m cfg s.disk) trip token (record s { token = token }) refl
      ∙ ap (λ c. Cache.from_cache c env) (loaded_lem s.token s.disk)
