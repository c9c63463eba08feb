-- ===== src/Auth/OAuth/Flow.antt =====
-- internal/auth/oauth.go: GetToken with the browser flow, the exchange with the endpoint and the file.
-- What one call meets is its `Trip`: the clock, the random bytes, the endpoint, and in order what happens
-- at the callback listener, at the end of which the context is over.
use go_ai_proxy.Common.{
  ℕ, ◌⊎◌, inl, inr, Bool, true, false, Option, none, some, List, [], ◌∷◌, ◌++◌, is_nil,
  if◌then◌else◌,
}
use go_ai_proxy.Common.Text.{Text, lit, text_eq, join}
use go_ai_proxy.Common.Format.{itoa, hex}
use go_ai_proxy.Common.Int64.{lt_int}
use go_ai_proxy.Common.Assoc.{insert}
use go_ai_proxy.Common.Eq.{nat_eq, list_eq}
use go_ai_proxy.Auth.OAuth.{TokenData, TokenReply, new_token}
use go_ai_proxy.Auth.OAuth.Files.{
  OauthConfig, Values, Machine, OauthError, no_listener, no_pkce, no_state, state_mismatch, no_code,
  context_over, bad_url, unreachable, undecodable, token_error, not_saved, nil_token, Action,
  browse, page, post, Session, Outcome, note, load_token, save_token,
}

-- What becomes of a POST to the endpoint; a reply comes with the time at which it is made a token.
pub data Answer : Type 0 where
  cannot_build : Answer
  no_reply : Answer
  bad_json : Answer
  reply : TokenReply → ℕ → Answer

-- The parameters of a callback request.
pub record Query : Type 0 where
  pub state : Text
  pub code : Text

-- A callback request, or the select of authorize taking what is in one of its channels.
pub data CallbackEvent : Type 0 where
  visit : Query → CallbackEvent
  take_code : CallbackEvent
  take_error : CallbackEvent

pub record Trip : Type 0 where
  pub now : ℕ
  pub refreshing : Values → Answer
  pub authorizing : Values → Answer
  pub listener : Option ℕ
  pub verifier_bytes : Option (List ℕ)
  pub state_bytes : Option (List ℕ)
  pub callbacks : List CallbackEvent

-- NewOAuth
abbrev pub new_oauth : {D : Type 0} → D → Session D
new_oauth d = record { token = none; disk = d; log = [] }

-- codeCh and errCh, each with a buffer of one.
pub record Channels : Type 0 where
  pub code_ch : Option Text
  pub err_ch : Option OauthError

abbrev pub no_messages : Channels
no_messages = record { code_ch = none; err_ch = none }

-- A send: with the buffer full, it waits, and the handler with it.
abbrev pub push : {A : Type 0} → A → Option A → Option A
push a none = some a
push a (some b) = some b

unfoldable pub on_visit : Text → Query → Channels → Channels × Action
on_visit state q ch =
    if text_eq q.state state
    then if is_nil q.code
      then (record ch { err_ch = push no_code ch.err_ch }, page 400 (lit "missing code"))
      else (
        record ch { code_ch = push q.code ch.code_ch },
        page 200 (lit "Authorization complete. You may close this tab."),
      )
    else (record ch { err_ch = push state_mismatch ch.err_ch }, page 400 (lit "state mismatch"))

-- openBrowser
unfoldable pub browser_command : Text → Text → List Text
browser_command goos u =
    if text_eq goos (lit "darwin")
    then lit "open" ∷ u ∷ []
    else if text_eq goos (lit "windows")
    then lit "rundll32" ∷ lit "url.dll,FileProtocolHandler" ∷ u ∷ []
    else lit "xdg-open" ∷ u ∷ []

abbrev pub callback_url : ℕ → Text
callback_url port = lit "http://127.0.0.1:" ++ (itoa port ++ lit "/callback")

module _ {D : Type 0} (m : Machine D) (cfg : OauthConfig) where
  -- generatePKCE
  unfoldable pub generate_pkce : List ℕ → Text × Text
  generate_pkce b = let verifier = m.base64 b in (verifier, m.base64 (m.sha256 verifier))

  unfoldable pub auth_params : Text → Text → Text → Values
  auth_params callback challenge state =
      let params =
        (lit "response_type", lit "code")
        ∷ (lit "client_id", cfg.client_id)
        ∷ (lit "redirect_uri", callback)
        ∷ (lit "code_challenge", challenge)
        ∷ (lit "code_challenge_method", lit "S256")
        ∷ (lit "state", state)
        ∷ [] in
      if is_nil cfg.scopes then params else insert (lit "scope") (join (lit " ") cfg.scopes) params

  abbrev pub auth_url : Values → Text
  auth_url params = cfg.auth_url ++ (lit "?" ++ m.encode params)

  unfoldable pub refresh_form : TokenData → Values
  refresh_form t =
      (lit "grant_type", lit "refresh_token")
      ∷ (lit "refresh_token", t.refresh_token)
      ∷ (lit "client_id", cfg.client_id)
      ∷ []

  unfoldable pub code_form : Text → Text → Text → Values
  code_form code callback verifier =
      (lit "grant_type", lit "authorization_code")
      ∷ (lit "code", code)
      ∷ (lit "redirect_uri", callback)
      ∷ (lit "client_id", cfg.client_id)
      ∷ (lit "code_verifier", verifier)
      ∷ []

  abbrev pub saved_or_error : TokenData → Session D → D × Bool → Outcome D (Unit {0})
  saved_or_error t s (d, true) = (record s { disk = d }, inr tt)
  saved_or_error t s (d, false) = (record s { disk = d }, inl not_saved)

  -- exchangeToken, once the endpoint has been asked.
  unfoldable pub received : Answer → Session D → Outcome D (Unit {0})
  unfolding save_token
  received cannot_build s = (s, inl bad_url)
  received no_reply s = (s, inl unreachable)
  received bad_json s = (s, inl undecodable)
  received (reply r now) s =
      if is_nil r.error
      then (let t = new_token r now in
          saved_or_error t (record s { token = some t }) (save_token m cfg t s.disk))
      else (s, inl (token_error r.error))

  abbrev pub sent : Answer → Values → Session D → Session D
  sent cannot_build vals s = s
  sent _ vals s = note (post cfg.token_url vals) s

  unfoldable pub exchange : (Values → Answer) → Values → Session D → Outcome D (Unit {0})
  unfolding received
  exchange endpoint vals s = received (endpoint vals) (sent (endpoint vals) vals s)

  -- A case of the select, which is ready if there is a message.
  abbrev pub if_ready :
      {A : Type 0}
      → (A → OauthError ⊎ Text)
      → Option A
      → Session D
      → Outcome D Text
      → Outcome D Text
  if_ready f none s later = later
  if_ready f (some a) s later = (s, f a)

  -- The select of authorize, with the handler of the callback server beside it.
  unfoldable pub await : Text → List CallbackEvent → Channels → Session D → Outcome D Text
  unfolding on_visit
  await state [] ch s = (s, inl context_over)
  await state (visit q ∷ es) ch s =
      let (ch', shown) = on_visit state q ch in await state es ch' (note shown s)
  await state (take_code ∷ es) ch s = if_ready inr ch.code_ch s (await state es ch s)
  await state (take_error ∷ es) ch s = if_ready inl ch.err_ch s (await state es ch s)

  abbrev pub with_code : Trip → Text → Text → Outcome D Text → Outcome D (Unit {0})
  with_code trip callback verifier (s, inl e) = (s, inl e)
  with_code trip callback verifier (s, inr code) =
      exchange trip.authorizing (code_form code callback verifier) s

  unfoldable pub ask_user : Trip → Text → Text × Text → Text → Session D → Outcome D (Unit {0})
  unfolding await exchange browser_command auth_params code_form
  ask_user trip callback (verifier, challenge) state s =
      let command = browser_command m.goos (auth_url (auth_params callback challenge state)) in
      with_code trip callback verifier
        (await state trip.callbacks no_messages (note (browse command) s))

  -- authorize, from the listener, the random bytes of the verifier and those of the state.
  unfoldable pub flow :
      Trip → Option ℕ → Option (List ℕ) → Option (List ℕ) → Session D → Outcome D (Unit {0})
  unfolding ask_user generate_pkce
  flow trip none b random s = (s, inl no_listener)
  flow trip (some port) none random s = (s, inl no_pkce)
  flow trip (some port) (some b) none s = (s, inl no_state)
  flow trip (some port) (some b) (some random) s =
      ask_user trip (callback_url port) (generate_pkce b) (hex random) s

  unfoldable pub authorize : Trip → Session D → Outcome D (Unit {0})
  unfolding flow
  authorize trip s = flow trip trip.listener trip.verifier_bytes trip.state_bytes s

  -- The access token of what is kept; Go would panic on a nil token.
  abbrev pub access_of : Option TokenData → OauthError ⊎ Text
  access_of none = inl nil_token
  access_of (some t) = inr t.access_token

  abbrev pub finish : Outcome D (Unit {0}) → Outcome D Text
  finish (s, inl e) = (s, inl e)
  finish (s, inr _) = (s, access_of s.token)

  abbrev pub or_authorize : Trip → Outcome D (Unit {0}) → Outcome D Text
  or_authorize trip (s, inl e) = finish (authorize trip s)
  or_authorize trip (s, inr _) = (s, access_of s.token)

  -- The token that is kept, or that of the file.
  abbrev pub loaded : Option TokenData → D → Option TokenData
  loaded (some t) d = some t
  loaded none d = load_token m cfg d

  unfoldable pub from_token : Trip → Option TokenData → Session D → Outcome D Text
  unfolding authorize exchange refresh_form
  from_token trip none s = finish (authorize trip s)
  from_token trip (some t) s =
      if lt_int trip.now t.expires_at
      then (s, inr t.access_token)
      else if is_nil t.refresh_token
      then finish (authorize trip s)
      else or_authorize trip (exchange trip.refreshing (refresh_form t) s)

  unfoldable pub get_token : Trip → Session D → Outcome D Text
  unfolding from_token load_token
  get_token trip s =
      let token = loaded s.token s.disk in from_token trip token (record s { token = token })
