-- ===== src/Auth/OAuth/Restart.antt =====
-- internal/auth/oauth.go: what GetToken leaves in the token file serves the next process.
use go_ai_proxy.Common.{
  ap, sym, ◌∙◌, ℕ, ◌≡◌, ◌⊎◌, inl, inr, refl, Bool, true, false, Option, none, some, List,
  Bool-cases, is_nil,
}
use go_ai_proxy.Common.Text.{Text}
use go_ai_proxy.Common.Format.{hex}
use go_ai_proxy.Common.Int64.{lt_int}
use go_ai_proxy.Auth.OAuth.{TokenData, new_token}
use go_ai_proxy.Auth.OAuth.Files.{
  OauthConfig, Values, Machine, Action, Session, Outcome, note, browse, expand_path, load_token,
  save_token, save_in, save_text,
}
use go_ai_proxy.Auth.OAuth.Flow.{
  Answer, cannot_build, no_reply, bad_json, reply, Trip, no_messages, callback_url, browser_command,
  generate_pkce, auth_params, auth_url, refresh_form, code_form, received, sent, exchange, await,
  with_code, ask_user, flow, authorize, finish, or_authorize, loaded, from_token, get_token,
  saved_or_error, access_of,
}

-- What is relied on of os.WriteFile with os.ReadFile, and of encoding/json.
pub record Reliable {D : Type 0} (m : Machine D) : Type 0 where
  pub reads_back :
      (path text : Text) (d : D)
      → (m.write_file path text d).1 ≡ true
      → m.read_file path (m.write_file path text d).0 ≡ some text
  pub decodes : (t : TokenData) (text : Text) → m.marshal t ≡ some text → m.unmarshal text ≡ some t

module _ {D : Type 0} (m : Machine D) (cfg : OauthConfig) (reliable : Reliable m) where
  save_text_lem :
      (t : TokenData) (text : Option Text) (d : D)
      → m.marshal t ≡ text
      → let after = save_text m cfg text (expand_path m cfg cfg.token_file) d in
        after.1 ≡ true → load_token m cfg after.0 ≡ some t
  unfolding load_token
  save_text_lem t none d e h = cc h
  save_text_lem t (some text) d e h =
      rw (reliable.reads_back (expand_path m cfg cfg.token_file) text d h)
        (reliable.decodes t text e)

  save_in_lem :
      (t : TokenData) (r : D × Bool)
      → let after = save_in m cfg t (expand_path m cfg cfg.token_file) r in
        after.1 ≡ true → load_token m cfg after.0 ≡ some t
  save_in_lem t (d, false) h = cc h
  save_in_lem t (d, true) h = save_text_lem t (m.marshal t) d refl h

  save_token_lem :
      (t : TokenData) (d : D)
      → (save_token m cfg t d).1 ≡ true
      → load_token m cfg (save_token m cfg t d).0 ≡ some t
  unfolding save_token
  save_token_lem t d h = save_in_lem t (m.make_dir (expand_path m cfg cfg.token_file) d) h

  -- The token that is kept is the one in the file.
  abbrev IsStored : Session D → Type 0
  IsStored s = (t : TokenData) × (s.token ≡ some t) × (load_token m cfg s.disk ≡ some t)

  abbrev Stores : {A : Type 0} → Outcome D A → Type 0
  Stores {A} r = (a : A) → r.1 ≡ inr a → IsStored r.0

  saved-Stores :
      (t : TokenData) (s : Session D) (r : D × Bool)
      → s.token ≡ some t
      → (r.1 ≡ true → load_token m cfg r.0 ≡ some t)
      → Stores (saved_or_error m cfg t s r)
  saved-Stores t s (d, true) e h = λ a q. (t, e, h refl)
  saved-Stores t s (d, false) e h = λ a q. cc q

  received-Stores : (a : Answer) (s : Session D) → Stores (received m cfg a s)
  unfolding received
  received-Stores cannot_build s = λ u q. cc q
  received-Stores no_reply s = λ u q. cc q
  received-Stores bad_json s = λ u q. cc q
  received-Stores (reply r now) s = elim (Bool-cases (is_nil r.error)) [
    | inl e ↦
        let t = new_token r now in
        let s' = record s { token = some t } in
        rw e (saved-Stores t s' (save_token m cfg t s.disk) refl (save_token_lem t s.disk))
    | inr e ↦ rw e (λ u q. cc q)
  ]

  exchange-Stores :
      (endpoint : Values → Answer) (vals : Values) (s : Session D)
      → Stores (exchange m cfg endpoint vals s)
  unfolding exchange
  exchange-Stores endpoint vals s =
      received-Stores (endpoint vals) (sent m cfg (endpoint vals) vals s)

  with_code-Stores :
      (trip : Trip) (callback verifier : Text) (r : Outcome D Text)
      → Stores (with_code m cfg trip callback verifier r)
  with_code-Stores trip callback verifier (s, inl e) = λ u q. cc q
  with_code-Stores trip callback verifier (s, inr code) =
      exchange-Stores trip.authorizing (code_form m cfg code callback verifier) s

  flow-Stores :
      (trip : Trip) (listener : Option ℕ) (bytes random : Option (List ℕ)) (s : Session D)
      → Stores (flow m cfg trip listener bytes random s)
  unfolding flow ask_user
  flow-Stores trip none bytes random s = λ u q. cc q
  flow-Stores trip (some port) none random s = λ u q. cc q
  flow-Stores trip (some port) (some bytes) none s = λ u q. cc q
  flow-Stores trip (some port) (some bytes) (some random) s =
      let (verifier, challenge) = generate_pkce m cfg bytes in
      let params = auth_params m cfg (callback_url port) challenge (hex random) in
      let s' = note (browse (browser_command m.goos (auth_url m cfg params))) s in
      with_code-Stores trip (callback_url port) verifier
        (await m cfg (hex random) trip.callbacks no_messages s')

  authorize-Stores : (trip : Trip) (s : Session D) → Stores (authorize m cfg trip s)
  unfolding authorize
  authorize-Stores trip s = flow-Stores trip trip.listener trip.verifier_bytes trip.state_bytes s

  -- The session keeps a token that is in the file, and the answer is its access token.
  abbrev Answers : Outcome D Text → Type 0
  Answers r =
      (key : Text)
      → r.1 ≡ inr key
      → (t : TokenData) × (r.0.token ≡ some t)
        × (t.access_token ≡ key)
        × (load_token m cfg r.0.disk ≡ some t)

  access-Answers :
      (s : Session D) (token : Option TokenData)
      → s.token ≡ token
      → IsStored s
      → Answers (s, access_of m cfg token)
  access-Answers s none e (t, h, k) = λ key q. cc q
  access-Answers s (some u) e (t, h, k) = λ key q. (t, h, cc (e, h, q), k)

  finish-Answers : (r : Outcome D (Unit {0})) → Stores r → Answers (finish m cfg r)
  finish-Answers (s, inl e) h = λ key q. cc q
  finish-Answers (s, inr u) h = access-Answers s s.token refl (h u refl)

  or_authorize-Answers :
      (trip : Trip) (r : Outcome D (Unit {0})) → Stores r → Answers (or_authorize m cfg trip r)
  or_authorize-Answers trip (s, inl e) h =
      finish-Answers (authorize m cfg trip s) (authorize-Stores trip s)
  or_authorize-Answers trip (s, inr u) h = access-Answers s s.token refl (h u refl)

  from_token-Answers :
      (trip : Trip) (token : Option TokenData) (s : Session D)
      → s.token ≡ token
      → ((t : TokenData) → token ≡ some t → load_token m cfg s.disk ≡ some t)
      → Answers (from_token m cfg trip token s)
  unfolding from_token
  from_token-Answers trip none s e h =
      finish-Answers (authorize m cfg trip s) (authorize-Stores trip s)
  from_token-Answers trip (some t) s e h = elim (Bool-cases (lt_int trip.now t.expires_at)) [
    | inl live ↦ rw live (λ key q. (t, e, cc q, h t refl))
    | inr dead ↦ elim (Bool-cases (is_nil t.refresh_token)) [
      | inl bare ↦
          rw (dead, bare) (finish-Answers (authorize m cfg trip s) (authorize-Stores trip s))
      | inr full ↦
          rw (dead, full)
            (or_authorize-Answers trip (exchange m cfg trip.refreshing (refresh_form m cfg t) s)
              (exchange-Stores trip.refreshing (refresh_form m cfg t) s))
    ]
  ]

  loaded-stored :
      (token : Option TokenData) (d : D)
      → (token ≡ none) ⊎ (load_token m cfg d ≡ token)
      → loaded m cfg token d ≡ load_token m cfg d
  loaded-stored none d h = refl
  loaded-stored (some t) d (inl e) = cc e
  loaded-stored (some t) d (inr e) = sym e

  next_call :
      (trip : Trip) (d : D) (log : List Action) (t : TokenData)
      → load_token m cfg d ≡ some t
      → lt_int trip.now t.expires_at ≡ true
      → get_token m cfg trip (record { token = none; disk = d; log = log })
        ≡ (record { token = some t; disk = d; log = log }, inr t.access_token)
  unfolding get_token from_token
  next_call trip d log t e live = rw (e, live)

  -- Where files read back as they were written and tokens decode as they were encoded: when GetToken
  -- returns a key, from an authenticator that keeps nothing or what the token file has, a new
  -- authenticator over the token file that it leaves returns the same key until the token expires, and
  -- neither opens a browser nor sends a request.
  pub key_survives_restart :
      (trip : Trip) (s : Session D) (key : Text)
      → (s.token ≡ none) ⊎ (load_token m cfg s.disk ≡ s.token)
      → (get_token m cfg trip s).1 ≡ inr key
      → (t : TokenData) × ((get_token m cfg trip s).0.token ≡ some t)
        × ((later : Trip) (log : List Action)
            → lt_int later.now t.expires_at ≡ true
            → let disk = (get_token m cfg trip s).0.disk in
              get_token m cfg later (record { token = none; disk = disk; log = log })
              ≡ (record { token = some t; disk = disk; log = log }, inr key))
  unfolding get_token
  key_survives_restart trip s key h q =
      let token = loaded m cfg s.token s.disk in
      let start = record s { token = token } in
      let (t, kept, same, stored) =
        from_token-Answers trip token start refl (λ t e. sym (loaded-stored s.token s.disk h) ∙ e)
          key q in
      let disk = (from_token m cfg trip token start).0.disk in
      (
        t,
        kept,
        λ later log live.
            next_call later disk log t stored live
            ∙ ap (λ k. (record { token = some t; disk = disk; log = log }, inr k)) same,
      )
