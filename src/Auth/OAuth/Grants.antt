-- ===== src/Auth/OAuth/Grants.antt =====
-- internal/auth/oauth.go: a form with a code is sent only for a code that came back with the state of the
-- page that the browser was shown, and with the verifier of its challenge.
use go_ai_proxy.Common.{
  ℕ, ◌≡◌, ◌⊎◌, inl, inr, refl, false, Option, none, some, List, [], ◌∷◌, Bool-cases, is_nil,
}
use go_ai_proxy.Common.Text.{Text}
use go_ai_proxy.Common.Eq.{nat_eq}
use go_ai_proxy.Common.In.{In, In-append_right, In-snoc}
use go_ai_proxy.Common.Format.{hex}
use go_ai_proxy.Common.Int64.{lt_int}
use go_ai_proxy.Auth.OAuth.{TokenData}
use go_ai_proxy.Auth.OAuth.Files.{
  OauthConfig, Values, Machine, Action, Session, Outcome, note, browse, post,
}
use go_ai_proxy.Auth.OAuth.Flow.{
  Trip, no_messages, callback_url, browser_command, generate_pkce, auth_params, auth_url,
  refresh_form, code_form, exchange, await, with_code, ask_user, flow, authorize, finish,
  or_authorize, loaded, from_token, get_token,
}
use go_ai_proxy.Auth.OAuth.Browser.{Brought, Shows, await_lem, exchange_lem}

module _ {D : Type 0} (m : Machine D) (cfg : OauthConfig) where
  -- A form with a code, and what came before it.
  pub record IsCodeGrant (trip : Trip) (u : Text) (f : Values) (log : List Action) : Type 0 where
    pub port : ℕ
    pub verifier_bytes : List ℕ
    pub state_bytes : List ℕ
    pub code : Text
    pub listening : trip.listener ≡ some port
    pub drawn : trip.verifier_bytes ≡ some verifier_bytes
    pub marked : trip.state_bytes ≡ some state_bytes
    pub to_endpoint : u ≡ cfg.token_url
    pub form : f ≡ code_form m cfg code (callback_url port) (m.base64 verifier_bytes)
    pub brought : Brought trip.callbacks (hex state_bytes) code
    pub shown :
        let challenge = m.base64 (m.sha256 (m.base64 verifier_bytes)) in
        let params = auth_params m cfg (callback_url port) challenge (hex state_bytes) in
        In (browse (browser_command m.goos (auth_url m cfg params))) log

  with_code_lem :
      (trip : Trip) (callback verifier state : Text) (old : List Action) (shown : Action)
      (r : Outcome D Text)
      → Shows old r.0.log
      → In shown r.0.log
      → ((code : Text) → r.1 ≡ inr code → Brought trip.callbacks state code)
      → let new = (with_code m cfg trip callback verifier r).0.log in
        (u : Text) (f : Values)
        → In (post u f) new
        → In (post u f) old
          ⊎ ((code : Text) × (u ≡ cfg.token_url)
              × (f ≡ code_form m cfg code callback verifier)
              × Brought trip.callbacks state code
              × In shown new)
  with_code_lem trip callback verifier state old shown (s, inl e) shows there brought u f n =
      inl (shows.0 u f n)
  with_code_lem trip callback verifier state old shown (s, inr code) shows there brought u f n =
      let vals = code_form m cfg code callback verifier in
      let (sends, on) = exchange_lem m cfg trip.authorizing vals s in
      elim (sends u f n) [
        | inl k ↦ inl (shows.0 u f k)
        | inr (a, b) ↦ inr (code, a, b, brought code refl, on shown there)
      ]

  flow_lem :
      (trip : Trip) (listener : Option ℕ) (bytes random : Option (List ℕ)) (s : Session D)
      → trip.listener ≡ listener
      → trip.verifier_bytes ≡ bytes
      → trip.state_bytes ≡ random
      → let new = (flow m cfg trip listener bytes random s).0.log in
        (u : Text) (f : Values) → In (post u f) new → In (post u f) s.log ⊎ IsCodeGrant trip u f new
  unfolding flow ask_user generate_pkce
  flow_lem trip none bytes random s a b c u f n = inl n
  flow_lem trip (some port) none random s a b c u f n = inl n
  flow_lem trip (some port) (some bytes) none s a b c u f n = inl n
  flow_lem trip (some port) (some bytes) (some random) s a b c u f n =
      let (verifier, challenge) = generate_pkce m cfg bytes in
      let params = auth_params m cfg (callback_url port) challenge (hex random) in
      let command = browse (browser_command m.goos (auth_url m cfg params)) in
      let s' = note command s in
      let met = await m cfg (hex random) trip.callbacks no_messages s' in
      let (shows, brought) = await_lem m cfg (hex random) trip.callbacks s' in
      let here : In command s'.log = In-append_right command s.log (command ∷ []) (inl refl) in
      elim (with_code_lem trip (callback_url port) verifier (hex random) s'.log command met shows
        (shows.1 command here) brought u f n) [
          | inl k ↦ elim (In-snoc (post u f) command s.log k) [
            | inl j ↦ inl j
            | inr e ↦ absurd (cc e)
          ]
          | inr (code, d, e, g, h) ↦ inr (record {
            port = port;
            verifier_bytes = bytes;
            state_bytes = random;
            code = code;
            listening = a;
            drawn = b;
            marked = c;
            to_endpoint = d;
            form = e;
            brought = g;
            shown = h;
          })
        ]

  finish-log : (r : Outcome D (Unit {0})) → (finish m cfg r).0.log ≡ r.0.log
  finish-log (s, inl e) = refl
  finish-log (s, inr u) = refl

  authorize_lem :
      (trip : Trip) (s : Session D) (u : Text) (f : Values)
      → let new = (finish m cfg (authorize m cfg trip s)).0.log in
        In (post u f) new → In (post u f) s.log ⊎ IsCodeGrant trip u f new
  unfolding authorize
  authorize_lem trip s =
      rw (finish-log (authorize m cfg trip s))
        (flow_lem trip trip.listener trip.verifier_bytes trip.state_bytes s refl refl refl)

  -- The refresh form of a token that has expired.
  pub record IsRefresh (trip : Trip) (token : Option TokenData) (u : Text) (f : Values)
      : Type 0 where
    pub expired : TokenData
    pub held : token ≡ some expired
    pub over : lt_int trip.now expired.expires_at ≡ false
    pub renewable : is_nil expired.refresh_token ≡ false
    pub to_endpoint : u ≡ cfg.token_url
    pub form : f ≡ refresh_form m cfg expired

  or_authorize_lem :
      (trip : Trip) (r : Outcome D (Unit {0})) (u : Text) (f : Values)
      → let new = (or_authorize m cfg trip r).0.log in
        In (post u f) new → In (post u f) r.0.log ⊎ IsCodeGrant trip u f new
  or_authorize_lem trip (s, inl e) u f n = authorize_lem trip s u f n
  or_authorize_lem trip (s, inr x) u f n = inl n

  -- A form that is sent when a token was refreshed first.
  renewed_lem :
      (trip : Trip) (t : TokenData) (s : Session D) (u : Text) (f : Values)
      → lt_int trip.now t.expires_at ≡ false
      → is_nil t.refresh_token ≡ false
      → let asking = exchange m cfg trip.refreshing (refresh_form m cfg t) s in
        let new = (or_authorize m cfg trip asking).0.log in
        In (post u f) new
        → In (post u f) s.log ⊎ (IsRefresh trip (some t) u f ⊎ IsCodeGrant trip u f new)
  renewed_lem trip t s u f dead full n =
      let vals = refresh_form m cfg t in
      elim (or_authorize_lem trip (exchange m cfg trip.refreshing vals s) u f n) [
        | inl k ↦ elim ((exchange_lem m cfg trip.refreshing vals s).0 u f k) [
          | inl j ↦ inl j
          | inr (a, b) ↦ inr (
              inl (record {
                expired = t;
                held = refl;
                over = dead;
                renewable = full;
                to_endpoint = a;
                form = b;
              }))
        ]
        | inr g ↦ inr (inr g)
      ]

  from_token_lem :
      (trip : Trip) (token : Option TokenData) (s : Session D) (u : Text) (f : Values)
      → let new = (from_token m cfg trip token s).0.log in
        In (post u f) new
        → In (post u f) s.log ⊎ (IsRefresh trip token u f ⊎ IsCodeGrant trip u f new)
  unfolding from_token
  from_token_lem trip none s u f =
      λ n. elim (authorize_lem trip s u f n) [ inl k ↦ inl k | inr g ↦ inr (inr g) ]
  from_token_lem trip (some t) s u f = elim (Bool-cases (lt_int trip.now t.expires_at)) [
    | inl live ↦ rw live (λ n. inl n)
    | inr dead ↦ elim (Bool-cases (is_nil t.refresh_token)) [
      | inl bare ↦
          rw (dead, bare)
            (λ n. elim (authorize_lem trip s u f n) [ inl k ↦ inl k | inr g ↦ inr (inr g) ])
      | inr full ↦ rw (dead, full) (λ n. renewed_lem trip t s u f dead full n)
    ]
  ]

  -- Every form that a call of GetToken sends goes to the token endpoint, and is the refresh form of the
  -- token that it held or found in the file, which has expired, or else carries a code that a callback
  -- request brought together with the random state of this call, the callback address that the
  -- browser was shown, and the verifier whose SHA-256 digest the browser was shown as challenge.
  pub forms_sent :
      (trip : Trip) (token : Option TokenData) (disk : D) (u : Text) (f : Values)
      → let new = (get_token m cfg trip (record { token = token; disk = disk; log = [] })).0.log in
        In (post u f) new → IsRefresh trip (loaded m cfg token disk) u f ⊎ IsCodeGrant trip u f new
  unfolding get_token
  forms_sent trip token disk u f n =
      let held = loaded m cfg token disk in
      elim (from_token_lem trip held (record { token = held; disk = disk; log = [] }) u f n) [
        | inl k ↦ absurd k
        | inr g ↦ g
      ]
