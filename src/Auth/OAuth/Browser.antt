-- ===== src/Auth/OAuth/Browser.antt =====
-- internal/auth/oauth.go: which forms GetToken sends to the endpoint, and what the browser was shown before.
use go_ai_proxy.Common.{
  ◌≡◌, ◌⊎◌, inl, inr, refl, Bool, true, false, Option, none, some, List, [], ◌∷◌, ◌++◌, Bool-cases,
  is_nil,
}
use go_ai_proxy.Common.Text.{Text, text_eq}
use go_ai_proxy.Common.Eq.{nat_eq, list_beq_iff}
use go_ai_proxy.Common.In.{In, In-append_left, In-snoc}
use go_ai_proxy.Auth.OAuth.{TokenData, new_token}
use go_ai_proxy.Auth.OAuth.Await.{await_ends, Ready, context_ended, got_code, got_error}
use go_ai_proxy.Auth.OAuth.Files.{
  OauthConfig, Values, Machine, OauthError, Action, Session, browse, post, page, save_token,
}
use go_ai_proxy.Auth.OAuth.Flow.{
  Answer, cannot_build, no_reply, bad_json, reply, Query, CallbackEvent, visit, Channels, push,
  on_visit, no_messages, received, sent, exchange, await, saved_or_error,
}

-- A callback request with the state that was asked for brought the code.
abbrev pub Brought : List CallbackEvent → Text → Text → Type 0
Brought es state code =
    (q : Query) × In (visit q) es × (q.state ≡ state) × (q.code ≡ code) × (is_nil code ≡ false)

abbrev Known : List CallbackEvent → Text → Option Text → Type 0
Known es state none = Unit {0}
Known es state (some code) = Brought es state code

push-Known :
    (es : List CallbackEvent) (state code : Text) (held : Option Text)
    → Brought es state code
    → Known es state held
    → Known es state (push code held)
push-Known es state code none b k = b
push-Known es state code (some c) b k = k

abbrev is_post : Action → Bool
is_post (post u f) = true
is_post _ = false

visit-Known :
    (es : List CallbackEvent) (state : Text) (q : Query) (ch : Channels)
    → In (visit q) es
    → Known es state ch.code_ch
    → Known es state (on_visit state q ch).0.code_ch × (is_post (on_visit state q ch).1 ≡ false)
unfolding on_visit
visit-Known es state q ch n k = elim (Bool-cases (text_eq q.state state)) [
  | inl same ↦ elim (Bool-cases (is_nil q.code)) [
    | inl bare ↦ rw (same, bare) (k, refl)
    | inr full ↦
        rw (same, full)
          (
            push-Known es state q.code ch.code_ch
                (q, n, (list_beq_iff q.state state).0 same, refl, full) k,
            refl,
          )
  ]
  | inr other ↦ rw other (k, refl)
]

Ready-code :
    (es : List CallbackEvent) (state : Text) (ch : Channels) (r : OauthError ⊎ Text) (code : Text)
    → Known es state ch.code_ch
    → Ready ch r
    → r ≡ inr code
    → Brought es state code
Ready-code es state ch r code k (context_ended e) h = absurd (cc (e, h))
Ready-code es state ch r code k (got_error x c e) h = absurd (cc (e, h))
Ready-code es state ch r code k (got_code x c e) h =
    let same : x ≡ code = cc (e, h) in
    let b : Brought es state x = rw c at k in let b' : Brought es state code = rw same at b in b'

not_post : (a : Action) (u : Text) (f : Values) → is_post a ≡ false → post u f ≡ a → ⊥
not_post (post v g) u f h e = absurd (cc h)
not_post (browse c) u f h e = absurd (cc e)
not_post (page n t) u f h e = absurd (cc e)

-- The log grows, and by no form.
abbrev pub Shows : List Action → List Action → Type 0
Shows old new =
    ((u : Text) (f : Values) → In (post u f) new → In (post u f) old)
    × ((a : Action) → In a old → In a new)

note-Shows :
    (old new : List Action) (a : Action)
    → is_post a ≡ false
    → Shows old new
    → Shows old (new ++ a ∷ [])
note-Shows old new a h (back, on) = (
  λ u f n. elim (In-snoc (post u f) a new n) [
    | inl k ↦ back u f k
    | inr e ↦ absurd (not_post a u f h e)
  ],
  λ b n. In-append_left b new (a ∷ []) (on b n),
)

module _ {D : Type 0} (m : Machine D) (cfg : OauthConfig) where
  pub await_lem :
      (state : Text) (es : List CallbackEvent) (s : Session D)
      → let met = await m cfg state es no_messages s in
        Shows s.log met.0.log × ((code : Text) → met.1 ≡ inr code → Brought es state code)
  await_lem state es s =
      let (ch, (shows, known), ready) =
        await_ends m cfg state (λ x ch. Shows s.log x.log × Known es state ch.code_ch) es
          (λ q x ch n i.
            let (k, quiet) = visit-Known es state q ch n i.1 in
            (note-Shows s.log x.log (on_visit state q ch).1 quiet i.0, k))
          no_messages s (((λ u f n. n), (λ a n. n)), tt) in
      (
        shows,
        λ code h. Ready-code es state ch (await m cfg state es no_messages s).1 code known ready h,
      )

  received-log : (a : Answer) (s : Session D) → (received m cfg a s).0.log ≡ s.log
  unfolding received
  received-log cannot_build s = refl
  received-log no_reply s = refl
  received-log bad_json s = refl
  received-log (reply r now) s = elim (Bool-cases (is_nil r.error)) [
    | inl e ↦ rw e (
        saved-log (new_token r now) (record s { token = some (new_token r now) })
          (save_token m cfg (new_token r now) s.disk))
    | inr e ↦ rw e
  ]
    where
      saved-log :
          (t : TokenData) (x : Session D) (r : D × Bool)
          → (saved_or_error m cfg t x r).0.log ≡ x.log
      saved-log t x (d, true) = refl
      saved-log t x (d, false) = refl

  -- Forms that were there before, or the one that is sent to the endpoint now.
  abbrev pub Sends : List Action → Values → List Action → Type 0
  Sends old vals new =
      (u : Text) (f : Values)
      → In (post u f) new
      → In (post u f) old ⊎ ((u ≡ cfg.token_url) × (f ≡ vals))

  snoc-Sends :
      (old : List Action) (vals : Values) → Sends old vals (old ++ post cfg.token_url vals ∷ [])
  snoc-Sends old vals u f n = elim (In-snoc (post u f) (post cfg.token_url vals) old n) [
    | inl k ↦ inl k
    | inr e ↦ inr (cc e, cc e)
  ]

  sent-Sends :
      (a : Answer) (vals : Values) (s : Session D) → Sends s.log vals (sent m cfg a vals s).log
  sent-Sends cannot_build vals s = λ u f n. inl n
  sent-Sends no_reply vals s = snoc-Sends s.log vals
  sent-Sends bad_json vals s = snoc-Sends s.log vals
  sent-Sends (reply r now) vals s = snoc-Sends s.log vals

  sent-on :
      (a : Answer) (vals : Values) (s : Session D) (b : Action)
      → In b s.log
      → In b (sent m cfg a vals s).log
  sent-on cannot_build vals s b n = n
  sent-on no_reply vals s b n = In-append_left b s.log (post cfg.token_url vals ∷ []) n
  sent-on bad_json vals s b n = In-append_left b s.log (post cfg.token_url vals ∷ []) n
  sent-on (reply r now) vals s b n = In-append_left b s.log (post cfg.token_url vals ∷ []) n

  pub exchange_lem :
      (endpoint : Values → Answer) (vals : Values) (s : Session D)
      → Sends s.log vals (exchange m cfg endpoint vals s).0.log
        × ((b : Action) → In b s.log → In b (exchange m cfg endpoint vals s).0.log)
  unfolding exchange
  exchange_lem endpoint vals s =
      let a = endpoint vals in
      rw (received-log a (sent m cfg a vals s)) (sent-Sends a vals s, sent-on a vals s)
