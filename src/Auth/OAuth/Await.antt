-- ===== src/Auth/OAuth/Await.antt =====
-- internal/auth/oauth.go: what the select of authorize can end with, and what an exchange leaves alone.
use go_ai_proxy.Common.{◌≡◌, ◌⊎◌, inl, inr, refl, Option, none, some, List, [], ◌∷◌}
use go_ai_proxy.Common.Text.{Text}
use go_ai_proxy.Common.In.{In}
use go_ai_proxy.Auth.OAuth.Files.{
  OauthConfig, Values, Machine, OauthError, context_over, Session, Outcome, note,
}
use go_ai_proxy.Auth.OAuth.Flow.{
  Answer, cannot_build, no_reply, bad_json, reply, Query, CallbackEvent, visit, take_code,
  take_error, Channels, on_visit, if_ready, await, sent,
}

-- What the select returns, from what is in the channels.
pub data Ready (ch : Channels) (r : OauthError ⊎ Text) : Type 0 where
  context_ended : r ≡ inl context_over → Ready ch r
  got_code : (code : Text) → ch.code_ch ≡ some code → r ≡ inr code → Ready ch r
  got_error : (e : OauthError) → ch.err_ch ≡ some e → r ≡ inl e → Ready ch r

module _ {D : Type 0} (m : Machine D) (cfg : OauthConfig) (state : Text)
    (I : Session D → Channels → Type 0) where
  -- What holds at the end, if it is kept by each request that comes in.
  abbrev pub Ended : Outcome D Text → Type 0
  Ended (s, r) = (ch : Channels) × I s ch × Ready ch r

  code_ready :
      (ch : Channels) (s : Session D) (c : Option Text) (later : Outcome D Text)
      → ch.code_ch ≡ c
      → I s ch
      → Ended later
      → Ended (if_ready m cfg inr c s later)
  code_ready ch s none later e i h = h
  code_ready ch s (some code) later e i h = (ch, i, got_code code e refl)

  error_ready :
      (ch : Channels) (s : Session D) (c : Option OauthError) (later : Outcome D Text)
      → ch.err_ch ≡ c
      → I s ch
      → Ended later
      → Ended (if_ready m cfg inl c s later)
  error_ready ch s none later e i h = h
  error_ready ch s (some x) later e i h = (ch, i, got_error x e refl)

  pub await_ends :
      (es : List CallbackEvent)
      → ((q : Query) (s : Session D) (ch : Channels)
          → In (visit q) es
          → I s ch
          → I (note (on_visit state q ch).1 s) (on_visit state q ch).0)
      → (ch : Channels) (s : Session D) → I s ch
      → Ended (await m cfg state es ch s)
  unfolding await
  await_ends [] keep ch s i = (ch, i, context_ended refl)
  await_ends (visit q ∷ es) keep ch s i =
      await_ends es (λ q' s' ch' n i'. keep q' s' ch' (inr n) i') (on_visit state q ch).0
        (note (on_visit state q ch).1 s) (keep q s ch (inl refl) i)
  await_ends (take_code ∷ es) keep ch s i =
      code_ready ch s ch.code_ch (await m cfg state es ch s) refl i
        (await_ends es (λ q' s' ch' n i'. keep q' s' ch' (inr n) i') ch s i)
  await_ends (take_error ∷ es) keep ch s i =
      error_ready ch s ch.err_ch (await m cfg state es ch s) refl i
        (await_ends es (λ q' s' ch' n i'. keep q' s' ch' (inr n) i') ch s i)

module _ {D : Type 0} (m : Machine D) (cfg : OauthConfig) where
  -- The select leaves the token and the file system as they are.
  pub await-kept :
      (state : Text) (es : List CallbackEvent) (ch : Channels) (s : Session D)
      → let after = (await m cfg state es ch s).0 in (after.token ≡ s.token) × (after.disk ≡ s.disk)
  await-kept state es ch s =
      (await_ends m cfg state (λ x ch'. (x.token ≡ s.token) × (x.disk ≡ s.disk)) es
        (λ q x ch' n h. h) ch s (refl, refl)).1

  pub sent-kept :
      (a : Answer) (vals : Values) (s : Session D)
      → let after = sent m cfg a vals s in (after.token ≡ s.token) × (after.disk ≡ s.disk)
  sent-kept cannot_build vals s = (refl, refl)
  sent-kept no_reply vals s = (refl, refl)
  sent-kept bad_json vals s = (refl, refl)
  sent-kept (reply r now) vals s = (refl, refl)

  ready_same :
      {A : Type 0} (f : A → OauthError ⊎ Text) (c : Option A) (s s' : Session D)
      (later later' : Outcome D Text)
      → later.1 ≡ later'.1
      → (if_ready m cfg f c s later).1 ≡ (if_ready m cfg f c s' later').1
  ready_same f none s s' later later' h = h
  ready_same f (some a) s s' later later' h = refl

  -- What the select returns does not depend on the session.
  pub await_same :
      (state : Text) (es : List CallbackEvent) (ch : Channels) (s s' : Session D)
      → (await m cfg state es ch s).1 ≡ (await m cfg state es ch s').1
  unfolding await
  await_same state [] ch s s' = refl
  await_same state (visit q ∷ es) ch s s' = await_same state es (on_visit state q ch).0 _ _
  await_same state (take_code ∷ es) ch s s' =
      ready_same inr ch.code_ch s s' _ _ (await_same state es ch s s')
  await_same state (take_error ∷ es) ch s s' =
      ready_same inl ch.err_ch s s' _ _ (await_same state es ch s s')
