-- ===== src/Tests/Oauth.antt =====
-- A browser flow from an empty token file: a request with a wrong state, then one with the code.
use go_ai_proxy.Common.{ℕ, ◌≡◌, ◌⊎◌, inl, inr, refl, true, Option, none, some, List, [], ◌∷◌}
use go_ai_proxy.Common.Text.{Text, lit, strip_prefix}
use go_ai_proxy.Common.Assoc.{Assoc, lookup, insert, lookup-insert}
use go_ai_proxy.Common.Eq.{nat_eq, list_eq, list_beq, list_beq_iff}
use go_ai_proxy.Common.Format.{hex}
use go_ai_proxy.Common.Int64.{lt_int}
use go_ai_proxy.Common.In.{In}
use go_ai_proxy.Auth.OAuth as Cache
use go_ai_proxy.Auth.OAuth.{TokenData, TokenReply, Env}
use go_ai_proxy.Auth.OAuth.Files.{OauthConfig, Values, Machine, Action, post, Session, expand_path}
use go_ai_proxy.Auth.OAuth.Flow.{
  Answer, no_reply, reply, Trip, visit, take_code, new_oauth, get_token, loaded, code_form,
  callback_url, on_visit,
}
use go_ai_proxy.Auth.OAuth.Refines.{to_option, env_of, get_token_refines}
use go_ai_proxy.Auth.OAuth.Restart.{Reliable, key_survives_restart}
use go_ai_proxy.Auth.OAuth.Grants.{IsRefresh, IsCodeGrant, forms_sent}

abbrev Disk : Type 0
Disk = Assoc Text Text

-- Tokens without a refresh token are written as their time and their key.
abbrev write_token : ℕ → Text → Text → Option Text
write_token at key [] = some (at ∷ key)
write_token at key (c ∷ cs) = none

abbrev read_token : Text → Option TokenData
read_token [] = none
read_token (at ∷ key) = some (record { access_token = key; refresh_token = []; expires_at = at })

abbrev machine : Machine Disk
machine = record {
  goos = lit "linux";
  home = some (lit "/home/me");
  join_path = λ a b. a;
  read_file = λ p d. lookup p d;
  make_dir = λ p d. (d, true);
  write_file = λ p t d. (insert p t d, true);
  unmarshal = read_token;
  marshal = λ t. write_token t.expires_at t.access_token t.refresh_token;
  encode = λ v. [];
  base64 = λ b. b;
  sha256 = λ t. t;
}

reads_back : (path text : Text) (d : Disk) → lookup path (insert path text d) ≡ some text
reads_back path text d =
    let same : list_beq path path ≡ true = (list_beq_iff path path).1 refl in
    rw (lookup-insert path path text d, same) refl

decodes :
    (at : ℕ) (key refresh : Text) (text : Text)
    → write_token at key refresh ≡ some text
    → read_token text
      ≡ some (record { access_token = key; refresh_token = refresh; expires_at = at })
decodes at key [] text h = rw (← text_of h) refl
  where
    text_of : some (at ∷ key) ≡ some text → at ∷ key ≡ text
    text_of e = cc e
decodes at key (c ∷ cs) text h = cc h

machine-Reliable : Reliable machine
machine-Reliable = record {
  reads_back = λ path text d h. reads_back path text d;
  decodes = λ t text h. decodes t.expires_at t.access_token t.refresh_token text h;
}

abbrev config : OauthConfig
config = record {
  auth_url = lit "https://a";
  token_url = lit "https://t";
  client_id = lit "gap";
  token_file = lit "token.json";
  scopes = lit "a" ∷ [];
}

-- The endpoint gives a key for an hour.
abbrev granted : Values → Answer
granted f =
    reply (record { access_token = lit "key"; refresh_token = []; expires_in = 3600; error = [] }) 5

abbrev trip : Trip
trip = record {
  now = 5;
  refreshing = λ f. no_reply;
  authorizing = granted;
  listener = some 8080;
  verifier_bytes = some (b'v' ∷ []);
  state_bytes = some (255 ∷ []);
  callbacks =
      visit (record { state = lit "x"; code = lit "evil" })
      ∷ visit (record { state = lit "ff"; code = lit "good" })
      ∷ take_code
      ∷ [];
}

abbrev start : Session Disk
start = new_oauth []

got_key : (get_token machine config trip start).1 ≡ inr (lit "key")
unfolding get_token hex list_beq strip_prefix expand_path lookup on_visit
got_key = refl

key_survives_restart_example :
    let end = (get_token machine config trip start).0 in
    (t : TokenData) × (end.token ≡ some t)
    × ((later : Trip) (log : List Action)
        → lt_int later.now t.expires_at ≡ true
        → get_token machine config later (record { token = none; disk = end.disk; log = log })
          ≡ (record { token = some t; disk = end.disk; log = log }, inr (lit "key")))
key_survives_restart_example =
    key_survives_restart machine config machine-Reliable trip start (lit "key") (inl refl) got_key

get_token_refines_example :
    (
      (get_token machine config trip start).0.token,
      to_option (get_token machine config trip start).1,
    )
    ≡ Cache.get_token none (env_of machine config trip start)
get_token_refines_example = get_token_refines machine config trip start

abbrev form : Values
form = code_form machine config (lit "good") (callback_url 8080) (lit "v")

form_sent : In (post (lit "https://t") form) (get_token machine config trip start).0.log
unfolding get_token hex list_beq strip_prefix expand_path lookup on_visit
form_sent = inr (inr (inr (inl refl)))

forms_sent_example :
    IsRefresh machine config trip (loaded machine config none []) (lit "https://t") form
    ⊎ IsCodeGrant machine config trip
        (lit "https://t")
        form
        (get_token machine config trip start).0.log
forms_sent_example = forms_sent machine config trip none [] (lit "https://t") form form_sent
