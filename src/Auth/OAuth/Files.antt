-- ===== src/Auth/OAuth/Files.antt =====
-- internal/auth/oauth.go: the configuration, the token file and what GetToken keeps and sends. The file
-- system `D`, encoding/json, the digests and the encodings are functions of a `Machine`.
use go_ai_proxy.Common.{ℕ, ◌⊎◌, Bool, true, false, Option, none, some, List, [], ◌∷◌, ◌++◌}
use go_ai_proxy.Common.Text.{Text, lit, strip_prefix}
use go_ai_proxy.Common.Assoc.{Assoc}
use go_ai_proxy.Auth.OAuth.{TokenData}

pub record OauthConfig : Type 0 where
  pub auth_url : Text
  pub token_url : Text
  pub client_id : Text
  pub token_file : Text
  pub scopes : List Text

-- url.Values with one value for each key.
abbrev pub Values : Type 0
Values = Assoc Text Text

pub record Machine (D : Type 0) : Type 0 where
  pub goos : Text
  pub home : Option Text
  pub join_path : Text → Text → Text
  pub read_file : Text → D → Option Text
  pub make_dir : Text → D → D × Bool
  pub write_file : Text → Text → D → D × Bool
  pub unmarshal : Text → Option TokenData
  pub marshal : TokenData → Option Text
  pub encode : Values → Text
  pub base64 : List ℕ → Text
  pub sha256 : Text → List ℕ

pub data OauthError : Type 0 where
  no_listener : OauthError
  no_pkce : OauthError
  no_state : OauthError
  state_mismatch : OauthError
  no_code : OauthError
  context_over : OauthError
  bad_url : OauthError
  unreachable : OauthError
  undecodable : OauthError
  token_error : Text → OauthError
  not_saved : OauthError
  nil_token : OauthError

-- What leaves the process: the command that opens the browser, a page for it, a form for the endpoint.
pub data Action : Type 0 where
  browse : List Text → Action
  page : ℕ → Text → Action
  post : Text → Values → Action

-- The authenticator's token, the file system, and the actions so far.
pub record Session (D : Type 0) : Type 0 where
  pub token : Option TokenData
  pub disk : D
  pub log : List Action

abbrev pub Outcome : Type 0 → Type 0 → Type 0
Outcome D A = Session D × (OauthError ⊎ A)

abbrev pub note : {D : Type 0} → Action → Session D → Session D
note a s = record s { log = s.log ++ a ∷ [] }

module _ {D : Type 0} (m : Machine D) (cfg : OauthConfig) where
  -- The rest of the path below the home directory, where that is known.
  abbrev under_home : Text → Option Text → Option Text → Text
  under_home p (some home) (some rest) = m.join_path home rest
  under_home p _ _ = p

  unfoldable pub expand_path : Text → Text
  expand_path p = under_home p m.home (strip_prefix (lit "~/") p)

  abbrev decoded : Option Text → Option TokenData
  decoded none = none
  decoded (some text) = m.unmarshal text

  unfoldable pub load_token : D → Option TokenData
  unfolding expand_path
  load_token d = decoded (m.read_file (expand_path cfg.token_file) d)

  abbrev pub save_text : Option Text → Text → D → D × Bool
  save_text none path d = (d, false)
  save_text (some text) path d = m.write_file path text d

  abbrev pub save_in : TokenData → Text → D × Bool → D × Bool
  save_in t path (d, false) = (d, false)
  save_in t path (d, true) = save_text (m.marshal t) path d

  -- saveToken: the file system after it, and whether the error is nil.
  unfoldable pub save_token : TokenData → D → D × Bool
  unfolding expand_path
  save_token t d = let path = expand_path cfg.token_file in save_in t path (m.make_dir path d)
