-- ===== src/Provider/OpenAi/Client.antt =====
-- internal/provider/openai/provider.go: construction, and the calls up to the reply. The server is a
-- function from the request that is sent to what comes back; `encode` and `decode` are the
-- translator between the domain's values and the bytes of a body.
use go_ai_proxy.Common.{
  ℕ, Bool, true, false, not, ◌&&◌, Option, none, some, List, [], ◌∷◌, ◌++◌, ◌⊎◌, inl, inr, ◌==◌,
  is_nil, if◌then◌else◌,
}
use go_ai_proxy.Common.Text.{Text, lit}
use go_ai_proxy.Domain.{Request, Response, EmbedRequest, EmbedResponse, Model, Chunk}
use go_ai_proxy.Provider.Errors.{other}
use go_ai_proxy.Provider.OpenAi.{
  Result, ok, err, ◌>>=◌, HttpReply, RoundTrip, broken, replied, or_parse_error, status_error,
  finish_call,
}
use go_ai_proxy.Provider.OpenAi.Stream.{read_lines}

-- RequestBodyMutator
abbrev pub Mutator : Type 0
Mutator = Text → Request → Result Text

-- http.Client: the default transport, or one of its own with its response-header timeout and
-- whether certificates go unchecked.
pub data HttpClient : Type 0 where
  default_transport : HttpClient
  own_transport : ℕ → Bool → HttpClient

pub record Provider : Type 0 where
  pub name : Text
  pub base_url : Text
  pub api_key : Text
  pub timeout : ℕ
  pub tls_insecure : Bool
  pub mutator : Option Mutator
  pub client : HttpClient

-- Option: what it does to the provider.
abbrev pub Setting : Type 0
Setting = Provider → Provider

abbrev pub with_name : Text → Setting
with_name name p = record p { name = name }

abbrev pub with_api_key : Text → Setting
with_api_key key p = record p { api_key = key }

abbrev pub with_timeout : ℕ → Setting
with_timeout d p = record p { timeout = d }

abbrev pub with_tls_insecure : Bool → Setting
with_tls_insecure insecure p = record p { tls_insecure = insecure }

abbrev pub with_request_body_mutator : Mutator → Setting
with_request_body_mutator fn p = record p { mutator = some fn }

-- A setting under a test.
abbrev pub option_of {ℓ} : {A : Type ℓ} → Bool → A → List A
option_of true o = o ∷ []
option_of false o = []

unfoldable pub build_http_client : ℕ → Bool → HttpClient
build_http_client timeout tls_insecure =
    if timeout == 0 && not tls_insecure
    then default_transport
    else own_transport timeout tls_insecure

-- for _, o := range opts { o(p) }
abbrev pub apply_settings {ℓ} : {A : Type ℓ} → List (A → A) → A → A
apply_settings [] p = p
apply_settings (o ∷ os) p = apply_settings os (o p)

unfoldable pub new : Text → List Setting → Provider
unfolding build_http_client
new base_url settings =
    let p = apply_settings settings (record {
      name = [];
      base_url = base_url;
      api_key = [];
      timeout = 0;
      tls_insecure = false;
      mutator = none;
      client = default_transport;
    }) in
    record p { client = build_http_client p.timeout p.tls_insecure }

-- A request as it is sent: method, URL, the Authorization header if there is one, and the body.
pub record HttpCall : Type 0 where
  pub method : Text
  pub url : Text
  pub authorization : Option Text
  pub body : Text

unfoldable pub bearer : Text → Option Text
bearer key = if is_nil key then none else some (lit "Bearer " ++ key)

unfoldable pub post : Provider → Text → Text → HttpCall
unfolding bearer
post p path body = record {
  method = lit "POST";
  url = p.base_url ++ path;
  authorization = bearer p.api_key;
  body = body;
}

abbrev pub completions_path : Text
completions_path = lit "/v1/chat/completions"

abbrev pub mutate : Option Mutator → Mutator
mutate none body req = ok body
mutate (some fn) body req = fn body req

-- The body of a chat request: translated, then mutated.
unfoldable pub chat_body : (Request → Option Text) → Provider → Request → Result Text
chat_body encode p req = do body ← or_parse_error (encode req); mutate p.mutator body req

-- The reply to a streaming request of which the headers have been read: its lines if it is a 200,
-- else the body.
pub record StreamReply : Type 0 where
  pub head : HttpReply
  pub lines : List Text

module _ (until : Text → Option ℕ) where
  module _ (encode : Request → Option Text) where
    unfoldable pub chat :
        (Text → Option Response) → Provider → (HttpCall → RoundTrip) → Request → Result Response
    unfolding chat_body post finish_call
    chat decode p http req = do
      body ← chat_body encode p req
      finish_call until decode (http (post p completions_path body))

    abbrev pub open_stream : (Text → Option Chunk) → Text ⊎ StreamReply → Result (List Chunk)
    open_stream parse (inl e) = err (other e)
    open_stream parse (inr r) = elim (status_error until r.head) [
      | some e ↦ err e
      | none ↦ ok (read_lines parse false r.lines)
    ]

    -- The chunks that the channel carries while nobody cancels.
    unfoldable pub chat_stream :
        (Text → Option Chunk)
        → Provider
        → (HttpCall → Text ⊎ StreamReply)
        → Request
        → Result (List Chunk)
    unfolding chat_body post status_error read_lines
    chat_stream parse p http req = do
      let req' = record req { stream = true }
      body ← chat_body encode p req'
      open_stream parse (http (post p completions_path body))

  unfoldable pub embeddings :
      (EmbedRequest → Option Text)
      → (Text → Option EmbedResponse)
      → Provider
      → (HttpCall → RoundTrip)
      → EmbedRequest
      → Result EmbedResponse
  unfolding post finish_call
  embeddings encode decode p http req = do
    body ← or_parse_error (encode req)
    finish_call until decode (http (post p (lit "/v1/embeddings") body))

-- The GET of a list of models: a status other than 200 is an error like any other.
abbrev pub finish_get {ℓ} : {A : Type ℓ} → (Text → Option A) → RoundTrip → Result A
finish_get decode (broken e) = err (other e)
finish_get decode (replied r) =
    if r.status == 200 then or_parse_error (decode r.body) else err (other r.body)

abbrev pub get : Text → Text → HttpCall
get url key = record { method = lit "GET"; url = url; authorization = bearer key; body = [] }

unfoldable pub models :
    (Text → Option (List Model)) → Provider → (HttpCall → RoundTrip) → Result (List Model)
models decode p http = finish_get decode (http (get (p.base_url ++ lit "/v1/models") p.api_key))
