-- ===== src/Provider/LmStudio.antt =====
-- internal/provider/lmstudio/provider.go: the list of models from the native endpoint, which the
-- OpenAI-compatible one stands in for. `unmarshal` is encoding/json into lmStudioModelsResponse.
use mathlib.Core.List.{map}
use go_ai_proxy.Common.{
  ℕ, ◌≡◌, refl, Bool, true, false, not, ◌&&◌, ◌||◌, Option, none, some, List, [], ◌∷◌, ◌++◌, arith,
  ◌==◌, keep, if◌then◌else◌, is_some, ap, ◌⊎◌,
}
use go_ai_proxy.Common.Text.{Text, lit, text_eq}
use go_ai_proxy.Common.Int64.{is_positive}
use go_ai_proxy.Domain.{Model, Request, Response, EmbedRequest, EmbedResponse, Chunk}
use go_ai_proxy.Provider.OpenAi.{Result, ok, err, RoundTrip}
use go_ai_proxy.Provider.OpenAi.Client as Client
use go_ai_proxy.Provider.OpenAi.Client.{
  HttpClient, default_transport, own_transport, build_http_client, Setting, with_name, with_timeout,
  with_tls_insecure, option_of, apply_settings, HttpCall, get, finish_get, StreamReply,
}

-- lmStudioCapabilities; of its `reasoning` only the allowed options.
pub record LmCapabilities : Type 0 where
  pub vision : Bool
  pub trained_for_tool_use : Bool
  pub reasoning : Option (List Text)

pub record LmModel : Type 0 where
  pub kind : Text
  pub key : Text
  pub capabilities : Option LmCapabilities

pub record LmStudio : Type 0 where
  pub inner : Client.Provider
  pub name : Text
  pub base_url : Text
  pub timeout : ℕ
  pub tls_insecure : Bool
  pub client : HttpClient

abbrev pub set_name : Text → LmStudio → LmStudio
set_name name p = record p { name = name }

abbrev pub set_timeout : ℕ → LmStudio → LmStudio
set_timeout d p = record p { timeout = d }

abbrev pub set_tls_insecure : Bool → LmStudio → LmStudio
set_tls_insecure insecure p = record p { tls_insecure = insecure }

abbrev pub lm_settings : LmStudio → List Setting
lm_settings p =
    with_name p.name
    ∷ (option_of (is_positive p.timeout) (with_timeout p.timeout)
        ++ option_of p.tls_insecure (with_tls_insecure true))

abbrev pub start : Text → LmStudio
start base_url = record {
  inner = Client.new [] [];
  name = [];
  base_url = base_url;
  timeout = 0;
  tls_insecure = false;
  client = default_transport;
}

unfoldable pub new : Text → List (LmStudio → LmStudio) → LmStudio
new base_url settings =
    let p = apply_settings settings (start base_url) in
    record p {
      inner = Client.new base_url (lm_settings p);
      client =
          if p.timeout == 0 && not p.tls_insecure
          then default_transport
          else own_transport p.timeout p.tls_insecure;
    }

abbrev pub flag : Bool → Text → List Text
flag true name = name ∷ []
flag false name = []

unfoldable pub map_capabilities : Option LmCapabilities → List Text
map_capabilities none = []
map_capabilities (some caps) =
    flag caps.vision (lit "vision")
    ++ (flag caps.trained_for_tool_use (lit "tools")
        ++ flag (is_some caps.reasoning) (lit "reasoning"))

abbrev lm_model : Text → List Text → Model
lm_model key caps = record {
  id = key;
  owned_by = lit "lmstudio";
  capabilities = caps;
  input_cost_per_token = none;
  output_cost_per_token = none;
  max_model_len = 0;
}

-- The loop over the native models, with its switch on their types.
unfoldable pub from_native : List LmModel → List Model
unfolding map_capabilities
from_native [] = []
from_native (m ∷ ms) =
    let rest = from_native ms in
    if text_eq m.kind (lit "llm")
    then lm_model m.key (map_capabilities m.capabilities) ∷ rest
    else if text_eq m.kind (lit "embedding")
    then lm_model m.key (lit "embeddings" ∷ []) ∷ rest
    else rest

abbrev pub native_list : Result (List LmModel) → Result (List Model)
native_list (ok ms) = ok (from_native ms)
native_list (err e) = err e

module _ (unmarshal : Text → Option (List LmModel)) (decode : Text → Option (List Model))
    (http : HttpCall → RoundTrip) where
  unfoldable pub fetch_native_models : LmStudio → Result (List Model)
  unfolding from_native
  fetch_native_models p =
      native_list (finish_get unmarshal (http (get (p.base_url ++ lit "/api/v1/models") [])))

  abbrev or_inner : LmStudio → Result (List Model) → Result (List Model)
  or_inner p (ok ms) = ok ms
  or_inner p (err e) = Client.models decode p.inner http

  unfoldable pub models : LmStudio → Result (List Model)
  unfolding fetch_native_models
  models p = or_inner p (fetch_native_models p)

abbrev is_known : LmModel → Bool
is_known m = text_eq m.kind (lit "llm") || text_eq m.kind (lit "embedding")

from_native-ids :
    (ms : List LmModel) → map (λ m. m.id) (from_native ms) ≡ map (λ m. m.key) (keep is_known ms)
unfolding from_native
from_native-ids [] = refl
from_native-ids (m ∷ ms) = ground (arith, from_native-ids ms)

-- A native listing gives its language and embedding models and no others, in their order, whatever the
-- OpenAI-compatible endpoint would say.
pub models_lem :
    (unmarshal : Text → Option (List LmModel)) (decode : Text → Option (List Model))
    (http : HttpCall → RoundTrip) (p : LmStudio) (ms : List LmModel)
    → finish_get unmarshal (http (get (p.base_url ++ lit "/api/v1/models") [])) ≡ ok ms
    → (xs : List Model) × (models unmarshal decode http p ≡ ok xs)
      × (map (λ x. x.id) xs ≡ map (λ m. m.key) (keep is_known ms))
unfolding models fetch_native_models
models_lem unmarshal decode http p ms h = (
  from_native ms,
  ap (λ r. or_inner unmarshal decode http p (native_list r)) h,
  from_native-ids ms,
)

-- Name.
unfoldable pub name_of : LmStudio → Text
name_of p = p.name

-- Chat, ChatStream and Embeddings go to the inner provider.
module _ (until : Text → Option ℕ) where
  unfoldable pub chat :
      (Request → Option Text)
      → (Text → Option Response)
      → LmStudio
      → (HttpCall → RoundTrip)
      → Request
      → Result Response
  unfolding Client.chat
  chat encode decode p http req = Client.chat until encode decode p.inner http req

  unfoldable pub chat_stream :
      (Request → Option Text)
      → (Text → Option Chunk)
      → LmStudio
      → (HttpCall → Text ⊎ StreamReply)
      → Request
      → Result (List Chunk)
  unfolding Client.chat_stream
  chat_stream encode parse p http req = Client.chat_stream until encode parse p.inner http req

  unfoldable pub embeddings :
      (EmbedRequest → Option Text)
      → (Text → Option EmbedResponse)
      → LmStudio
      → (HttpCall → RoundTrip)
      → EmbedRequest
      → Result EmbedResponse
  unfolding Client.embeddings
  embeddings encode decode p http req = Client.embeddings until encode decode p.inner http req
