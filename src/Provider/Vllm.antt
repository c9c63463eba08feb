-- ===== src/Provider/Vllm.antt =====
-- internal/provider/vllm: construction with the strict check of capabilities, the lists of models, and
-- the mutation of chat bodies.
pub mod Inject
pub mod Laws
use mathlib.Core.List.{map}
use go_ai_proxy.Common.{
  ℕ, ◌<◌, ◌≡◌, ◌≢◌, refl, Bool, true, false, not, ◌&&◌, ◌||◌, Option, none, some, List, [], ◌∷◌,
  ◌++◌, arith, is_nil, keep, all, or_default, if◌then◌else◌, leb, ltb, ap, ◌∙◌, Bool-cases, inl,
  inr, ◌⊎◌,
}
use go_ai_proxy.Common.Text.{Text, lit, text_eq, trim_space, lower}
use go_ai_proxy.Common.Assoc.{Assoc, lookup}
use go_ai_proxy.Common.Eq.{nat_eq, list_eq}
use go_ai_proxy.Common.Int64.{is_positive}
use go_ai_proxy.Common.Json.{JsonCodec}
use go_ai_proxy.Domain.{Model, Request, Response, EmbedRequest, EmbedResponse, Chunk}
use go_ai_proxy.Provider.Errors.{other}
use go_ai_proxy.Provider.OpenAi.{Result, ok, err, ◌>>=◌, >>=-eq-ok, Result-cases, RoundTrip}
use go_ai_proxy.Provider.OpenAi.Client as Client
use go_ai_proxy.Provider.OpenAi.Client.{
  Setting, with_name, with_api_key, with_timeout, with_tls_insecure, with_request_body_mutator,
  option_of, HttpCall, StreamReply,
}
use go_ai_proxy.Provider.Vllm.Inject.{inject_chat_template_kwargs}

pub record Config : Type 0 where
  pub name : Text
  pub base_url : Text
  pub api_key : Text
  pub timeout : ℕ
  pub tls_insecure : Bool
  pub thinking_key : Text
  pub models : List Text
  pub discover : Bool
  pub model_capabilities : Assoc Text (List Text)

pub record Vllm : Type 0 where
  pub cfg : Config
  pub inner : Client.Provider
  pub primed : Bool

-- `domain.Model{ID: id}`
abbrev pub bare_model : Text → Model
bare_model id = record {
  id = id;
  owned_by = [];
  capabilities = [];
  input_cost_per_token = none;
  output_cost_per_token = none;
  max_model_len = 0;
}

-- cfg.ModelCapabilities[id], nil for a missing entry.
abbrev pub caps_of : Config → Text → List Text
caps_of cfg id = or_default (lookup id cfg.model_capabilities) []

abbrev pub declared : Config → Model → Bool
declared cfg m = not (is_nil (caps_of cfg m.id))

abbrev pub attach : Config → Model → Model
attach cfg m = record m { capabilities = caps_of cfg m.id; owned_by = lit "vllm" }

abbrev prepend_model : Model → Result (List Model) → Result (List Model)
prepend_model m (ok ms) = ok (m ∷ ms)
prepend_model m (err e) = err e

-- The loop of Models over the discovered models.
unfoldable pub validate : Config → Bool → List Model → Result (List Model)
validate cfg primed [] = ok []
validate cfg primed (m ∷ ms) =
    let rest = validate cfg primed ms in
    if declared cfg m
    then prepend_model (attach cfg m) rest
    else if primed
    then rest
    else err (other m.id)

abbrev has_models : Result (List Model) → Bool
has_models (ok ms) = not (is_nil ms)
has_models (err e) = false

abbrev non_empty : List Model → Result (List Model)
non_empty [] = err (other (lit "no models discovered and none configured"))
non_empty (m ∷ ms) = ok (m ∷ ms)

-- The configured models take the place of a discovery that failed or found nothing.
unfoldable pub with_fallback : Config → Result (List Model) → Result (List Model)
with_fallback cfg discovered =
    if not (has_models discovered) && not (is_nil cfg.models)
    then ok (map bare_model cfg.models)
    else (do ms ← discovered; non_empty ms)

-- `decode` is ModelsFromOpenAI on a body.
module _ (decode : Text → Option (List Model)) (http : HttpCall → RoundTrip) where
  unfoldable pub discover_models : Config → Client.Provider → Result (List Model)
  discover_models cfg inner =
      if cfg.discover then Client.models decode inner http else ok (map bare_model cfg.models)

  unfoldable pub models : Vllm → Result (List Model)
  unfolding discover_models with_fallback validate
  models p = do ms ← with_fallback p.cfg (discover_models p.cfg p.inner); validate p.cfg p.primed ms

-- strings.ToLower(strings.TrimSpace(*effort)) other than "", "none" and "minimal".
unfoldable pub thinking_enabled : Text → Bool
unfolding trim_space
thinking_enabled effort =
    let e = map lower (trim_space effort) in
    not (is_nil e) && not (text_eq e (lit "none")) && not (text_eq e (lit "minimal"))

unfoldable pub mutator : JsonCodec → Config → Client.Mutator
unfolding thinking_enabled inject_chat_template_kwargs
mutator json cfg body req = elim (req.reasoning_effort) [
  | none ↦ ok body
  | some effort ↦ inject_chat_template_kwargs json body cfg.thinking_key (thinking_enabled effort)
]

abbrev pub inner_settings : JsonCodec → Config → List Setting
inner_settings json cfg =
    with_name cfg.name
    ∷ (option_of (not (is_nil cfg.api_key)) (with_api_key cfg.api_key)
        ++ (option_of (is_positive cfg.timeout) (with_timeout cfg.timeout)
            ++ (option_of cfg.tls_insecure (with_tls_insecure true)
                ++ (with_request_body_mutator (mutator json cfg) ∷ []))))

abbrev pub default_thinking_key : Text
default_thinking_key = lit "enable_thinking"

abbrev pub with_default_key : Config → Config
with_default_key cfg =
    if is_nil cfg.thinking_key then record cfg { thinking_key = default_thinking_key } else cfg

unfoldable pub unprimed : JsonCodec → Config → Vllm
unfolding mutator
unprimed json cfg = record {
  cfg = cfg;
  inner = Client.new cfg.base_url (inner_settings json cfg);
  primed = false;
}

module _ (json : JsonCodec) (decode : Text → Option (List Model))
    (http : HttpCall → RoundTrip) where
  unfoldable pub new : Config → Result Vllm
  unfolding models unprimed
  new cfg =
      let p = unprimed json (with_default_key cfg) in
      if is_nil cfg.base_url
      then err (other (lit "base_url is required"))
      else if not cfg.discover && is_nil cfg.models
      then err (other (lit "discover disabled and no models configured"))
      else (do ms ← models decode http p; ok (record p { primed = true }))

-- Name.
unfoldable pub name_of : Vllm → Text
name_of p = p.cfg.name

-- Chat, ChatStream and Embeddings go to the inner provider.
module _ (until : Text → Option ℕ) where
  unfoldable pub chat :
      (Request → Option Text)
      → (Text → Option Response)
      → Vllm
      → (HttpCall → RoundTrip)
      → Request
      → Result Response
  unfolding Client.chat
  chat encode decode p http req = Client.chat until encode decode p.inner http req

  unfoldable pub chat_stream :
      (Request → Option Text)
      → (Text → Option Chunk)
      → Vllm
      → (HttpCall → Text ⊎ StreamReply)
      → Request
      → Result (List Chunk)
  unfolding Client.chat_stream
  chat_stream encode parse p http req = Client.chat_stream until encode parse p.inner http req

  unfoldable pub embeddings :
      (EmbedRequest → Option Text)
      → (Text → Option EmbedResponse)
      → Vllm
      → (HttpCall → RoundTrip)
      → EmbedRequest
      → Result EmbedResponse
  unfolding Client.embeddings
  embeddings encode decode p http req = Client.embeddings until encode decode p.inner http req
