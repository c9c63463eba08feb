-- ===== src/Provider/LiteLlm.antt =====
-- internal/provider/litellm/provider.go: the list of models, enriched by /model/info. `unmarshal` is
-- encoding/json into litellmModelInfo.
use mathlib.Core.List.{map}
use go_ai_proxy.Common.{
  ℕ, ◌≡◌, refl, Bool, true, false, not, ◌&&◌, ◌||◌, Option, none, some, List, [], ◌∷◌, ◌++◌, ◌==◌,
  is_nil, if◌then◌else◌, ap, ◌∙◌, ◌⊎◌,
}
use go_ai_proxy.Common.Text.{Text, lit}
use go_ai_proxy.Common.Assoc.{Assoc, lookup, insert, lookup-insert}
use go_ai_proxy.Common.Eq.{nat_eq, list_eq, ◌==◌ as same}
use go_ai_proxy.Common.Int64.{is_positive}
use go_ai_proxy.Domain.{Model, Float, Request, Response, EmbedRequest, EmbedResponse, Chunk}
use go_ai_proxy.Provider.OpenAi.{Result, ok, err, ◌>>=◌, RoundTrip}
use go_ai_proxy.Provider.OpenAi.Client as Client
use go_ai_proxy.Provider.OpenAi.Client.{
  HttpClient, default_transport, own_transport, Setting, with_name, with_api_key, with_timeout,
  with_tls_insecure, option_of, apply_settings, HttpCall, get, finish_get, StreamReply,
}

pub record ModelInfo : Type 0 where
  pub supports_vision : Bool
  pub supports_reasoning : Bool
  pub supports_function_calling : Bool
  pub supports_tool_choice : Bool
  pub supports_pdf_input : Bool
  pub supports_response_schema : Bool
  pub supports_web_search : Bool
  pub supports_audio_input : Bool
  pub supports_audio_output : Bool
  pub supports_computer_use : Bool
  pub supports_prompt_caching : Bool
  pub supports_url_context : Bool
  pub input_cost_per_token : Option Float
  pub output_cost_per_token : Option Float

-- An entry of `data`.
pub record InfoEntry : Type 0 where
  pub model_name : Text
  pub model_info : ModelInfo

pub record ModelMeta : Type 0 where
  pub capabilities : List Text
  pub input_cost_per_token : Option Float
  pub output_cost_per_token : Option Float

pub record LiteLlm : Type 0 where
  pub inner : Client.Provider
  pub name : Text
  pub base_url : Text
  pub api_key : Text
  pub timeout : ℕ
  pub tls_insecure : Bool
  pub client : HttpClient

abbrev pub set_name : Text → LiteLlm → LiteLlm
set_name name p = record p { name = name }

abbrev pub set_api_key : Text → LiteLlm → LiteLlm
set_api_key key p = record p { api_key = key }

abbrev pub set_timeout : ℕ → LiteLlm → LiteLlm
set_timeout d p = record p { timeout = d }

abbrev pub set_tls_insecure : Bool → LiteLlm → LiteLlm
set_tls_insecure insecure p = record p { tls_insecure = insecure }

abbrev pub lite_settings : LiteLlm → List Setting
lite_settings p =
    with_name p.name
    ∷ (option_of (not (is_nil p.api_key)) (with_api_key p.api_key)
        ++ (option_of (is_positive p.timeout) (with_timeout p.timeout)
            ++ option_of p.tls_insecure (with_tls_insecure true)))

abbrev pub start : Text → LiteLlm
start base_url = record {
  inner = Client.new [] [];
  name = [];
  base_url = base_url;
  api_key = [];
  timeout = 0;
  tls_insecure = false;
  client = default_transport;
}

unfoldable pub new : Text → List (LiteLlm → LiteLlm) → LiteLlm
new base_url settings =
    let p = apply_settings settings (start base_url) in
    record p {
      inner = Client.new base_url (lite_settings p);
      client =
          if p.timeout == 0 && not p.tls_insecure
          then default_transport
          else own_transport p.timeout p.tls_insecure;
    }

abbrev flags : List (Bool × Text) → List Text
flags [] = []
flags ((t, name) ∷ fs) = let rest = flags fs in if t then name ∷ rest else rest

unfoldable pub info_capabilities : ModelInfo → List Text
info_capabilities mi = flags (
    (mi.supports_vision, lit "vision")
    ∷ (mi.supports_reasoning, lit "reasoning")
    ∷ (mi.supports_function_calling || mi.supports_tool_choice, lit "tools")
    ∷ (mi.supports_pdf_input, lit "pdf")
    ∷ (mi.supports_response_schema, lit "structured_output")
    ∷ (mi.supports_web_search, lit "web_search")
    ∷ (mi.supports_audio_input, lit "audio_input")
    ∷ (mi.supports_audio_output, lit "audio_output")
    ∷ (mi.supports_computer_use, lit "computer_use")
    ∷ (mi.supports_prompt_caching, lit "prompt_caching")
    ∷ (mi.supports_url_context, lit "url_context")
    ∷ [])

abbrev pub meta_of : ModelInfo → ModelMeta
meta_of mi = record {
  capabilities = info_capabilities mi;
  input_cost_per_token = mi.input_cost_per_token;
  output_cost_per_token = mi.output_cost_per_token;
}

-- The loop of fetchModelInfo over the entries.
unfoldable pub collect : List InfoEntry → Assoc Text ModelMeta → Assoc Text ModelMeta
unfolding insert info_capabilities
collect [] result = result
collect (e ∷ es) result = collect es (insert e.model_name (meta_of e.model_info) result)

-- One model and what is known of it.
abbrev pub enrich_with : Option ModelMeta → Model → Model
enrich_with none m = m
enrich_with (some md) m = record m {
  capabilities = if is_nil md.capabilities then m.capabilities else md.capabilities;
  input_cost_per_token = md.input_cost_per_token;
  output_cost_per_token = md.output_cost_per_token;
}

unfoldable pub enrich : Assoc Text ModelMeta → List Model → List Model
unfolding lookup
enrich metas [] = []
enrich metas (m ∷ ms) = enrich_with (lookup m.id metas) m ∷ enrich metas ms

abbrev pub metas_of : Result (List InfoEntry) → Result (Assoc Text ModelMeta)
metas_of (ok es) = ok (collect es [])
metas_of (err e) = err e

abbrev pub enriched : Result (Assoc Text ModelMeta) → List Model → List Model
enriched (ok metas) ms = enrich metas ms
enriched (err e) ms = ms

module _ (unmarshal : Text → Option (List InfoEntry)) (decode : Text → Option (List Model))
    (http : HttpCall → RoundTrip) where
  unfoldable pub fetch_model_info : LiteLlm → Result (Assoc Text ModelMeta)
  unfolding collect
  fetch_model_info p =
      metas_of (finish_get unmarshal (http (get (p.base_url ++ lit "/model/info") p.api_key)))

  unfoldable pub models : LiteLlm → Result (List Model)
  unfolding fetch_model_info enrich
  models p = do ms ← Client.models decode p.inner http; ok (enriched (fetch_model_info p) ms)

-- The entry that a name ends up with: the last of the listing.
abbrev pub last_entry : Text → List InfoEntry → Option ModelMeta → Option ModelMeta
last_entry name [] found = found
last_entry name (e ∷ es) found =
    last_entry name es (if same e.model_name name then some (meta_of e.model_info) else found)

collect-last_entry :
    (name : Text) (es : List InfoEntry) (metas : Assoc Text ModelMeta)
    → lookup name (collect es metas) ≡ last_entry name es (lookup name metas)
unfolding collect
collect-last_entry name [] metas = refl
collect-last_entry name (e ∷ es) metas =
    collect-last_entry name es (insert e.model_name (meta_of e.model_info) metas)
    ∙ ap (last_entry name es) (lookup-insert e.model_name name (meta_of e.model_info) metas)

enrich-last_entry :
    (es : List InfoEntry) (ms : List Model)
    → enrich (collect es []) ms ≡ map (λ m. enrich_with (last_entry m.id es none) m) ms
unfolding enrich
enrich-last_entry es [] = refl
enrich-last_entry es (m ∷ ms) =
    ap (λ o. enrich_with o m ∷ enrich (collect es []) ms) (collect-last_entry m.id es [])
    ∙ ap (◌∷◌ (enrich_with (last_entry m.id es none) m)) (enrich-last_entry es ms)

-- With both listings there, each model keeps its place and its identity, takes the costs of the last
-- entry under its name, and takes that entry's capabilities unless it has none.
pub enrich_models :
    (unmarshal : Text → Option (List InfoEntry)) (decode : Text → Option (List Model))
    (http : HttpCall → RoundTrip) (p : LiteLlm) (ms : List Model) (es : List InfoEntry)
    → Client.models decode p.inner http ≡ ok ms
    → finish_get unmarshal (http (get (p.base_url ++ lit "/model/info") p.api_key)) ≡ ok es
    → models unmarshal decode http p ≡ ok (map (λ m. enrich_with (last_entry m.id es none) m) ms)
unfolding models fetch_model_info
enrich_models unmarshal decode http p ms es h i =
    ap (λ r. r >>= (λ ms. ok (enriched (fetch_model_info unmarshal decode http p) ms))) h
    ∙ ap (λ r. ok (enriched (metas_of r) ms)) i
    ∙ ap ok (enrich-last_entry es ms)

-- Name.
unfoldable pub name_of : LiteLlm → Text
name_of p = p.name

-- Chat, ChatStream and Embeddings go to the inner provider.
module _ (until : Text → Option ℕ) where
  unfoldable pub chat :
      (Request → Option Text)
      → (Text → Option Response)
      → LiteLlm
      → (HttpCall → RoundTrip)
      → Request
      → Result Response
  unfolding Client.chat
  chat encode decode p http req = Client.chat until encode decode p.inner http req

  unfoldable pub chat_stream :
      (Request → Option Text)
      → (Text → Option Chunk)
      → LiteLlm
      → (HttpCall → Text ⊎ StreamReply)
      → Request
      → Result (List Chunk)
  unfolding Client.chat_stream
  chat_stream encode parse p http req = Client.chat_stream until encode parse p.inner http req

  unfoldable pub embeddings :
      (EmbedRequest → Option Text)
      → (Text → Option EmbedResponse)
      → LiteLlm
      → (HttpCall → RoundTrip)
      → EmbedRequest
      → Result EmbedResponse
  unfolding Client.embeddings
  embeddings encode decode p http req = Client.embeddings until encode decode p.inner http req
