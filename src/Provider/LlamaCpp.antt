-- ===== src/Provider/LlamaCpp.antt =====
-- internal/provider/llamacpp/provider.go: the provider for llama.cpp servers. `schema_map` is the map
-- that a schema's JSON text stands for.
pub mod Gbnf
pub mod Literal
pub mod Closed
pub mod Names
pub mod Sound
pub mod Total
pub mod Laws
use mathlib.Core.List.{map}
use go_ai_proxy.Common.{
  ℕ, ◌≡◌, refl, Bool, true, false, not, Option, none, some, List, [], ◌∷◌, ◌++◌, arith, is_nil,
  or_default, if◌then◌else◌, ap, ◌∙◌, ◌⊎◌,
}
use go_ai_proxy.Common.Text.{Text, lit, text_eq}
use go_ai_proxy.Common.Assoc.{Assoc, lookup}
use go_ai_proxy.Common.Eq.{nat_eq, list_eq, list_beq}
use go_ai_proxy.Common.Int64.{is_positive}
use go_ai_proxy.Common.Json.{
  JsonCodec, str, Fields, end, find_field, set_field, delete_field, find_field-set_field,
  find_field-delete_field,
}
use go_ai_proxy.Domain.{
  Model, Schema, Request, Response, ResponseFormat, EmbedRequest, EmbedResponse, Chunk,
}
use go_ai_proxy.Provider.Errors.{other}
use go_ai_proxy.Provider.OpenAi.{Result, ok, err, ◌>>=◌, RoundTrip, or_parse_error, finish_call}
use go_ai_proxy.Provider.OpenAi.Client as Client
use go_ai_proxy.Provider.OpenAi.Client.{
  Setting, with_name, with_api_key, with_timeout, with_tls_insecure, with_request_body_mutator,
  option_of, HttpCall, post, completions_path, chat_body, StreamReply,
}
use go_ai_proxy.Provider.LlamaCpp.Gbnf.{Outcome, done, failed, schema_to_gbnf}

pub record Config : Type 0 where
  pub name : Text
  pub base_url : Text
  pub api_key : Text
  pub timeout : ℕ
  pub tls_insecure : Bool
  pub model_capabilities : Assoc Text (List Text)

pub record LlamaCpp : Type 0 where
  pub cfg : Config
  pub inner : Client.Provider

abbrev pub grammar_key : Text
grammar_key = lit "grammar"

abbrev pub response_format_key : Text
response_format_key = lit "response_format"

abbrev pub with_grammar : Text → Fields → Fields
with_grammar grammar root =
    delete_field response_format_key (set_field grammar_key (str grammar) root)

module _ (json : JsonCodec) where
  abbrev pub injected : Text → Option (Option Fields) → Result Text
  injected grammar none = err (other (lit "decode body"))
  injected grammar (some root) = ok (json.marshal (with_grammar grammar (or_default root end)))

  unfoldable pub inject_grammar : Text → Text → Result Text
  inject_grammar body grammar = injected grammar (json.unmarshal body)

  module _ (schema_map : Schema → Fields) where
    abbrev pub grammar_or_error : Text → Outcome Text → Result Text
    grammar_or_error body (failed e) = err (other (lit "unsupported schema"))
    grammar_or_error body (done grammar) = inject_grammar body grammar

    abbrev pub by_format : Text → Option ResponseFormat → Result Text
    by_format body none = ok body
    by_format body (some format) = grammar_or_error body (schema_to_gbnf (schema_map format.schema))

    unfoldable pub mutator : Client.Mutator
    unfolding inject_grammar
    mutator body req =
        if is_nil req.grammar
        then by_format body req.response_format
        else inject_grammar body req.grammar

    abbrev pub inner_settings : Config → List Setting
    inner_settings cfg =
        with_name cfg.name
        ∷ with_request_body_mutator mutator
        ∷ (option_of (not (is_nil cfg.api_key)) (with_api_key cfg.api_key)
            ++ (option_of (is_positive cfg.timeout) (with_timeout cfg.timeout)
                ++ option_of cfg.tls_insecure (with_tls_insecure true)))

    unfoldable pub new : Config → Result LlamaCpp
    unfolding mutator
    new cfg =
        if is_nil cfg.base_url
        then err (other (lit "base_url is required"))
        else if is_nil cfg.model_capabilities
        then err (other (lit "model_capabilities is required"))
        else ok (record { cfg = cfg; inner = Client.new cfg.base_url (inner_settings cfg) })

abbrev pub attach : Config → Model → Model
attach cfg m = record m {
  capabilities = or_default (lookup m.id cfg.model_capabilities) [];
  owned_by = lit "llamacpp";
}

-- Models; `decode` is ModelsFromOpenAI on a body.
unfoldable pub models :
    (Text → Option (List Model)) → (HttpCall → RoundTrip) → LlamaCpp → Result (List Model)
models decode http p = do ms ← Client.models decode p.inner http; ok (map (attach p.cfg) ms)

-- Name.
unfoldable pub name_of : LlamaCpp → Text
name_of p = p.cfg.name

-- Chat, ChatStream and Embeddings go to the inner provider.
module _ (until : Text → Option ℕ) where
  unfoldable pub chat :
      (Request → Option Text)
      → (Text → Option Response)
      → LlamaCpp
      → (HttpCall → RoundTrip)
      → Request
      → Result Response
  unfolding Client.chat
  chat encode decode p http req = Client.chat until encode decode p.inner http req

  unfoldable pub chat_stream :
      (Request → Option Text)
      → (Text → Option Chunk)
      → LlamaCpp
      → (HttpCall → Text ⊎ StreamReply)
      → Request
      → Result (List Chunk)
  unfolding Client.chat_stream
  chat_stream encode parse p http req = Client.chat_stream until encode parse p.inner http req

  unfoldable pub embeddings :
      (EmbedRequest → Option Text)
      → (Text → Option EmbedResponse)
      → LlamaCpp
      → (HttpCall → RoundTrip)
      → EmbedRequest
      → Result EmbedResponse
  unfolding Client.embeddings
  embeddings encode decode p http req = Client.embeddings until encode decode p.inner http req
