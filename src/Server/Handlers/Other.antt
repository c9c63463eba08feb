-- ===== src/Server/Handlers/Other.antt =====
-- handleEmbeddings, handleModels, handleHealthz and handleMetrics of internal/server/server.go.
use go_ai_proxy.Common.{◌++◌, ℕ, Bool, Option, none, some, List, [], ◌∷◌, if◌then◌else◌, inl, inr}
use go_ai_proxy.Common.Text.{Text, lit, text_eq}
use go_ai_proxy.Domain.{EmbedRequest, EmbedResponse}
use go_ai_proxy.Metrics.{Metrics, write_prometheus}
use go_ai_proxy.Provider.Errors.{other}
use go_ai_proxy.Provider.OpenAi.{Result, err}
use go_ai_proxy.Registry.Route.{Candidate}
use go_ai_proxy.Translator.Models.{models_to_openai}
use go_ai_proxy.Translator.Embeddings.{Codec, embed_request_from_openai, embed_response_to_openai}
use go_ai_proxy.Server.{Reply, failure, success, Fanout, start_fanout, try_all, exhausted}
use go_ai_proxy.Server.Handlers.{
  Incoming, Body, embed_body, models_body, status_ok, exposition, no_content, Backend, Server, Json,
  not_allowed, read_request, unknown, marshal, find_candidates, record_success, after_loop,
}

module _ {W : Type 0} (backend : Backend W) where
  -- A provider without embeddings fails at once, with no call.
  abbrev pub call_embeddings : EmbedRequest → Candidate → W → W × (Result EmbedResponse × ℕ)
  call_embeddings req c w =
      if backend.embeds c.provider
      then backend.embeddings c.provider (record req { model = c.model_id }) w
      else (w, (err (other (backend.name c.provider ++ lit ": embeddings not supported")), 0))

  abbrev pub on_embeddings : Candidate → ℕ → EmbedResponse → Metrics → Metrics
  on_embeddings c duration_ms resp m =
      record_success backend c duration_ms
        (record resp.usage { completion_tokens = 0; cached_tokens = 0 }) m

  module _ (json : Json) where
    unfoldable pub embed_reply : Codec → EmbedRequest → Server W → Fanout EmbedResponse → Reply Body
    embed_reply codec req s f = elim f.response [
      | none ↦ exhausted (backend.gone s.world) f
      | some (c, resp) ↦
          let body = embed_body (embed_response_to_openai codec resp req.encoding_format) in
          marshal (json.marshals body) (lit "failed to encode response") body
    ]

    unfoldable pub run_embeddings :
        Codec → EmbedRequest → List Candidate → Server W → Server W × Reply Body
    unfolding embed_reply
    run_embeddings codec req cs s =
        let end =
          try_all backend.name (call_embeddings req) on_embeddings cs s.world
            (start_fanout s.metrics req.model cs) in
        (after_loop s end, embed_reply codec req (after_loop s end) end.1)

    pub decode_embed : Text → Option EmbedRequest
    decode_embed text = elim (json.embed_request text) [
      | none ↦ none
      | some oa ↦ embed_request_from_openai oa
    ]

    unfoldable pub handle_embeddings : Codec → Incoming → Server W → Server W × Reply Body
    unfolding decode_embed
    handle_embeddings codec r s = elim (read_request decode_embed s.max_body_bytes r) [
      | inl e ↦ (s, failure e)
      | inr req ↦
          let (s', found) = find_candidates backend req.model s in
          elim found [
            | [] ↦ (s', failure (unknown s'.registry req.model))
            | c ∷ cs ↦ run_embeddings codec req (c ∷ cs) s'
          ]
    ]

    abbrev is_get : Incoming → Bool
    is_get r = text_eq r.method (lit "GET")

    only_get : Reply Body
    only_get = failure (not_allowed (lit "only GET is supported"))

    unfoldable pub handle_models : Incoming → Server W → Reply Body
    unfolding only_get
    handle_models r s =
        if is_get r
        then (let body = models_body (models_to_openai s.registry.all_models) in
            marshal (json.marshals body) (lit "failed to encode models") body)
        else only_get

    unfoldable pub handle_healthz : Incoming → Reply Body
    unfolding only_get
    handle_healthz r = if is_get r then success status_ok else only_get

    metrics_body : Option Metrics → Body
    metrics_body none = no_content
    metrics_body (some m) = exposition (write_prometheus m)

    unfoldable pub handle_metrics : Incoming → Server W → Reply Body
    unfolding only_get metrics_body
    handle_metrics r s = if is_get r then success (metrics_body s.metrics) else only_get
